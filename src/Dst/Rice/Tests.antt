-- ===== src/Dst/Rice/Tests.antt =====
-- RiceDecode at concrete frames.
use sacd_extract.Common.{
  ◌∙◌, ℕ, zero, suc, ◌+◌, ◌*◌, ◌≤◌, ◌<◌, ◌≡◌, ◌≢◌, refl, arith, get_or, [], ◌∷◌, ◌==◌,
  if◌then◌else◌,
}
use sacd_extract.Common.Int.{pos, negsuc, sub_ℕ}
use sacd_extract.Dst.Stream.{Memory}
use sacd_extract.Dst.Stream.Cursor.{at, bit_at, word_at}
use sacd_extract.Dst.Unpack.{ok, stuck}
use sacd_extract.Dst.Rice.{read_run_length, rice_decode, log2_round_up, log2_round_up_loop}
use sacd_extract.Dst.Rice.Decode.{IsRun, rice_decode_lem, rice_decode_hangs, rice_number, lsbs_at}

-- 001 10 1 and zeros: two zeros, a 1, the low bits 2, the sign
abbrev frame : Memory
frame i = get_or (0x34 ∷ 0 ∷ []) i 0

frame-IsRun : IsRun frame 0 2
frame-IsRun = record { zeros = zeros; last = refl }
  where
    zeros : (i : ℕ) → i < 2 → bit_at frame (0 + i) ≡ 0
    zeros zero h = refl
    zeros (suc zero) h = refl
    zeros (suc (suc i)) h = absurd (omega arith)

rice_decode_lem_example :
    (rice_number frame 2 0 2 2 ≡ 0
      → lsbs_at frame 2 0 2 + 2 ≤ 8 * 2
      → rice_decode 2 (at frame 2 0) ≡ ok (pos 0) (at frame 2 (lsbs_at frame 2 0 2 + 2)))
    × (rice_number frame 2 0 2 2 ≢ 0
        → lsbs_at frame 2 0 2 + 2 < 8 * 2
        → rice_decode 2 (at frame 2 0)
          ≡ ok
              (if bit_at frame (lsbs_at frame 2 0 2 + 2) == 1
                then sub_ℕ 0 (rice_number frame 2 0 2 2)
                else pos (rice_number frame 2 0 2 2))
              (at frame 2 (lsbs_at frame 2 0 2 + 2 + 1)))
rice_decode_lem_example = rice_decode_lem frame 2 0 2 2 (omega arith) frame-IsRun

-- 2 * 4 + 2, negative
rice_decode_ten : rice_decode 2 (at frame 2 0) ≡ ok (negsuc 9) (at frame 2 6)
rice_decode_ten =
    rice_decode_lem_example.1 (unfold word_at in omega arith) (omega arith) ∙ unfold word_at in refl

rice_decode_hangs_example :
    ((fuel : ℕ) → read_run_length fuel 0 (at frame 2 8) ≡ stuck)
    × (rice_decode 3 (at frame 2 8) ≡ stuck)
rice_decode_hangs_example = rice_decode_hangs frame 2 8 8 3 refl zeros
  where
    zeros : (i : ℕ) → i < 8 → bit_at frame (8 + i) ≡ 0
    zeros zero h = refl
    zeros (suc zero) h = refl
    zeros (suc (suc zero)) h = refl
    zeros (suc (suc (suc zero))) h = refl
    zeros (suc (suc (suc (suc zero)))) h = refl
    zeros (suc (suc (suc (suc (suc zero))))) h = refl
    zeros (suc (suc (suc (suc (suc (suc zero)))))) h = refl
    zeros (suc (suc (suc (suc (suc (suc (suc zero))))))) h = refl
    zeros (suc (suc (suc (suc (suc (suc (suc (suc i)))))))) h = absurd (omega arith)

log2_round_up_four : log2_round_up 4 ≡ 3
unfolding log2_round_up log2_round_up_loop
log2_round_up_four = refl
