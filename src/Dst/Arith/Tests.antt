-- ===== src/Dst/Arith/Tests.antt =====
-- Concrete runs of the arithmetic decoder, and the theorems about it at such inputs.
use sacd_extract.Common.{
  ℕ, ◌+◌, ◌-◌, ◌/◌, ◌%◌, ◌<◌, ◌≤◌, ◌≡◌, ◌≢◌, refl, arith, some, [], ◌∷◌, max, min,
}
use sacd_extract.Common.Int.{pos, negsuc, pos_part, neg_part}
use sacd_extract.Dst.Stream.{Memory}
use sacd_extract.Dst.Arith.{
  AcData, lt_ac_decode_bit_decode, lt_ac_decode_bit_flush, lt_ac_decode_bit_init, share, one, abits,
  renormalise, shift_in, lt_ac_get_ptable_index, flush_loop,
}
use sacd_extract.Dst.Arith.Code.{Scaled, code_word}
use sacd_extract.Dst.Arith.Interval.{IsValid, decode_lem, decode-IsValid}
use sacd_extract.Dst.Arith.Start.{init_lem}
use sacd_extract.Dst.Arith.Flush.{flush_lem, ptable_index_lem}
use sacd_extract.Dst.Arith.Reference.{ac_frame, lt_frame, ac_frame-lt_frame}

-- a code of 40 bits that are 0 and 1 in turn
abbrev code : Memory
code i = i % 2

code_bits : (i : ℕ) → code i < 2
code_bits i = omega arith

abbrev state : AcData
state = record { init = 0; c = 2040; a = 2048; cbptr = 20 }

state-IsValid : IsValid state
state-IsValid = omega arith

-- The part for 0 has 8 values, so that 8 code bits come in: 0 1 0 1 0 1 0 1.
decode_longest :
    lt_ac_decode_bit_decode state 1 code 40
    ≡ some (0, record { init = 0; c = 0x55; a = 2048; cbptr = 28 })
unfolding lt_ac_decode_bit_decode share renormalise shift_in
decode_longest = refl

-- A 1 among the bits behind the code is not noticed.
flush_ignores_bits : (lt_ac_decode_bit_flush (record state { cbptr = 36 }) code 40).0 ≡ 1
unfolding lt_ac_decode_bit_flush flush_loop
flush_ignores_bits = refl

decode_lem_example :
    (2040 < 2048 - share 2048 1
      → (k : ℕ) × (ac' : AcData) × (lt_ac_decode_bit_decode state 1 code 40 ≡ some (1, ac'))
        × Scaled code 40 code_bits (record state { a = 2048 - share 2048 1 }) k ac'
        × (k ≤ 8))
    × (2048 - share 2048 1 ≤ 2040
        → (k : ℕ) × (ac' : AcData) × (lt_ac_decode_bit_decode state 1 code 40 ≡ some (0, ac'))
          × Scaled code 40 code_bits
              (record state { c = 2040 - (2048 - share 2048 1); a = share 2048 1 })
              k
              ac'
          × (k ≤ 8))
decode_lem_example = decode_lem code 40 code_bits state 1 state-IsValid (omega arith) (omega arith)

decode-IsValid_example :
    (b : ℕ) × (ac' : AcData) × (lt_ac_decode_bit_decode state 1 code 40 ≡ some (b, ac'))
    × (b ≤ 1)
    × IsValid ac'
    × (20 ≤ ac'.cbptr)
    × (ac'.cbptr ≤ 20 + 8)
decode-IsValid_example =
    decode-IsValid code 40 code_bits state 1 state-IsValid (omega arith) (omega arith)

init_lem_example :
    (lt_ac_decode_bit_init code 40
      ≡ record { init = 0; c = code_word code 40 1 abits; a = one - 1; cbptr = 13 })
    × (code_word code 40 1 abits ≢ one - 1 → IsValid (lt_ac_decode_bit_init code 40))
init_lem_example = init_lem code 40 code_bits

flush_lem_example :
    (20 + 7 < 40 → lt_ac_decode_bit_flush state code 40 ≡ (0, record state { init = 1 }))
    × (40 ≤ 20 + 7
        → lt_ac_decode_bit_flush state code 40 ≡ (1, record state { init = 1; cbptr = max 20 40 }))
flush_lem_example = flush_lem state code 40

ptable_index_lem_example :
    (j : ℕ) × (lt_ac_get_ptable_index (negsuc 99) 10 ≡ pos j)
    × (j < 10)
    × (j ≡ min ((pos_part (negsuc 99) + neg_part (negsuc 99)) / 8) (10 - 1))
ptable_index_lem_example = ptable_index_lem (negsuc 99) 10 (omega arith)

ac_frame-lt_frame_example :
    ac_frame code 40 (record state { init = 1 }) (128 ∷ 5 ∷ []) ≡ lt_frame code 40 (128 ∷ 5 ∷ [])
ac_frame-lt_frame_example =
    ac_frame-lt_frame code 40 (record state { init = 1 }) (128 ∷ 5 ∷ []) refl
