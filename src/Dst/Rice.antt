-- ===== src/Dst/Rice.antt =====
-- RiceDecode and Log2RoundUp of src/libdstdec/unpack_dst.c.
pub mod Decode
pub mod Reader
pub mod Log2
mod Tests
use sacd_extract.Common.{ℕ, zero, suc, ◌+◌, ◌-◌, ◌*◌, ◌^◌, true, false, leb, ◌==◌, if◌then◌else◌}
use sacd_extract.Common.Int.{ℤ, pos, sub_ℕ}
use sacd_extract.Dst.Stream.{StrData}
use sacd_extract.Dst.Unpack.{Unpack, ◌>>=◌, give, never, read_bits_unchecked}

-- do { ... RunLength += (1-RLBit); } while (RLBit == 0); the reads are not checked, and behind the
-- end of the frame they give 0.
pub read_run_length : ℕ → ℕ → Unpack ℕ
read_run_length zero run_length = never
read_run_length (suc fuel) run_length = read_bits_unchecked 1 >>= λ rl_bit. elim (rl_bit == 0) [
  | true ↦ read_run_length fuel (run_length + (1 - rl_bit))
  | false ↦ give (run_length + (1 - rl_bit))
]

-- Where the run ends in the frame it has less rounds than the frame has bits.
pub rice_decode : ℕ → Unpack ℤ
rice_decode m sd =
    (do
      run_length ← read_run_length (8 * sd.total_bytes) 0
      lsbs ← read_bits_unchecked m
      let nr = run_length * 2 ^ m + lsbs
      if nr == 0
          then give (pos 0)
          else (read_bits_unchecked 1 >>= λ sign. give (if sign == 1 then sub_ℕ 0 nr else pos nr)))
      sd

-- while (x >= (1 << y)) y++; with the rounds that are left
unfoldable pub log2_round_up_loop : ℕ → ℕ → ℕ → ℕ
log2_round_up_loop zero x y = y
log2_round_up_loop (suc left) x y =
    let rest = log2_round_up_loop left x (y + 1) in if leb (2 ^ y) x then rest else y

-- The argument is never negative. Its loop makes at most `x` rounds.
unfoldable pub log2_round_up : ℕ → ℕ
log2_round_up x = log2_round_up_loop x x 0
