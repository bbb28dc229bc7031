-- ===== src/Dst/Stream/Tests.antt =====
-- Concrete runs of the bit reader, and the theorems about it at such inputs.
use sacd_extract.Common.{
  ℕ, ◌+◌, ◌*◌, ◌^◌, ◌<◌, ◌≤◌, ◌≡◌, ◌≢◌, refl, arith, some, none, get_or, [], ◌∷◌, Option, ltb,
  if◌then◌else◌, ◌==◌,
}
use sacd_extract.Dst.Stream.{
  Memory, StrData, ret, done, eof, getbits, getbits_loop, refill, take_bits, align, fill_buffer,
}
use sacd_extract.Dst.Stream.Cursor.{at, word_at}
use sacd_extract.Dst.Stream.Getbits.{getbits_lem, getbits_short, getbits_past}
use sacd_extract.Dst.Stream.Fill.{fill_buffer_lem}

-- the bytes 0xa5 0x3c, and zeros behind them
abbrev pub two_bytes : Memory
two_bytes i = get_or (0xa5 ∷ 0x3c ∷ []) i 0

getbits_five : getbits (at two_bytes 2 6) 0 5 ≡ ret done 9 (at two_bytes 2 11)
unfolding getbits getbits_loop refill take_bits align
getbits_five = refl

getbits_lem_example :
    getbits (at two_bytes 2 6) 0 5 ≡ ret done (word_at two_bytes 6 5) (at two_bytes 2 11)
getbits_lem_example = getbits_lem two_bytes 2 6 5 0 (omega arith) (omega arith)

-- four bits are left, and six are asked for
getbits_short_example :
    getbits (at two_bytes 2 12) 0 (4 + 2)
    ≡ ret eof (if 4 + 2 == 1 then 0 else word_at two_bytes 12 4 * 2 ^ 2) (at two_bytes 2 24)
getbits_short_example = getbits_short two_bytes 2 12 4 2 0 (omega arith) refl

getbits_past_example :
    getbits (at two_bytes 2 (8 * (2 + 1))) 7 1
    ≡ ret eof (if 1 == 1 then 7 else 0) (at two_bytes 2 (8 * (2 + (1 + 1))))
getbits_past_example = getbits_past two_bytes 2 1 1 7 (omega arith)

abbrev zeroed : ℕ → Option Memory
zeroed size = if ltb size 100 then some (λ i. 0) else none

abbrev unused : StrData
unused = record {
  p_dst_data = none;
  total_bytes = 0;
  byte_counter = 0;
  bit_position = 0;
  data_byte = 0;
}

fill_buffer_lem_example :
    ((block : Memory)
      → zeroed 2 ≡ some block
      → (m : Memory) × (fill_buffer zeroed unused two_bytes 2 ≡ some (at m 2 0))
        × ((i : ℕ) → i < 2 → m i ≡ two_bytes i)
        × ((i : ℕ) → 2 ≤ i → m i ≡ block i))
    × (zeroed 2 ≡ none → ◌≢◌ {A = ℕ} 2 0 → fill_buffer zeroed unused two_bytes 2 ≡ none)
fill_buffer_lem_example = fill_buffer_lem zeroed unused two_bytes 2
