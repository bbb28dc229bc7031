-- ===== src/Dst/Fio/Tests.antt =====
-- The theorems about the FIO_BitGet functions at concrete inputs.
use sacd_extract.Common.{◌+◌, ◌*◌, ◌^◌, ◌≤◌, ◌≡◌, refl, arith, get_or, [], ◌∷◌}
use sacd_extract.Common.Int.{ℤ, pos}
use sacd_extract.Dst.Stream.{Memory, ret, done, eof}
use sacd_extract.Dst.Stream.Cursor.{at, word_at}
use sacd_extract.Dst.Fio.{
  fio_bit_get_int_unsigned, fio_bit_get_int_signed, fio_bit_get_short_signed,
}
use sacd_extract.Dst.Fio.Fields.{
  int_unsigned_short, int_unsigned_past, get_field-IsSigned, IsSigned,
}

-- the bytes 0xa5 0x3c, and zeros behind them
abbrev two_bytes : Memory
two_bytes i = get_or (0xa5 ∷ 0x3c ∷ []) i 0

int_unsigned_short_example :
    fio_bit_get_int_unsigned (at two_bytes 2 12) (pos (4 + 2)) 0
    ≡ ret eof (word_at two_bytes 12 4 * 2 ^ 2) (at two_bytes 2 24)
int_unsigned_short_example =
    int_unsigned_short two_bytes 2 12 4 2 0 (omega arith) refl (omega arith)

int_unsigned_past_example :
    fio_bit_get_int_unsigned (at two_bytes 2 (8 * (2 + 1))) (pos 3) 0
    ≡ ret eof 0 (at two_bytes 2 (8 * (2 + (1 + 1))))
int_unsigned_past_example = int_unsigned_past two_bytes 2 1 3 0 (omega arith)

get_field-IsSigned_example :
    (8 ≤ 31
      → (v : ℤ) × (fio_bit_get_int_signed (at two_bytes 2 0) (pos 8) (pos 0)
          ≡ ret done v (at two_bytes 2 8))
        × IsSigned 8 (word_at two_bytes 0 8) v)
    × (8 ≤ 15
        → (v : ℤ) × (fio_bit_get_short_signed (at two_bytes 2 0) (pos 8) (pos 0)
            ≡ ret done v (at two_bytes 2 8))
          × IsSigned 8 (word_at two_bytes 0 8) v)
get_field-IsSigned_example = get_field-IsSigned two_bytes 2 0 8 (pos 0) (omega arith) (omega arith)
