-- ===== src/Dst/Unpack.antt =====
-- src/libdstdec/unpack_dst.c and conststr.h: the error codes, and reading the fields of a frame one
-- after the other. The frame header that a failed read leaves is not kept: the next frame writes
-- every part of it before it reads it.
pub mod Steps
pub mod Reader
pub mod Short
use sacd_extract.Common.{ℕ}
use sacd_extract.Common.Int.{ℤ, pos}
use sacd_extract.Dst.Stream.{StrData, Reply, ret, fault, done, eof}
use sacd_extract.Dst.Fio.{
  fio_bit_get_int_unsigned, fio_bit_get_short_signed, fio_bit_get_chr_unsigned,
}

-- `enum DST_ErrorCodes` without DSTErr_NoError and DSTErr_MaxError
pub data DstErr : Type 0 where
  negative_bit_allocation too_many_segments invalid_segment_resolution : DstErr
  invalid_segment_length too_many_tables invalid_table_number : DstErr
  invalid_channel_mapping segment_number_mismatch invalid_coefficient_coding : DstErr
  invalid_coefficient_range invalid_ptable_coding invalid_ptable_range : DstErr
  invalid_stuffing_pattern invalid_arithmetic_code arithmetic_decoder : DstErr

-- `stuck` is a fault of the bit reader, or a loop that did not end within its fuel.
pub data Outcome (A : Type 0) : Type 0 where
  ok : A → StrData → Outcome A
  err : DstErr → Outcome A
  stuck : Outcome A

abbrev pub Unpack : Type 0 → Type 0
Unpack A = StrData → Outcome A

abbrev pub go_on : {A B : Type 0} → Outcome A → (A → Unpack B) → Outcome B
go_on (ok a sd) f = f a sd
go_on (err e) f = err e
go_on stuck f = stuck

infixl 5 ◌>>=◌ ◌>>◌
abbrev pub ◌>>=◌ : {A B : Type 0} → Unpack A → (A → Unpack B) → Unpack B
◌>>=◌ u f sd = go_on (u sd) f

abbrev pub ◌>>◌ : {B : Type 0} → Unpack (Unit {0}) → Unpack B → Unpack B
u >> v = u >>= λ _. v

abbrev pub give : {A : Type 0} → A → Unpack A
give a sd = ok a sd

abbrev pub fail : {A : Type 0} → DstErr → Unpack A
fail e sd = err e

abbrev pub never : {A : Type 0} → Unpack A
never sd = stuck

-- if (FIO_BitGetIntUnsigned(SD, n, &x)) return DSTErr_NegativeBitAllocation;
pub read_bits : ℕ → Unpack ℕ
read_bits n sd = elim (fio_bit_get_int_unsigned sd (pos n) 0) [
  | ret c x sd' ↦ elim c [ done ↦ ok x sd' | eof ↦ err negative_bit_allocation ]
  | fault ↦ stuck
]

-- FIO_BitGetIntUnsigned(SD, n, &x); with the return value not looked at
pub read_bits_unchecked : ℕ → Unpack ℕ
read_bits_unchecked n sd = elim (fio_bit_get_int_unsigned sd (pos n) 0) [
  | ret c x sd' ↦ ok x sd'
  | fault ↦ stuck
]

-- if (FIO_BitGetShortSigned(SD, n, &x)) return DSTErr_NegativeBitAllocation;
pub read_short : ℕ → Unpack ℤ
read_short n sd = elim (fio_bit_get_short_signed sd (pos n) (pos 0)) [
  | ret c x sd' ↦ elim c [ done ↦ ok x sd' | eof ↦ err negative_bit_allocation ]
  | fault ↦ stuck
]

-- FIO_BitGetChrUnsigned(SD, n, &x); with the return value not looked at
pub read_chr : ℕ → Unpack ℕ
read_chr n sd = elim (fio_bit_get_chr_unsigned sd (pos n) 0) [
  | ret c x sd' ↦ ok x sd'
  | fault ↦ stuck
]
