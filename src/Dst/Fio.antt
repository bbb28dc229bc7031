-- ===== src/Dst/Fio.antt =====
-- src/libdstdec/dst_data.c: the FIO_BitGet functions, which read fields of the frame by `getbits`.
pub mod Fields
mod Tests
use sacd_extract.Common.{ℕ, zero, suc, ◌-◌, ◌%◌, ◌^◌, ltb, if◌then◌else◌}
use sacd_extract.Common.Int.{ℤ, pos, negsuc, leb_ℤ, ◌-ℤ◌}
use sacd_extract.Dst.Stream.{StrData, Reply, ret, fault, done, eof, getbits}

abbrev pub map_out : {A : Type 0} → (ℕ → A) → Reply ℕ → Reply A
map_out f (ret c out sd) = ret c (f out) sd
map_out f fault = fault

-- The integer that the low `w` bits of a `long` are as a signed type of `w` bits.
unfoldable pub signed : ℕ → ℕ → ℤ
signed w tmp =
    if ltb (tmp % 2 ^ w) (2 ^ (w - 1)) then pos (tmp % 2 ^ w) else negsuc (2 ^ w - tmp % 2 ^ w - 1)

-- A reader of fields: `Len` bits into a variable that holds `x`, as `read` takes them from `tmp`.
-- A negative `Len` leaves the variable as it was.
pub get_field : {A : Type 0} → (ℕ → ℕ → A) → A → StrData → ℤ → A → Reply A
get_field read empty sd (pos zero) x = ret done empty sd
get_field read empty sd (pos (suc n)) x = map_out (read (suc n)) (getbits sd 0 (suc n))
get_field read empty sd (negsuc n) x = ret eof x sd

pub fio_bit_get_chr_unsigned : StrData → ℤ → ℕ → Reply ℕ
fio_bit_get_chr_unsigned = get_field (λ len tmp. tmp % 2 ^ 8) 0

-- The bit pattern of the `int`; the value, for a field of less than 32 bits.
pub fio_bit_get_int_unsigned : StrData → ℤ → ℕ → Reply ℕ
fio_bit_get_int_unsigned = get_field (λ len tmp. tmp % 2 ^ 32) 0

-- if (*x >= (1 << (Len - 1))) *x -= (1 << Len);
pub sign_extend : ℕ → ℤ → ℤ
sign_extend len x = if leb_ℤ (pos (2 ^ (len - 1))) x then x -ℤ pos (2 ^ len) else x

pub fio_bit_get_int_signed : StrData → ℤ → ℤ → Reply ℤ
fio_bit_get_int_signed = get_field (λ len tmp. sign_extend len (signed 32 tmp)) (pos 0)

pub fio_bit_get_short_signed : StrData → ℤ → ℤ → Reply ℤ
fio_bit_get_short_signed = get_field (λ len tmp. sign_extend len (signed 16 tmp)) (pos 0)
