-- ===== src/Dsf/Files.antt =====
-- What src/libsacd/dsf.c uses of the C library's files, and numbers in little-endian bytes.
pub mod Fields
use sacd_extract.Common.{ℕ, zero, suc, ◌+◌, ◌-◌, ◌*◌, ◌/◌, ◌%◌, min, max, List, [], ◌∷◌, update}
use sacd_extract.Dst.Stream.{Memory}
use sacd_extract.Disc.Sector.{memcpy}

-- A file that is open for writing, on a disk where it may grow to `limit` bytes.
pub record File : Type 0 where
  pub contents : Memory
  pub size : ℕ
  pub place : ℕ
  pub limit : ℕ

-- The number of bytes that have been written, and the file.
unfoldable pub fwrite : Memory → ℕ → File → ℕ × File
fwrite m n f =
    let w = min n (f.limit - f.place) in
    (
      w,
      record f {
        contents = memcpy f.contents f.place m 0 w;
        size = max f.size (f.place + w);
        place = f.place + w;
      },
    )

-- fseek(fd, 0, SEEK_SET)
unfoldable pub rewind : File → File
rewind f = record f { place = 0 }

-- a number of `width` bytes at `p`
pub put_le : Memory → ℕ → ℕ → ℕ → Memory
put_le m p zero v = m
put_le m p (suc width) v = put_le (update m p (v % 256)) (p + 1) width (v / 256)

-- the number that `width` bytes at `p` are
pub get_le : Memory → ℕ → ℕ → ℕ
get_le m p zero = 0
get_le m p (suc width) = m p + 256 * get_le m (p + 1) width

-- The fields of packed structs, one behind the other: their widths and values.
pub put_fields : Memory → ℕ → List (ℕ × ℕ) → Memory
put_fields m p [] = m
put_fields m p ((width, v) ∷ fields) = put_fields (put_le m p width v) (p + width) fields
