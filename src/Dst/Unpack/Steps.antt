-- ===== src/Dst/Unpack/Steps.antt =====
-- What the reads of a field do, and how a sequence of steps that succeeds is taken apart.
use sacd_extract.Common.{ℕ, ◌+◌, ◌*◌, ◌≤◌, ◌<◌, ◌≡◌, refl}
use sacd_extract.Dst.Stream.{Memory, StrData}
use sacd_extract.Dst.Stream.Cursor.{at, word_at}
use sacd_extract.Dst.Fio.Fields.{
  int_unsigned_reads, int_unsigned_short, int_unsigned_past, chr_unsigned_reads,
}
use sacd_extract.Dst.Unpack.{
  Outcome, ok, err, stuck, Unpack, go_on, read_bits, read_bits_unchecked, read_chr,
  negative_bit_allocation,
}

pub go_on-eq-ok :
    {A B : Type 0} (o : Outcome A) (f : A → Unpack B) {b : B} {sd : StrData}
    → go_on o f ≡ ok b sd
    → (a : A) × (mid : StrData) × (o ≡ ok a mid) × (f a mid ≡ ok b sd)
go_on-eq-ok (ok a mid) f h = (a, mid, refl, h)
go_on-eq-ok (err e) f h = cc
go_on-eq-ok stuck f h = cc

module _ (m : Memory) (t : ℕ) where
  pub read_bits_held :
      (p n : ℕ)
      → p + n ≤ 8 * t
      → n ≤ 32
      → read_bits n (at m t p) ≡ ok (word_at m p n) (at m t (p + n))
  unfolding read_bits
  read_bits_held p n h k = rw (int_unsigned_reads m t p n 0 h k, read_bits)

  pub read_bits_short :
      (p a e : ℕ)
      → 0 < e
      → p + a ≡ 8 * t
      → a + e ≤ 32
      → read_bits (a + e) (at m t p) ≡ err negative_bit_allocation
  unfolding read_bits
  read_bits_short p a e h k w = rw (int_unsigned_short m t p a e 0 h k w, read_bits)

  pub unchecked_held :
      (p n : ℕ)
      → p + n ≤ 8 * t
      → n ≤ 32
      → read_bits_unchecked n (at m t p) ≡ ok (word_at m p n) (at m t (p + n))
  unfolding read_bits_unchecked
  unchecked_held p n h k = rw (int_unsigned_reads m t p n 0 h k, read_bits_unchecked)

  pub unchecked_past :
      (k n : ℕ)
      → 0 < n
      → read_bits_unchecked n (at m t (8 * (t + k))) ≡ ok 0 (at m t (8 * (t + (k + 1))))
  unfolding read_bits_unchecked
  unchecked_past k n h = rw (int_unsigned_past m t k n 0 h, read_bits_unchecked)

  pub read_chr_held :
      (p n : ℕ)
      → p + n ≤ 8 * t
      → n ≤ 8
      → read_chr n (at m t p) ≡ ok (word_at m p n) (at m t (p + n))
  unfolding read_chr
  read_chr_held p n h k = rw (chr_unsigned_reads m t p n 0 h k, read_chr)
