-- ===== src/Dst/Stream/Cursor.antt =====
-- The bits of the buffer as one sequence, highest bit of the first byte first, and the reader as
-- a position in it.
use sacd_extract.Common.{
  ℕ, zero, suc, ◌+◌, ◌-◌, ◌*◌, ◌/◌, ◌%◌, ◌^◌, ◌≤◌, ◌<◌, ◌≡◌, ap, some, ◌==◌, if◌then◌else◌, arith,
}
use sacd_extract.Common.Bits.{mod-two-pow_suc}
use sacd_extract.Dst.Stream.{Memory, StrData}
use native.Mathlib.Nat.{pow-suc, div-div-eq-div-mul, add_assoc}

abbrev pub bit_at : Memory → ℕ → ℕ
bit_at m k = m (k / 8) / 2 ^ (7 - k % 8) % 2

-- The number that the `n` bits from `p` on write in binary.
unfoldable pub word_at : Memory → ℕ → ℕ → ℕ
word_at m p zero = 0
word_at m p (suc n) = 2 * word_at m p n + bit_at m (p + n)

-- The reader of `t` bytes at `m` that has given `p` bits. A position past `8 * t` is one that a
-- failed read leaves.
abbrev pub at : Memory → ℕ → ℕ → StrData
at m t p = record {
  p_dst_data = some m;
  total_bytes = t;
  byte_counter = (p + 7) / 8;
  bit_position = 8 * ((p + 7) / 8) - p;
  data_byte = if p == 0 then 0 else m ((p + 7) / 8 - 1);
}

module _ (m : Memory) where
  pub word_at-lt : (p n : ℕ) → word_at m p n < 2 ^ n
  unfolding word_at
  word_at-lt p zero = omega arith
  word_at-lt p (suc n) = omega (arith, word_at-lt p n, pow-suc 2 n)

  -- The bits of a longer read are those of two reads in turn.
  pub word_at-add : (p a b : ℕ) → word_at m p (a + b) ≡ word_at m p a * 2 ^ b + word_at m (p + a) b
  unfolding word_at
  word_at-add p a zero = ground arith
  word_at-add p a (suc b) =
      let e : a + suc b ≡ suc (a + b) = omega arith in
      rw e (
        ground (
          arith,
          word_at-add p a b,
          pow-suc 2 b,
          ap (λ (k : ℕ). word_at m p a * k) (pow-suc 2 b),
          ap (λ (k : ℕ). bit_at m k) (add_assoc p a b),
        ))

  -- A read within one byte.
  pub word_at_in_byte :
      (p t : ℕ) → p % 8 + t ≤ 8 → word_at m p t ≡ m (p / 8) / 2 ^ (8 - p % 8 - t) % 2 ^ t
  unfolding word_at
  word_at_in_byte p zero h = omega arith
  word_at_in_byte p (suc t) h =
      let e : 8 - p % 8 - t ≡ suc (7 - p % 8 - t) = omega arith in
      ground (
        arith,
        e,
        word_at_in_byte p t (omega arith),
        mod-two-pow_suc (m (p / 8) / 2 ^ (7 - p % 8 - t)) t,
        div-div-eq-div-mul (m (p / 8)) (2 ^ (7 - p % 8 - t)) 2,
        pow-suc 2 (7 - p % 8 - t),
        ap (λ (k : ℕ). m k) same_byte,
        ap (λ (k : ℕ). m (p / 8) / 2 ^ k) same_bit,
      )
    where
      same_byte : (p + t) / 8 ≡ p / 8
      same_byte = omega arith

      same_bit : 7 - (p + t) % 8 ≡ 7 - p % 8 - t
      same_bit = omega arith
