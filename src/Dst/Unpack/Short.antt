-- ===== src/Dst/Unpack/Short.antt =====
-- A signed field that is read is in the range of its bits and leaves a reader.
use sacd_extract.Common.{ℕ, ◌+◌, ◌-◌, ◌*◌, ◌^◌, ◌≤◌, ◌<◌, ◌≡◌, inl, inr, refl, sym, ap, ◌∙◌, arith}
use native.Mathlib.Decide.{dec_le}
use sacd_extract.Common.Int.{ℤ, pos, negsuc, ◌≤ℤ◌, ◌<ℤ◌}
use sacd_extract.Dst.Stream.{Memory, StrData}
use sacd_extract.Dst.Stream.Cursor.{at}
use sacd_extract.Dst.Fio.Fields.{short_signed_eof, short_signed_past, get_field-IsSigned}
use sacd_extract.Dst.Unpack.{ok, err, read_short, negative_bit_allocation}
use sacd_extract.Dst.Unpack.Reader.{IsReader, ok-injective, err-ok}

abbrev pub InBits : ℕ → ℤ → Type 0
InBits n v = (negsuc (2 ^ (n - 1) - 1) ≤ℤ v) × (v <ℤ pos (2 ^ (n - 1)))

module _ (m : Memory) (t : ℕ) where
  inside_frame :
      (n p : ℕ) {v : ℤ} {sd' : StrData}
      → 0 < n
      → n ≤ 15
      → p ≤ 8 * t
      → read_short n (at m t p) ≡ ok v sd'
      → InBits n v × IsReader m t sd'
  unfolding read_short
  inside_frame n p h w i e = elim (dec_le (p + n) (8 * t)) [
    | yes held ↦
        let (v', f, s) = (get_field-IsSigned m t p n (pos 0) h held).1 w in
        let (a, b) = ok-injective (sym e ∙ rw (f, read_short)) in
        (rw a (s.above, s.below), rw b (p + n, refl, inl held))
    | no short ↦
        let a : ℕ = 8 * t - p in
        let g : a + (n - a) ≡ n = omega arith in
        let (v', sd2, f) = short_signed_eof m t p a (n - a) (pos 0) (omega arith) (omega arith) in
        let f' : read_short (a + (n - a)) (at m t p) ≡ err negative_bit_allocation =
          rw (f, read_short) in
        absurd (err-ok (sym (ap (λ (x : ℕ). read_short x (at m t p)) (sym g) ∙ f') ∙ e))
  ]

  behind_frame :
      (n k : ℕ) {v : ℤ} {sd' : StrData}
      → 0 < n
      → read_short n (at m t (8 * (t + k))) ≡ ok v sd'
      → InBits n v × IsReader m t sd'
  unfolding read_short
  behind_frame n k h e =
      let (v', sd2, f) = short_signed_past m t k n (pos 0) h in
      let f' : read_short n (at m t (8 * (t + k))) ≡ err negative_bit_allocation =
        rw (f, read_short) in
      absurd (err-ok (sym f' ∙ e))

  pub read_short-eq-ok :
      (n : ℕ) (sd : StrData) {v : ℤ} {sd' : StrData}
      → 0 < n
      → n ≤ 15
      → IsReader m t sd
      → read_short n sd ≡ ok v sd'
      → InBits n v × IsReader m t sd'
  read_short-eq-ok n sd h w (p, at_p, inl i) e =
      inside_frame n p h w i (ap (read_short n) (sym at_p) ∙ e)
  read_short-eq-ok n sd h w (p, at_p, inr (k, q)) e =
      let behind : sd ≡ at m t (8 * (t + k)) = at_p ∙ ap (at m t) q in
      behind_frame n k h (ap (read_short n) (sym behind) ∙ e)

  pub read_short_held :
      (p n : ℕ)
      → 0 < n
      → n ≤ 15
      → p + n ≤ 8 * t
      → (v : ℤ) × (read_short n (at m t p) ≡ ok v (at m t (p + n)))
  unfolding read_short
  read_short_held p n h w k =
      let (v, f, s) = (get_field-IsSigned m t p n (pos 0) h k).1 w in (v, rw (f, read_short))
