-- ===== src/Dst/Rice/Reader.antt =====
-- RiceDecode leaves a reader of the frame, wherever it ends.
use sacd_extract.Common.{
  ℕ, zero, suc, ◌+◌, ◌-◌, ◌*◌, ◌^◌, ◌≤◌, ◌≡◌, inl, inr, sym, ◌∙◌, ◌==◌, Bool-cases, arith,
}
use sacd_extract.Common.Int.{ℤ}
use sacd_extract.Dst.Stream.{Memory, StrData}
use sacd_extract.Dst.Unpack.{ok, read_bits_unchecked}
use sacd_extract.Dst.Unpack.Steps.{go_on-eq-ok}
use sacd_extract.Dst.Unpack.Reader.{IsReader, unchecked-IsReader, ok-injective}
use sacd_extract.Dst.Rice.{read_run_length, rice_decode}

module _ (m : Memory) (t : ℕ) where
  unchecked-eq-ok :
      (n : ℕ) (sd : StrData) {v : ℕ} {sd' : StrData}
      → n ≤ 32
      → IsReader m t sd
      → read_bits_unchecked n sd ≡ ok v sd'
      → IsReader m t sd'
  unchecked-eq-ok n sd w r e =
      let (v, sd1, e1, r1) = unchecked-IsReader m t n sd w r in
      let (a, b) = ok-injective (sym e ∙ e1) in rw b r1

  run-IsReader :
      (fuel run : ℕ) (sd : StrData) {v : ℕ} {sd' : StrData}
      → IsReader m t sd
      → read_run_length fuel run sd ≡ ok v sd'
      → IsReader m t sd'
  unfolding read_run_length
  run-IsReader zero run sd r e = cc
  run-IsReader (suc fuel) run sd r e =
      let (v, sd1, e1, e2) = go_on-eq-ok (read_bits_unchecked 1 sd) _ e in
      let r1 : IsReader m t sd1 = unchecked-eq-ok 1 sd (omega arith) r e1 in
      elim (Bool-cases (v == 0)) [
        | inl again ↦ run-IsReader fuel (run + (1 - v)) sd1 r1 (rw again at e2)
        | inr last ↦ let (a, b) = ok-injective (rw last at e2) in rw (← b) r1
      ]

  pub rice-IsReader :
      (k : ℕ) (sd : StrData) {v : ℤ} {sd' : StrData}
      → k ≤ 32
      → IsReader m t sd
      → rice_decode k sd ≡ ok v sd'
      → IsReader m t sd'
  unfolding rice_decode
  rice-IsReader k sd w r e =
      let (run, sd1, e1, f1) = go_on-eq-ok (read_run_length (8 * sd.total_bytes) 0 sd) _ e in
      let r1 : IsReader m t sd1 = run-IsReader (8 * sd.total_bytes) 0 sd r e1 in
      let (lsbs, sd2, e2, f2) = go_on-eq-ok (read_bits_unchecked k sd1) _ f1 in
      let r2 : IsReader m t sd2 = unchecked-eq-ok k sd1 w r1 e2 in
      elim (Bool-cases (run * 2 ^ k + lsbs == 0)) [
        | inl none_left ↦ let (a, b) = ok-injective (rw none_left at f2) in rw (← b) r2
        | inr signed ↦
            let (sign, sd3, e3, f3) = go_on-eq-ok (read_bits_unchecked 1 sd2) _ (rw signed at f2) in
            let (a, b) = ok-injective f3 in rw (← b) (unchecked-eq-ok 1 sd2 (omega arith) r2 e3)
      ]
