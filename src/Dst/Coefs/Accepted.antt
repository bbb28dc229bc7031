-- ===== src/Dst/Coefs/Accepted.antt =====
-- ReadFilterCoefSets, filter by filter.
use sacd_extract.Common.{ℕ, zero, suc, ◌+◌, ◌≤◌, ◌<◌, ◌≡◌, true, false, arith, ◌==◌}
use native.Mathlib.Decide.{dec_lt}
use sacd_extract.Dst.Stream.{Memory, StrData}
use sacd_extract.Dst.Unpack.{ok, read_bits}
use sacd_extract.Dst.Unpack.Steps.{go_on-eq-ok}
use sacd_extract.Dst.Unpack.Reader.{IsReader, read_bits-eq-ok, ok-injective}
use sacd_extract.Dst.Coded.{CodedTable}
use sacd_extract.Dst.Coefs.{Filters, read_filter, read_filters, size_codedpredorder}
use sacd_extract.Dst.Coefs.Range.{IsFilter, any-InRange, cleared-InRange, cleared_zero}

module _ (m : Memory) (t : ℕ) where
  read_filter-IsFilter :
      (cf : CodedTable) (k : ℕ) (fl : Filters) (sd : StrData) {fl' : Filters} {sd' : StrData}
      → IsReader m t sd
      → read_filter cf k fl sd ≡ ok fl' sd'
      → IsFilter fl' k × IsReader m t sd' × ((j : ℕ) → j < k → IsFilter fl j → IsFilter fl' j)
  unfolding read_filter
  read_filter-IsFilter cf k fl sd at e =
      let (v, sd1, e1, e2) = go_on-eq-ok (read_bits size_codedpredorder sd) _ e in
      let (less, at1) = read_bits-eq-ok m t size_codedpredorder sd (omega arith) at e1 in
      let (coded, sd2, e3, e4) = go_on-eq-ok (read_bits 1 sd1) _ e2 in
      let (bit, at2) = read_bits-eq-ok m t 1 sd1 (omega arith) at1 e3 in
      let (coefs, sd3, e5, e6) = go_on-eq-ok _ _ e4 in
      let (r, at3) = any-InRange m t cf coded (v + 1) (fl.i_coef_a k) sd2 at2 e5 in
      let (a, b) = ok-injective e6 in
      let own : (k == k) ≡ true = ground arith in
      (
        rw (← a) (record {
          some_coefs = rw own (omega arith);
          order = rw own (omega arith);
          range = rw own (cleared-InRange (v + 1) coefs r);
          cleared = rw own (cleared_zero (v + 1) coefs);
        }),
        rw (← b) at3,
        (λ j h old.
            let other : (k == j) ≡ false = ground arith in
            rw (← a) (record {
              some_coefs = rw other old.some_coefs;
              order = rw other old.order;
              range = rw other old.range;
              cleared = rw other old.cleared;
            })),
      )

  -- Where ReadFilterCoefSets accepts the filters of a frame, each has 1 to 128 coefficients of nine
  -- bits, whatever method they are coded by, and zeros behind them; the reader is left in or behind
  -- the frame.
  pub read_filters-IsFilter :
      (cf : CodedTable) (left k : ℕ) (fl : Filters) (sd : StrData) (fl' : Filters) (sd' : StrData)
      → IsReader m t sd
      → read_filters cf left k fl sd ≡ ok fl' sd'
      → ((j : ℕ) → k ≤ j → j < k + left → IsFilter fl' j)
        × ((j : ℕ) → j < k → IsFilter fl j → IsFilter fl' j)
        × IsReader m t sd'
  unfolding read_filters
  read_filters-IsFilter cf zero k fl sd fl' sd' at e =
      let (a, b) = ok-injective e in
      ((λ j lo hi. absurd (omega arith)), (λ j h old. rw (← a) old), rw (← b) at)
  read_filters-IsFilter cf (suc left) k fl sd fl' sd' at e =
      let (fl1, sd1, e1, e2) = go_on-eq-ok (read_filter cf k fl sd) _ e in
      let (new, at1, kept) = read_filter-IsFilter cf k fl sd at e1 in
      let (later, before, at2) = read_filters-IsFilter cf left (k + 1) fl1 sd1 fl' sd' at1 e2 in
      (
        (λ j lo hi. elim (dec_lt k j) [
          | yes above ↦ later j (omega arith) (omega arith)
          | no same ↦ let here : j ≡ k = omega arith in rw here (before k (omega arith) new)
        ]),
        (λ j h old. before j (omega arith) (kept j h old)),
        at2,
      )
