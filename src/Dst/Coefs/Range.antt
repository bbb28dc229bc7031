-- ===== src/Dst/Coefs/Range.antt =====
-- The filters of a frame that is accepted.
use sacd_extract.Common.{
  ℕ, zero, suc, ◌+◌, ◌-◌, ◌≤◌, ◌<◌, ◌≡◌, inl, inr, true, false, arith, leb, ◌==◌, ◌||◌,
  if◌then◌else◌, update, Bool-cases, leb→lt, lt→leb, le→leb, lt→ltb,
}
use native.Mathlib.Decide.{dec_lt}
use sacd_extract.Common.Int.{ℤ, pos, negsuc, ltb_ℤ, leb_ℤ}
use sacd_extract.Dst.Stream.{Memory, StrData}
use sacd_extract.Dst.Unpack.{ok, read_bits, read_short}
use sacd_extract.Dst.Unpack.Steps.{go_on-eq-ok}
use sacd_extract.Dst.Unpack.Reader.{IsReader, read_bits-eq-ok, ok-injective, err-ok, stuck-ok}
use sacd_extract.Dst.Unpack.Short.{InBits, read_short-eq-ok}
use sacd_extract.Dst.Rice.{rice_decode}
use sacd_extract.Dst.Rice.Reader.{rice-IsReader}
use sacd_extract.Dst.Coded.{
  CodedTable, rice_methods, tap_loop, correct, size_ricemethod, size_ricem,
}
use sacd_extract.Dst.Coefs.{
  Coefs, Filters, plain_coef_loop, rice_loop, coded_filter, clear_rest, size_predcoef,
}

-- The first `n` coefficients have nine bits.
abbrev pub InRange : Coefs → ℕ → Type 0
InRange coefs n = (i : ℕ) → i < n → InBits size_predcoef (coefs i)

InRange-update :
    (coefs : Coefs) (k : ℕ) (v : ℤ)
    → InRange coefs k
    → InBits size_predcoef v
    → InRange (λ i. if k == i then v else coefs i) (k + 1)
InRange-update coefs k v r b i h = elim (dec_lt i k) [
  | yes old ↦ let e : (k == i) ≡ false = ground arith in rw e (r i old)
  | no new ↦ let e : (k == i) ≡ true = ground arith in rw e b
]

InRange-until : (coefs : Coefs) {k k' : ℕ} → k' ≡ k → InRange coefs k → InRange coefs k'
InRange-until coefs e r i h = r i (omega (arith, e))

in_bits : (c : ℤ) → (ltb_ℤ c (negsuc 255) || leb_ℤ (pos 256) c) ≡ false → InBits size_predcoef c
in_bits (pos n) e = (ground (arith, e), ground (arith, e))
in_bits (negsuc n) e = (ground (arith, e), ground (arith, e))

module _ (m : Memory) (t : ℕ) where
  plain-InRange :
      (left k : ℕ) (coefs : Coefs) (sd : StrData) {coefs' : Coefs} {sd' : StrData}
      → InRange coefs k
      → IsReader m t sd
      → plain_coef_loop left k coefs sd ≡ ok coefs' sd'
      → InRange coefs' (k + left) × IsReader m t sd'
  unfolding plain_coef_loop
  plain-InRange zero k coefs sd r at e =
      let (a, b) = ok-injective e in (rw (← a) (InRange-until coefs (omega arith) r), rw (← b) at)
  plain-InRange (suc left) k coefs sd r at e =
      let (v, sd1, e1, e2) = go_on-eq-ok (read_short size_predcoef sd) _ e in
      let (bits, at1) = read_short-eq-ok m t size_predcoef sd (omega arith) (omega arith) at e1 in
      let (r', at') =
        plain-InRange left (k + 1) (update coefs k v) sd1 (InRange-update coefs k v r bits) at1
          e2 in
      (InRange-until _ (omega arith) r', at')

  rice-InRange :
      (cf : CodedTable) (method mm left k : ℕ) (coefs : Coefs) (sd : StrData) {coefs' : Coefs}
      {sd' : StrData}
      → mm ≤ 32
      → InRange coefs k
      → IsReader m t sd
      → rice_loop cf method mm left k coefs sd ≡ ok coefs' sd'
      → InRange coefs' (k + left) × IsReader m t sd'
  unfolding rice_loop
  rice-InRange cf method mm zero k coefs sd w r at e =
      let (a, b) = ok-injective e in (rw (← a) (InRange-until coefs (omega arith) r), rw (← b) at)
  rice-InRange cf method mm (suc left) k coefs sd w r at e =
      let x : ℤ = tap_loop (cf.c_pred_order method) (cf.c_pred_coef method) coefs k 0 (pos 0) in
      let (n, sd1, e1, e2) = go_on-eq-ok (rice_decode mm sd) _ e in
      let at1 : IsReader m t sd1 = rice-IsReader m t mm sd w at e1 in
      let c : ℤ = correct n x in
      elim (Bool-cases (ltb_ℤ c (negsuc 255) || leb_ℤ (pos 256) c)) [
        | inl out ↦ absurd (err-ok (rw out at e2))
        | inr good ↦
            let (r', at') =
              rice-InRange cf method mm left (k + 1) (update coefs k c) sd1 w
                (InRange-update coefs k c r (in_bits c good)) at1 (rw good at e2) in
            (InRange-until _ (omega arith) r', at')
      ]

  coded-InRange :
      (cf : CodedTable) (order : ℕ) (coefs : Coefs) (sd : StrData) {coefs' : Coefs} {sd' : StrData}
      → IsReader m t sd
      → coded_filter cf order coefs sd ≡ ok coefs' sd'
      → InRange coefs' order × IsReader m t sd'
  unfolding coded_filter
  coded-InRange cf order coefs sd at e =
      let (method, sd1, e1, e2) = go_on-eq-ok (read_bits size_ricemethod sd) _ e in
      let (small, at1) = read_bits-eq-ok m t size_ricemethod sd (omega arith) at e1 in
      let first : ℕ = cf.c_pred_order method in
      elim (Bool-cases (leb rice_methods method)) [
        | inl overrun ↦ absurd (stuck-ok (rw overrun at e2))
        | inr known ↦
            let e3 = rw known at e2 in
            elim (Bool-cases (leb order first)) [
              | inl out ↦ absurd (err-ok (rw out at e3))
              | inr fits ↦
                  let (coefs1, sd2, e4, e5) =
                    go_on-eq-ok (plain_coef_loop first 0 coefs sd1) _ (rw fits at e3) in
                  let (r2, at2) =
                    plain-InRange first 0 coefs sd1 (λ i h. absurd (omega arith)) at1 e4 in
                  let (mm, sd3, e6, e7) = go_on-eq-ok (read_bits size_ricem sd2) _ e5 in
                  let (less, at3) = read_bits-eq-ok m t size_ricem sd2 (omega arith) at2 e6 in
                  let (r4, at4) =
                    rice-InRange cf method mm (order - first) first coefs1 sd3 (omega arith)
                      (InRange-until coefs1 (omega arith) r2) at3 e7 in
                  (InRange-until _ (omega (arith, leb→lt order first fits)) r4, at4)
            ]
      ]

  pub any-InRange :
      (cf : CodedTable) (coded order : ℕ) (coefs : Coefs) (sd : StrData) {coefs' : Coefs}
      {sd' : StrData}
      → IsReader m t sd
      → (if coded == 0 then plain_coef_loop order 0 coefs else coded_filter cf order coefs) sd
        ≡ ok coefs' sd'
      → InRange coefs' order × IsReader m t sd'
  any-InRange cf coded order coefs sd at e = elim (Bool-cases (coded == 0)) [
    | inl plain ↦
        let (r, at2) =
          plain-InRange order 0 coefs sd (λ i h. absurd (omega arith)) at (rw plain at e) in
        (InRange-until _ (omega arith) r, at2)
    | inr rice ↦ coded-InRange cf order coefs sd at (rw rice at e)
  ]

-- Filter `k` has 1 to 128 coefficients of nine bits, and zeros behind them.
pub record IsFilter (fl : Filters) (k : ℕ) : Type 0 where
  pub some_coefs : 1 ≤ fl.pred_order k
  pub order : fl.pred_order k ≤ 128
  pub range : InRange (fl.i_coef_a k) (fl.pred_order k)
  pub cleared : (i : ℕ) → fl.pred_order k ≤ i → i < 128 → fl.i_coef_a k i ≡ pos 0

pub cleared-InRange :
    (order : ℕ) (coefs : Coefs) → InRange coefs order → InRange (clear_rest order coefs) order
unfolding clear_rest
cleared-InRange order coefs r i h = rw (lt→leb i order h) (r i h)

pub cleared_zero :
    (order : ℕ) (coefs : Coefs) (i : ℕ) → order ≤ i → i < 128 → clear_rest order coefs i ≡ pos 0
unfolding clear_rest
cleared_zero order coefs i h k = rw (le→leb order i h, lt→ltb i 128 k)
