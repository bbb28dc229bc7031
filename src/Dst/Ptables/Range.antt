-- ===== src/Dst/Ptables/Range.antt =====
-- The probability tables of a frame that is accepted.
use sacd_extract.Common.{
  ℕ, zero, suc, ◌+◌, ◌-◌, ◌≤◌, ◌<◌, ◌≡◌, inl, inr, true, false, arith, ltb, leb, ◌==◌, ◌||◌,
  if◌then◌else◌, update, Bool-cases, ltb→le, leb→lt,
}
use native.Mathlib.Decide.{dec_lt}
use sacd_extract.Common.Int.{ℤ, pos, negsuc, ltb_ℤ, pos_part}
use sacd_extract.Dst.Stream.{Memory, StrData}
use sacd_extract.Dst.Unpack.{ok, give, read_bits}
use sacd_extract.Dst.Unpack.Steps.{go_on-eq-ok}
use sacd_extract.Dst.Unpack.Reader.{IsReader, read_bits-eq-ok, ok-injective, err-ok, stuck-ok}
use sacd_extract.Dst.Rice.{rice_decode}
use sacd_extract.Dst.Rice.Reader.{rice-IsReader}
use sacd_extract.Dst.Coded.{
  CodedTable, rice_methods, tap_loop, correct, size_ricemethod, size_ricem,
}
use sacd_extract.Dst.Ptables.{
  Row, Ptables, plain_loop, coded_loop, coded_table, long_table, read_ptable,
  read_probability_tables, ac_hismax, ac_bits, ac_hisbits,
}

-- The first `len` entries are probabilities.
abbrev pub InRange : Row → ℕ → Type 0
InRange row len = (i : ℕ) → i < len → (1 ≤ row i) × (row i ≤ 128)

InRange-update :
    (row : Row) (k v : ℕ) → InRange row k → 1 ≤ v → v ≤ 128 → InRange (update row k v) (k + 1)
InRange-update row k v r lo hi i h = elim (dec_lt i k) [
  | yes old ↦ let e : (k == i) ≡ false = ground arith in rw e (r i old)
  | no new ↦ let e : (k == i) ≡ true = ground arith in rw e (lo, hi)
]

InRange-until : (row : Row) {k k' : ℕ} → k' ≡ k → InRange row k → InRange row k'
InRange-until row e r i h = r i (omega (arith, e))

in_range :
    (c : ℤ) → (ltb_ℤ c (pos 1) || ltb_ℤ (pos 128) c) ≡ false → (1 ≤ pos_part c) × (pos_part c ≤ 128)
in_range (pos n) e = (ground (arith, e), ground (arith, e))
in_range (negsuc n) e = absurd (ground (arith, e))

module _ (m : Memory) (t : ℕ) where
  plain_loop-InRange :
      (left k : ℕ) (row : Row) (sd : StrData) {row' : Row} {sd' : StrData}
      → InRange row k
      → IsReader m t sd
      → plain_loop left k row sd ≡ ok row' sd'
      → InRange row' (k + left) × IsReader m t sd'
  unfolding plain_loop
  plain_loop-InRange zero k row sd r at e =
      let (a, b) = ok-injective e in (rw (← a) (InRange-until row (omega arith) r), rw (← b) at)
  plain_loop-InRange (suc left) k row sd r at e =
      let (v, sd1, e1, e2) = go_on-eq-ok (read_bits (ac_bits - 1) sd) _ e in
      let (less, at1) = read_bits-eq-ok m t (ac_bits - 1) sd (omega arith) at e1 in
      let (r', at') =
        plain_loop-InRange left (k + 1) (update row k (v + 1)) sd1
          (InRange-update row k (v + 1) r (omega arith) (omega arith)) at1 e2 in
      (InRange-until _ (omega arith) r', at')

  coded_loop-InRange :
      (cp : CodedTable) (method mm left k : ℕ) (row : Row) (sd : StrData) {row' : Row}
      {sd' : StrData}
      → mm ≤ 32
      → InRange row k
      → IsReader m t sd
      → coded_loop cp method mm left k row sd ≡ ok row' sd'
      → InRange row' (k + left) × IsReader m t sd'
  unfolding coded_loop
  coded_loop-InRange cp method mm zero k row sd w r at e =
      let (a, b) = ok-injective e in (rw (← a) (InRange-until row (omega arith) r), rw (← b) at)
  coded_loop-InRange cp method mm (suc left) k row sd w r at e =
      elim (Bool-cases (ltb ac_hismax k)) [
        | inl out ↦ absurd (err-ok (rw out at e))
        | inr inside ↦
            let x : ℤ =
              tap_loop (cp.c_pred_order method) (cp.c_pred_coef method) (λ i. pos (row i)) k 0
                (pos 0) in
            let (n, sd1, e1, e2) = go_on-eq-ok (rice_decode mm sd) _ (rw inside at e) in
            let at1 : IsReader m t sd1 = rice-IsReader m t mm sd w at e1 in
            elim (Bool-cases (ltb_ℤ (correct n x) (pos 1) || ltb_ℤ (pos 128) (correct n x))) [
              | inl out ↦ absurd (err-ok (rw out at e2))
              | inr good ↦
                  let (lo, hi) = in_range (correct n x) good in
                  let (r', at') =
                    coded_loop-InRange cp method mm left (k + 1)
                      (update row k (pos_part (correct n x))) sd1 w
                      (InRange-update row k (pos_part (correct n x)) r lo hi) at1 (rw good at e2) in
                  (InRange-until _ (omega arith) r', at')
            ]
      ]

  coded_table-InRange :
      (cp : CodedTable) (len : ℕ) (row : Row) (sd : StrData) {row' : Row} {sd' : StrData}
      → IsReader m t sd
      → coded_table cp len row sd ≡ ok row' sd'
      → InRange row' len × IsReader m t sd'
  unfolding coded_table
  coded_table-InRange cp len row sd at e =
      let (method, sd1, e1, e2) = go_on-eq-ok (read_bits size_ricemethod sd) _ e in
      let (small, at1) = read_bits-eq-ok m t size_ricemethod sd (omega arith) at e1 in
      let order : ℕ = cp.c_pred_order method in
      elim (Bool-cases (leb rice_methods method)) [
        | inl overrun ↦ absurd (stuck-ok (rw overrun at e2))
        | inr known ↦
            let e3 = rw known at e2 in
            elim (Bool-cases (leb len order)) [
              | inl out ↦ absurd (err-ok (rw out at e3))
              | inr fits ↦
                  let (row1, sd2, e4, e5) =
                    go_on-eq-ok (plain_loop order 0 row sd1) _ (rw fits at e3) in
                  let (r2, at2) =
                    plain_loop-InRange order 0 row sd1 (λ i h. absurd (omega arith)) at1 e4 in
                  let (mm, sd3, e6, e7) = go_on-eq-ok (read_bits size_ricem sd2) _ e5 in
                  let (less, at3) = read_bits-eq-ok m t size_ricem sd2 (omega arith) at2 e6 in
                  let (r4, at4) =
                    coded_loop-InRange cp method mm (len - order) order row1 sd3 (omega arith)
                      (InRange-until row1 (omega arith) r2) at3 e7 in
                  (InRange-until _ (omega (arith, leb→lt len order fits)) r4, at4)
            ]
      ]

  long_table-InRange :
      (cp : CodedTable) (len : ℕ) (row : Row) (sd : StrData) {row' : Row} {sd' : StrData}
      → IsReader m t sd
      → long_table cp len row sd ≡ ok row' sd'
      → InRange row' len × IsReader m t sd'
  unfolding long_table
  long_table-InRange cp len row sd at e =
      let (coded, sd1, e1, e2) = go_on-eq-ok (read_bits 1 sd) _ e in
      let (small, at1) = read_bits-eq-ok m t 1 sd (omega arith) at e1 in
      elim (Bool-cases (coded == 0)) [
        | inl plain ↦
            let (r, at2) =
              plain_loop-InRange len 0 row sd1 (λ i h. absurd (omega arith)) at1 (rw plain at e2) in
            (InRange-until _ (omega arith) r, at2)
        | inr rice ↦ coded_table-InRange cp len row sd1 at1 (rw rice at e2)
      ]

  any_table-InRange :
      (cp : CodedTable) (len : ℕ) (row : Row) (sd : StrData) {row' : Row} {sd' : StrData}
      → 1 ≤ len
      → IsReader m t sd
      → (if ltb 1 len then long_table cp len row else give (update row 0 128)) sd ≡ ok row' sd'
      → InRange row' len × IsReader m t sd'
  any_table-InRange cp len row sd some_entry at e = elim (Bool-cases (ltb 1 len)) [
    | inl long ↦ long_table-InRange cp len row sd at (rw long at e)
    | inr single ↦
        let (a, b) = ok-injective (rw single at e) in
        let r : InRange (update row 0 128) 1 =
          InRange-update row 0 128 (λ i h. absurd (omega arith)) (omega arith) (omega arith) in
        (
          rw (← a) (InRange-until (update row 0 128) (omega (arith, ltb→le 1 len single)) r),
          rw (← b) at,
        )
  ]

  -- Table `k` has 1 to 64 entries, all of them probabilities.
  abbrev pub IsTable : Ptables → ℕ → Type 0
  IsTable pt k =
      (1 ≤ pt.ptable_len k) × (pt.ptable_len k ≤ ac_hismax) × InRange (pt.p_one k) (pt.ptable_len k)

  read_ptable-IsTable :
      (cp : CodedTable) (k : ℕ) (pt : Ptables) (sd : StrData) {pt' : Ptables} {sd' : StrData}
      → IsReader m t sd
      → read_ptable cp k pt sd ≡ ok pt' sd'
      → IsTable pt' k × IsReader m t sd' × ((j : ℕ) → j < k → IsTable pt j → IsTable pt' j)
  unfolding read_ptable
  read_ptable-IsTable cp k pt sd at e =
      let (v, sd1, e1, e2) = go_on-eq-ok (read_bits ac_hisbits sd) _ e in
      let (less, at1) = read_bits-eq-ok m t ac_hisbits sd (omega arith) at e1 in
      let (row, sd2, e3, e4) = go_on-eq-ok _ _ e2 in
      let (r, at2) = any_table-InRange cp (v + 1) (pt.p_one k) sd1 (omega arith) at1 e3 in
      let (a, b) = ok-injective e4 in
      let own : (k == k) ≡ true = ground arith in
      (
        rw (← a) (rw own (omega arith, omega arith, r)),
        rw (← b) at2,
        (λ j h old. let other : (k == j) ≡ false = ground arith in rw (← a) (rw other old)),
      )

  -- Where ReadProbabilityTables accepts the tables of a frame, each has 1 to 64 entries, and these
  -- are probabilities from 1 to 128; the reader is left in or behind the frame.
  pub read_probability_tables-IsTable :
      (cp : CodedTable) (left k : ℕ) (pt : Ptables) (sd : StrData) (pt' : Ptables) (sd' : StrData)
      → IsReader m t sd
      → read_probability_tables cp left k pt sd ≡ ok pt' sd'
      → ((j : ℕ) → k ≤ j → j < k + left → IsTable pt' j)
        × ((j : ℕ) → j < k → IsTable pt j → IsTable pt' j)
        × IsReader m t sd'
  unfolding read_probability_tables
  read_probability_tables-IsTable cp zero k pt sd pt' sd' at e =
      let (a, b) = ok-injective e in
      ((λ j lo hi. absurd (omega arith)), (λ j h old. rw (← a) old), rw (← b) at)
  read_probability_tables-IsTable cp (suc left) k pt sd pt' sd' at e =
      let (pt1, sd1, e1, e2) = go_on-eq-ok (read_ptable cp k pt sd) _ e in
      let (new, at1, kept) = read_ptable-IsTable cp k pt sd at e1 in
      let (later, before, at2) =
        read_probability_tables-IsTable cp left (k + 1) pt1 sd1 pt' sd' at1 e2 in
      (
        (λ j lo hi. elim (dec_lt k j) [
          | yes above ↦ later j (omega arith) (omega arith)
          | no same ↦ let here : j ≡ k = omega arith in rw here (before k (omega arith) new)
        ]),
        (λ j h old. before j (omega arith) (kept j h old)),
        at2,
      )
