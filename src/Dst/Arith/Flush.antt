-- ===== src/Dst/Arith/Flush.antt =====
-- The end of the arithmetic code, and the row of a probability table that a prediction selects.
use sacd_extract.Common.{
  ℕ, zero, suc, ◌+◌, ◌-◌, ◌/◌, ◌≤◌, ◌<◌, ◌≡◌, refl, ap, arith, max, min, le→ltb, lt→ltb,
}
use native.Mathlib.Decide.{dec_le}
use sacd_extract.Common.Int.{ℤ, pos, pos_part, neg_part}
use sacd_extract.Dst.Stream.{Memory}
use sacd_extract.Dst.Arith.{AcData, flush_loop, lt_ac_decode_bit_flush, lt_ac_get_ptable_index}

flush_loop_lem :
    (left : ℕ) (cb : Memory) (fs cbptr : ℕ)
    → cbptr + left ≤ fs
    → flush_loop left cb fs 1 cbptr ≡ (1, cbptr + left)
unfolding flush_loop
flush_loop_lem zero cb fs cbptr h = ground arith
flush_loop_lem (suc left) cb fs cbptr h = ground (arith, flush_loop_lem left cb fs (cbptr + 1))

-- A flush answers 1 exactly when at most seven code bits are left over, whatever these bits are,
-- and then it skips them; else it answers 0 and stays. Both ways the next bit starts a new code.
pub flush_lem :
    (ac : AcData) (cb : Memory) (fs : ℕ)
    → (ac.cbptr + 7 < fs → lt_ac_decode_bit_flush ac cb fs ≡ (0, record ac { init = 1 }))
      × (fs ≤ ac.cbptr + 7
          → lt_ac_decode_bit_flush ac cb fs ≡ (1, record ac { init = 1; cbptr = max ac.cbptr fs }))
unfolding lt_ac_decode_bit_flush
flush_lem ac cb fs = (
  (λ h. rw (lt→ltb _ _ h, lt_ac_decode_bit_flush)),
  (λ h. elim (dec_le fs ac.cbptr) [
    | yes over ↦
        let nothing : fs - ac.cbptr ≡ 0 = omega arith in
        let stays : ac.cbptr ≡ max ac.cbptr fs = omega arith in
        rw (le→ltb _ _ h, nothing)
          (unfold flush_loop in ap (λ (i : ℕ). (1, record ac { init = 1; cbptr = i })) stays)
    | no under ↦
        let skips : ac.cbptr + (fs - ac.cbptr) ≡ max ac.cbptr fs = omega arith in
        rw (le→ltb _ _ h, flush_loop_lem (fs - ac.cbptr) cb fs ac.cbptr (omega arith), skips)
  ]),
)

-- The row for a prediction lies in the table: one row for 8 sizes of the prediction, the last row
-- for all larger ones.
pub ptable_index_lem :
    (predic_val : ℤ) (len : ℕ)
    → 0 < len
    → (j : ℕ) × (lt_ac_get_ptable_index predic_val len ≡ pos j)
      × (j < len)
      × (j ≡ min ((pos_part predic_val + neg_part predic_val) / 8) (len - 1))
unfolding lt_ac_get_ptable_index
ptable_index_lem predic_val len h = (
  min ((pos_part predic_val + neg_part predic_val) / 8) (len - 1),
  ground arith,
  omega arith,
  refl,
)
