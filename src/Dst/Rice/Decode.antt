-- ===== src/Dst/Rice/Decode.antt =====
-- What RiceDecode reads, and where it does not end.
use sacd_extract.Common.{
  ℕ, zero, suc, ◌+◌, ◌*◌, ◌^◌, ◌≤◌, ◌<◌, ◌≡◌, ◌≢◌, refl, ap, ap₂, ◌∙◌, arith, true, false, ◌==◌,
  if◌then◌else◌,
}
use sacd_extract.Common.Int.{pos, sub_ℕ}
use sacd_extract.Dst.Stream.{Memory}
use sacd_extract.Dst.Stream.Cursor.{at, bit_at, word_at}
use sacd_extract.Dst.Unpack.{ok, stuck, read_bits_unchecked}
use sacd_extract.Dst.Unpack.Steps.{unchecked_held, unchecked_past}
use sacd_extract.Dst.Rice.{read_run_length, rice_decode}
use native.Mathlib.Nat.{add-zero, zero-add}

-- `r` zeros from bit `p` on, and then a 1
pub record IsRun (m : Memory) (p r : ℕ) : Type 0 where
  pub zeros : (i : ℕ) → i < r → bit_at m (p + i) ≡ 0
  pub last : bit_at m (p + r) ≡ 1

module _ (m : Memory) (t : ℕ) where
  one_bit :
      (p : ℕ) → p < 8 * t → read_bits_unchecked 1 (at m t p) ≡ ok (bit_at m p) (at m t (p + 1))
  one_bit p h =
      unchecked_held m t p 1 (omega arith) (omega arith)
      ∙ ap (λ (b : ℕ). ok b (at m t (p + 1))) single
    where
      single : word_at m p 1 ≡ bit_at m p
      single = unfold word_at in rw (add-zero, zero-add)

  run_length_lem :
      (fuel r p acc : ℕ)
      → r < fuel
      → p + r < 8 * t
      → IsRun m p r
      → read_run_length fuel acc (at m t p) ≡ ok (acc + r) (at m t (p + r + 1))
  unfolding read_run_length
  run_length_lem zero r p acc h k run = absurd (omega arith)
  run_length_lem (suc fuel) zero p acc h k run =
      let bit : bit_at m p ≡ 1 = rw add-zero at run.last in
      rw (one_bit p (omega arith), bit, add-zero, add-zero)
  run_length_lem (suc fuel) (suc r) p acc h k run =
      let bit : bit_at m p ≡ 0 = rw add-zero at (run.zeros 0 (omega arith)) in
      let next : p + 1 + r + 1 ≡ p + suc r + 1 = omega arith in
      let count : acc + 1 + r ≡ acc + suc r = omega arith in
      rw (one_bit p (omega arith), bit)
        (run_length_lem fuel r (p + 1) (acc + 1) (omega arith) (omega arith) rest
          ∙ ap₂ ok count (ap (at m t) next))
    where
      step : (i : ℕ) → p + 1 + i ≡ p + suc i
      step i = omega arith

      rest : IsRun m (p + 1) r
      rest = record {
        zeros = λ i h. rw (step i) (run.zeros (suc i) (omega arith));
        last = rw (step r) run.last;
      }

  -- Behind the end of the frame there is no 1 bit to end a run.
  run_past : (fuel k acc : ℕ) → read_run_length fuel acc (at m t (8 * (t + k))) ≡ stuck
  unfolding read_run_length
  run_past zero k acc = refl
  run_past (suc fuel) k acc =
      rw (unchecked_past m t k 1 (omega arith)) (run_past fuel (k + 1) (acc + 1))

  -- A run of zeros that lasts to the end of the frame is read for ever.
  run_hangs :
      (fuel a p acc : ℕ)
      → p + a ≡ 8 * t
      → ((i : ℕ) → i < a → bit_at m (p + i) ≡ 0)
      → read_run_length fuel acc (at m t p) ≡ stuck
  unfolding read_run_length
  run_hangs zero a p acc h zeros = refl
  run_hangs (suc fuel) zero p acc h zeros =
      let here : p ≡ 8 * (t + 0) = omega arith in
      rw here (unfold read_run_length in run_past (suc fuel) 0 acc)
  run_hangs (suc fuel) (suc a) p acc h zeros =
      let bit : bit_at m p ≡ 0 = rw add-zero at (zeros 0 (omega arith)) in
      rw (one_bit p (omega arith), bit)
        (run_hangs fuel a (p + 1) (acc + 1) (omega arith)
          (λ i k. rw (step i) (zeros (suc i) (omega arith))))
    where
      step : (i : ℕ) → p + 1 + i ≡ p + suc i
      step i = omega arith

  -- where the run ends, and the bits behind it
  abbrev pub lsbs_at : ℕ → ℕ → ℕ
  lsbs_at p r = p + r + 1

  abbrev pub rice_number : ℕ → ℕ → ℕ → ℕ
  rice_number p r k = r * 2 ^ k + word_at m (lsbs_at p r) k

  pub rice_decode_lem :
      (p r k : ℕ)
      → k ≤ 32
      → IsRun m p r
      → (rice_number p r k ≡ 0
          → lsbs_at p r + k ≤ 8 * t
          → rice_decode k (at m t p) ≡ ok (pos 0) (at m t (lsbs_at p r + k)))
        × (rice_number p r k ≢ 0
            → lsbs_at p r + k < 8 * t
            → rice_decode k (at m t p)
              ≡ ok
                  (if bit_at m (lsbs_at p r + k) == 1
                    then sub_ℕ 0 (rice_number p r k)
                    else pos (rice_number p r k))
                  (at m t (lsbs_at p r + k + 1)))
  unfolding rice_decode
  rice_decode_lem p r k h run = (
    (λ zero_number fits.
        let test : (rice_number p r k == 0) ≡ true = ground arith in
        rw (
          run_length_lem (8 * t) r p 0 (omega arith) (omega arith) run,
          zero-add,
          unchecked_held m t (lsbs_at p r) k fits h,
          test,
        )),
    (λ some_number fits.
        let test : (rice_number p r k == 0) ≡ false = ground arith in
        rw (
          run_length_lem (8 * t) r p 0 (omega arith) (omega arith) run,
          zero-add,
          unchecked_held m t (lsbs_at p r) k (omega arith) h,
          test,
          one_bit (lsbs_at p r + k) fits,
        )),
  )

  -- Where only zeros are left in the frame RiceDecode does not end, whatever its fuel.
  pub rice_decode_hangs :
      (p a k : ℕ)
      → p + a ≡ 8 * t
      → ((i : ℕ) → i < a → bit_at m (p + i) ≡ 0)
      → ((fuel : ℕ) → read_run_length fuel 0 (at m t p) ≡ stuck)
        × (rice_decode k (at m t p) ≡ stuck)
  unfolding rice_decode
  rice_decode_hangs p a k h zeros =
      ((λ fuel. run_hangs fuel a p 0 h zeros), rw (run_hangs (8 * t) a p 0 h zeros))
