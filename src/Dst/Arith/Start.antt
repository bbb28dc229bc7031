-- ===== src/Dst/Arith/Start.antt =====
-- How the arithmetic decoder starts.
use sacd_extract.Common.{ℕ, zero, suc, ◌+◌, ◌-◌, ◌*◌, ◌^◌, ◌≤◌, ◌<◌, ◌≡◌, ◌≢◌, refl, ap, ◌∙◌, arith}
use sacd_extract.Dst.Stream.{Memory}
use sacd_extract.Dst.Arith.{AcData, one, abits, init_loop, lt_ac_decode_bit_init}
use sacd_extract.Dst.Arith.Code.{code_word, code_bit, shift_in_lem, code_word-lt, code_word_first}
use sacd_extract.Dst.Arith.Interval.{IsValid}
use native.Mathlib.Nat.{mul-le-mul, one-le-pow, pow-suc, le_refl, zero-add}

module _ (cb : Memory) (fs : ℕ) (bits : (i : ℕ) → cb i < 2) where
  -- the registers `c` and `cbptr` after `left` rounds
  abbrev loaded : ℕ → AcData → AcData
  loaded left ac = record ac {
    c = ac.c * 2 ^ left + code_word cb fs ac.cbptr left;
    cbptr = ac.cbptr + left;
  }

  init_loop_lem :
      (left : ℕ) (ac : AcData)
      → (ac.c + 1) * 2 ^ left ≤ 2 ^ 31
      → init_loop left cb fs ac ≡ loaded left ac
  unfolding init_loop
  init_loop_lem zero ac h =
      let empty : code_word cb fs ac.cbptr 0 ≡ 0 = unfold code_word in refl in ground (arith, empty)
  init_loop_lem (suc left) ac h =
      let b = code_bit cb fs ac.cbptr in
      let step = record ac { c = 2 * ac.c + b; cbptr = ac.cbptr + 1 } in
      let floor : (ac.c + 1) * 1 ≤ (ac.c + 1) * 2 ^ suc left =
        mul-le-mul (le_refl (ac.c + 1)) (one-le-pow (suc left) 2 (omega arith)) in
      let grown : (2 * ac.c + b + 1) * 2 ^ left ≤ (2 * (ac.c + 1)) * 2 ^ left =
        mul-le-mul (ground (arith, bits ac.cbptr)) (le_refl (2 ^ left)) in
      let room : (2 * ac.c + b + 1) * 2 ^ left ≤ 2 ^ 31 =
        omega (arith, grown, ap (λ (i : ℕ). (ac.c + 1) * i) (pow-suc 2 left)) in
      rw (shift_in_lem cb fs bits ac.cbptr ac.c (omega arith)) (init_loop_lem left step room ∙ same)
    where
      same :
          loaded left (record ac { c = 2 * ac.c + code_bit cb fs ac.cbptr; cbptr = ac.cbptr + 1 })
          ≡ loaded (suc left) ac
      same =
          ground
            (arith, code_word_first cb fs ac.cbptr left, ap (λ (i : ℕ). ac.c * i) (pow-suc 2 left))

  -- The decoder starts with the first twelve code bits, that at index 0 left out, in the code
  -- register, and is valid unless these are all 1.
  pub init_lem :
      (lt_ac_decode_bit_init cb fs
        ≡ record { init = 0; c = code_word cb fs 1 abits; a = one - 1; cbptr = 13 })
      × (code_word cb fs 1 abits ≢ one - 1 → IsValid (lt_ac_decode_bit_init cb fs))
  unfolding lt_ac_decode_bit_init
  init_lem = (start, λ ne. rw start (omega (arith, ne, code_word-lt cb fs bits 1 abits)))
    where
      start :
          lt_ac_decode_bit_init cb fs
          ≡ record { init = 0; c = code_word cb fs 1 abits; a = one - 1; cbptr = 13 }
      start =
          simp zero-add at
            (init_loop_lem abits (record { init = 0; c = 0; a = one - 1; cbptr = 1 }) (omega arith))
