-- ===== src/Dst/Entry/Spread.antt =====
-- ReadArithmeticCodedData puts the bits of the frame into bytes, a nibble at a time.
use sacd_extract.Common.{
  ℕ, zero, suc, ◌+◌, ◌-◌, ◌*◌, ◌/◌, ◌%◌, ◌^◌, ◌<◌, ◌≡◌, refl, sym, ap, ap₂, ◌∙◌, arith, Bool, ltb,
  leb, ◌&&◌, if◌then◌else◌, get_or, same_below_lem, Bool-cases, inl, inr, true, false,
}
use sacd_extract.Common.Bits.{mod_bit, div-two_pow-add}
use sacd_extract.Dst.Stream.{Memory}
use sacd_extract.Dst.Entry.{spread, store_int, spread_loop}

abbrev spread_byte : ℕ → ℕ → ℕ
spread_byte nib i = get_or spread nib 0 / 2 ^ (8 * i) % 256

abbrev nibble_bit : ℕ → ℕ → ℕ
nibble_bit nib i = nib / 2 ^ (3 - i) % 2

nibble_byte : (nib i : ℕ) → nib < 16 → i < 4 → spread_byte nib i ≡ nibble_bit nib i
nibble_byte nib i h k =
    let a : (nib * 4 + i) / 4 ≡ nib = omega arith in
    let b : (nib * 4 + i) % 4 ≡ i = omega arith in
    sym (ap₂ spread_byte a b)
    ∙ same_below_lem 64 (λ x. spread_byte (x / 4) (x % 4)) (λ x. nibble_bit (x / 4) (x % 4)) refl
        (nib * 4 + i) (omega arith)
    ∙ ap₂ nibble_bit a b

abbrev pub inside : ℕ → ℕ → ℕ → Bool
inside j n i = leb j i && ltb i (j + n)

store_at : (c j v : ℕ) (a : Memory) → c < 4 → store_int j v a (j + c) ≡ v / 2 ^ (8 * c) % 256
unfolding store_int
store_at zero j v a h = ground arith
store_at (suc zero) j v a h = ground arith
store_at (suc (suc zero)) j v a h = ground arith
store_at (suc (suc (suc zero))) j v a h = ground arith
store_at (suc (suc (suc (suc c)))) j v a h = absurd (omega arith)

store_else : (j v : ℕ) (a : Memory) (i : ℕ) → inside j 4 i ≡ false → store_int j v a i ≡ a i
unfolding store_int
store_else j v a i h = ground (arith, h)

store_int_lem :
    (j v : ℕ) (a : Memory) (i : ℕ)
    → store_int j v a i ≡ (if inside j 4 i then v / 2 ^ (8 * (i - j)) % 256 else a i)
store_int_lem j v a i = elim (Bool-cases (inside j 4 i)) [
  | inl here ↦
      let e : j + (i - j) ≡ i = ground (arith, here) in
      rw here (ap (store_int j v a) (sym e) ∙ store_at (i - j) j v a (ground (arith, here)))
  | inr off ↦ rw off (store_else j v a i off)
]

-- the bit that the nibble of a round puts into one of its four bytes
nibble_lem :
    (left val c : ℕ)
    → c < 4
    → spread_byte (val / 2 ^ (4 * left) % 16) c ≡ val / 2 ^ (4 * suc left - 1 - c) % 2
nibble_lem left val c h =
    let e : 4 * left + (3 - c) ≡ 4 * suc left - 1 - c = omega arith in
    nibble_byte (val / 2 ^ (4 * left) % 16) c (omega arith) h
    ∙ mod_bit (3 - c) 4 (val / 2 ^ (4 * left)) (omega arith)
    ∙ ap (λ (x : ℕ). x % 2) (div-two_pow-add val (4 * left) (3 - c))
    ∙ ap (λ (x : ℕ). val / 2 ^ x % 2) e

pub spread_loop_lem :
    (left j val : ℕ) (a : Memory) (i : ℕ)
    → spread_loop left j val a i
      ≡ (if inside j (4 * left) i then val / 2 ^ (4 * left - 1 - (i - j)) % 2 else a i)
unfolding spread_loop
spread_loop_lem zero j val a i = ground arith
spread_loop_lem (suc left) j val a i =
    let a' : Memory = store_int j (get_or spread (val / 2 ^ (4 * left) % 16) 0) a in
    spread_loop_lem left (j + 4) val a' i ∙ elim (Bool-cases (inside j 4 i)) [
      | inl here ↦
          let out : inside (j + 4) (4 * left) i ≡ false = ground (arith, here) in
          let whole : inside j (4 * suc left) i ≡ true = ground (arith, here) in
          rw (out, whole)
            (store_int_lem j (get_or spread (val / 2 ^ (4 * left) % 16) 0) a i
              ∙ rw here (nibble_lem left val (i - j) (ground (arith, here))))
      | inr off ↦ elim (Bool-cases (inside (j + 4) (4 * left) i)) [
        | inl later ↦
            let whole : inside j (4 * suc left) i ≡ true = ground (arith, later) in
            let e : 4 * left - 1 - (i - (j + 4)) ≡ 4 * suc left - 1 - (i - j) =
              ground (arith, later) in
            rw (later, whole) (ap (λ (x : ℕ). val / 2 ^ x % 2) e)
        | inr out ↦
            let none_of : inside j (4 * suc left) i ≡ false = ground (arith, off, out) in
            rw (out, none_of)
              (store_int_lem j (get_or spread (val / 2 ^ (4 * left) % 16) 0) a i ∙ rw off)
      ]
    ]
