-- ===== src/Pool/Steps.antt =====
-- What holds of a pool whatever the threads do.
use sacd_extract.Common.{
  ℕ, zero, suc, ◌+◌, ◌-◌, ◌<◌, ◌≡◌, ◌≢◌, ◌⊎◌, inl, inr, refl, sym, ap, ◌∙◌, arith, Bool, true,
  false, Option, none, some, List, [], ◌∷◌, ◌==◌, length, All, Bool-cases,
}
use sacd_extract.Pool.Sound.{
  Distinct, IsSound, All-with, update-other, update-own, grown, lost, used, returned,
}
use mathlib.Core.Path.{subst}
use sacd_extract.Pool.{
  BufferPool, buffer_pool_create, waiting, got, no_memory, make_space, take_space, must_wait,
  buffer_pool_get_space, buffer_pool_use_space, buffer_pool_drop_space, Step, get_step, fail_step,
  use_step, drop_step, Reachable, created, stepped,
}

-- A buffer that comes from the pool had no user, and has one.
pub record IsTaken (p : BufferPool) (s : ℕ) (p' : BufferPool) : Type 0 where
  pub sound : IsSound p'
  pub was_idle : p.use_count s ≡ 0
  pub one_user : p'.use_count s ≡ 1

got-injective : {s s' : ℕ} {p p' : BufferPool} → got s p ≡ got s' p' → (s ≡ s') × (p ≡ p')
got-injective e = (cc, cc)

no_memory-injective : {p p' : BufferPool} → no_memory p ≡ no_memory p' → p ≡ p'
no_memory-injective e = cc

make-IsTaken :
    (malloc : Bool) (limit : Option ℕ) (p : BufferPool) {s : ℕ} {p' : BufferPool}
    → IsSound p
    → make_space malloc limit p ≡ got s p'
    → IsTaken p s p'
unfolding make_space
make-IsTaken false limit p sound e = cc
make-IsTaken true limit p sound e =
    let (a, b) = got-injective e in
    rw (← a) (
      rw (← b) (record {
        sound = grown p limit 1 sound;
        was_idle = sound.unmade p.made (omega arith);
        one_user = update-own p.use_count p.made 1;
      }))

take-IsTaken :
    (malloc : Bool) (p : BufferPool) (h : List ℕ) (l : Option ℕ) {s : ℕ} {p' : BufferPool}
    → p.head ≡ h
    → IsSound p
    → take_space malloc p h l ≡ got s p'
    → IsTaken p s p'
unfolding take_space
take-IsTaken malloc p [] none eq sound e = make-IsTaken malloc none p sound e
take-IsTaken malloc p [] (some zero) eq sound e = cc
take-IsTaken malloc p [] (some (suc n)) eq sound e = make-IsTaken malloc (some n) p sound e
take-IsTaken malloc p (x ∷ xs) l eq sound e =
    let (a, b) = got-injective e in
    let idle : All (λ s. (s < p.made) × (p.use_count s ≡ 0)) (x ∷ xs) =
      subst (λ ys. All (λ s. (s < p.made) × (p.use_count s ≡ 0)) ys) eq sound.idle in
    let distinct : Distinct (x ∷ xs) = subst Distinct eq sound.distinct in
    let counted : p.have ≡ length (x ∷ xs) = sound.counted ∙ ap length eq in
    rw (← a) (
      rw (← b) (record {
        sound = record {
          counted = omega (arith, counted);
          idle =
              All-with xs (λ y h other. (h.0, update-other p.use_count x 1 y other ∙ h.1)) idle.1
                distinct.0;
          distinct = distinct.1;
          unmade = λ y h.
              update-other p.use_count x 1 y (λ eq'. omega (arith, idle.0.0)) ∙ sound.unmade y h;
        };
        was_idle = idle.0.1;
        one_user = update-own p.use_count x 1;
      }))

make-lost :
    (malloc : Bool) (limit : Option ℕ) (p : BufferPool) {p' : BufferPool}
    → IsSound p
    → make_space malloc limit p ≡ no_memory p'
    → IsSound p'
unfolding make_space
make-lost false limit p sound e = rw (← no_memory-injective e) (lost p limit sound)
make-lost true limit p sound e = cc

take-lost :
    (malloc : Bool) (p : BufferPool) (h : List ℕ) (l : Option ℕ) {p' : BufferPool}
    → IsSound p
    → take_space malloc p h l ≡ no_memory p'
    → IsSound p'
unfolding take_space
take-lost malloc p [] none sound e = make-lost malloc none p sound e
take-lost malloc p [] (some zero) sound e = cc
take-lost malloc p [] (some (suc n)) sound e = make-lost malloc (some n) p sound e
take-lost malloc p (x ∷ xs) l sound e = cc

get-IsTaken :
    (malloc : Bool) (p : BufferPool) {s : ℕ} {p' : BufferPool}
    → IsSound p
    → buffer_pool_get_space malloc p ≡ got s p'
    → IsTaken p s p'
unfolding buffer_pool_get_space
get-IsTaken malloc p sound e = elim (Bool-cases (must_wait p)) [
  | inl wait ↦ absurd (waiting-got (rw wait at e))
  | inr go ↦ take-IsTaken malloc p p.head p.limit refl sound (rw go at e)
]
  where
    waiting-got : {s : ℕ} {p' : BufferPool} → waiting ≢ got s p'
    waiting-got e = cc

get-lost :
    (malloc : Bool) (p : BufferPool) {p' : BufferPool}
    → IsSound p
    → buffer_pool_get_space malloc p ≡ no_memory p'
    → IsSound p'
unfolding buffer_pool_get_space
get-lost malloc p sound e = elim (Bool-cases (must_wait p)) [
  | inl wait ↦ absurd (waiting-no_memory (rw wait at e))
  | inr go ↦ take-lost malloc p p.head p.limit sound (rw go at e)
]
  where
    waiting-no_memory : {p' : BufferPool} → waiting ≢ no_memory p'
    waiting-no_memory e = cc

some-injective : {p p' : BufferPool} → some p ≡ some p' → p ≡ p'
some-injective e = cc

drop-IsSound :
    (s : ℕ) (p : BufferPool) {p' : BufferPool}
    → IsSound p
    → buffer_pool_drop_space s p ≡ some p'
    → IsSound p'
unfolding buffer_pool_drop_space
drop-IsSound s p sound e = elim (Bool-cases (p.use_count s == 0)) [
  | inl none_left ↦ absurd (none-some (rw none_left at e))
  | inr some_left ↦
      let e1 = rw some_left at e in
      elim (Bool-cases (p.use_count s == 1)) [
        | inl last ↦
            let one : p.use_count s ≡ 1 = ground (arith, last) in
            let e2 = some-injective (rw last at e1) in
            rw (← e2) (returned p s (p.use_count s - 1) sound one (omega (arith, one)))
        | inr more ↦
            let e2 = some-injective (rw more at e1) in
            rw (← e2) (used p s (p.use_count s - 1) sound (ground (arith, some_left)))
      ]
]
  where
    none-some : {p' : BufferPool} → none ≢ some p'
    none-some e = cc

Step-IsSound : {p p' : BufferPool} → IsSound p → Step p p' → IsSound p'
Step-IsSound {p = p} sound (get_step malloc s e) = (get-IsTaken malloc p sound e).sound
Step-IsSound {p = p} sound (fail_step malloc e) = get-lost malloc p sound e
Step-IsSound {p = p} sound (use_step s h) =
    unfold buffer_pool_use_space in used p s (p.use_count s + 1) sound h
Step-IsSound {p = p} sound (drop_step s e) = drop-IsSound s p sound e

-- Whatever threads do with a pool, its list has idle buffers only, each once, and the lock counts
-- them.
pub Reachable-IsSound : (limit : Option ℕ) (p : BufferPool) → Reachable limit p → IsSound p
unfolding buffer_pool_create
Reachable-IsSound limit p created = record {
  counted = refl;
  idle = tt;
  distinct = tt;
  unmade = λ s h. refl;
}
Reachable-IsSound limit p' (stepped {p = p} r s) = Step-IsSound (Reachable-IsSound limit p r) s

take-answers :
    (malloc : Bool) (p : BufferPool) (h : List ℕ) (l : Option ℕ)
    → (h ≡ [] → l ≢ some 0)
    → ((s : ℕ) × (p' : BufferPool) × (take_space malloc p h l ≡ got s p'))
      ⊎ ((p' : BufferPool) × (take_space malloc p h l ≡ no_memory p') × (malloc ≡ false))
unfolding take_space make_space
take-answers true p [] none go = inl (_, _, refl)
take-answers false p [] none go = inr (_, refl, refl)
take-answers malloc p [] (some zero) go = absurd (go refl refl)
take-answers true p [] (some (suc n)) go = inl (_, _, refl)
take-answers false p [] (some (suc n)) go = inr (_, refl, refl)
take-answers malloc p (x ∷ xs) l go = inl (_, _, refl)

no_wait : (p : BufferPool) → IsSound p → must_wait p ≡ false → p.head ≡ [] → p.limit ≢ some 0
unfolding must_wait
no_wait p sound go empty full =
    let idle : p.have ≡ 0 = sound.counted ∙ ap length empty in
    let waits : must_wait p ≡ true = rw (must_wait, full, idle) in
    absurd (true-false (sym waits ∙ go))
  where
    true-false : true ≢ false
    true-false e = cc

-- On a pool that threads have worked with, buffer_pool_get_space never runs into its assertion. It
-- waits, or it gives a buffer that had no user and now has one, or it returns NULL, and this only
-- where there is no memory for a new buffer.
pub get_space_lem :
    (limit : Option ℕ) (p : BufferPool) (malloc : Bool)
    → Reachable limit p
    → (buffer_pool_get_space malloc p ≡ waiting)
      ⊎ (((s : ℕ) × (p' : BufferPool) × (buffer_pool_get_space malloc p ≡ got s p')
            × IsTaken p s p')
          ⊎ ((p' : BufferPool) × (buffer_pool_get_space malloc p ≡ no_memory p')
              × (malloc ≡ false)))
unfolding buffer_pool_get_space
get_space_lem limit p malloc r = elim (Bool-cases (must_wait p)) [
  | inl wait ↦ inl (rw wait)
  | inr go ↦
      let sound : IsSound p = Reachable-IsSound limit p r in
      elim (take-answers malloc p p.head p.limit (no_wait p sound go)) [
        | inl (s, p', e) ↦
            inr (inl (s, p', rw go e, take-IsTaken malloc p p.head p.limit refl sound e))
        | inr (p', e, none_there) ↦ inr (inr (p', rw go e, none_there))
      ]
]
