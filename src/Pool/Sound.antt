-- ===== src/Pool/Sound.antt =====
-- When a pool is sound, and the changes that keep it so.
use sacd_extract.Common.{
  ℕ, ◌+◌, ◌≤◌, ◌<◌, ◌≡◌, ◌≢◌, ap, ◌∙◌, arith, true, false, Option, List, [], ◌∷◌, ◌==◌, update,
  length, All,
}
use native.Mathlib.Decide.{dec_lt}
use sacd_extract.Pool.{BufferPool}

-- No buffer is in the list twice.
abbrev pub Distinct : List ℕ → Type 0
Distinct [] = Unit
Distinct (x ∷ xs) = All (λ y. y ≢ x) xs × Distinct xs

-- The list has the idle buffers, each once, and the lock counts them; buffers that are not made
-- are not in use.
pub record IsSound (p : BufferPool) : Type 0 where
  pub counted : p.have ≡ length p.head
  pub idle : All (λ s. (s < p.made) × (p.use_count s ≡ 0)) p.head
  pub distinct : Distinct p.head
  pub unmade : (s : ℕ) → p.made ≤ s → p.use_count s ≡ 0

pub All-with :
    {P Q R : ℕ → Type 0} (xs : List ℕ)
    → ((x : ℕ) → P x → Q x → R x)
    → All P xs
    → All Q xs
    → All R xs
All-with [] f ps qs = tt
All-with (x ∷ xs) f ps qs = (f x ps.0 qs.0, All-with xs f ps.1 qs.1)

pub All-map : {P R : ℕ → Type 0} (xs : List ℕ) → ((x : ℕ) → P x → R x) → All P xs → All R xs
All-map [] f ps = tt
All-map (x ∷ xs) f ps = (f x ps.0, All-map xs f ps.1)

pub update-other : (f : ℕ → ℕ) (s v x : ℕ) → x ≢ s → update f s v x ≡ f x
update-other f s v x h = let e : (s == x) ≡ false = ground (arith, h) in rw e

pub update-own : (f : ℕ → ℕ) (s v : ℕ) → update f s v s ≡ v
update-own f s v = let e : (s == s) ≡ true = ground arith in rw e

-- The pool with one more buffer made, in use by `users`.
pub grown :
    (p : BufferPool) (limit : Option ℕ) (users : ℕ)
    → IsSound p
    → IsSound
        (record p { limit = limit; made = p.made + 1; use_count = update p.use_count p.made users })
grown p limit users s = record {
  counted = s.counted;
  idle =
      All-map p.head
        (λ x h. (
          omega (arith, h.0),
          update-other p.use_count p.made users x (λ e. omega (arith, h.0)) ∙ h.1,
        ))
        s.idle;
  distinct = s.distinct;
  unmade =
      λ x h. update-other p.use_count p.made users x (λ e. omega arith) ∙ s.unmade x (omega arith);
}

-- A buffer that cannot be had is counted as made.
pub lost :
    (p : BufferPool) (limit : Option ℕ)
    → IsSound p
    → IsSound (record p { limit = limit; made = p.made + 1 })
lost p limit s = record {
  counted = s.counted;
  idle = All-map p.head (λ x h. (omega (arith, h.0), h.1)) s.idle;
  distinct = s.distinct;
  unmade = λ x h. s.unmade x (omega arith);
}

-- New use counts for a buffer that is in use change nothing for the idle ones.
pub used :
    (p : BufferPool) (s users : ℕ)
    → IsSound p
    → 0 < p.use_count s
    → IsSound (record p { use_count = update p.use_count s users })
used p s users sound h =
    let apart : (x : ℕ) → p.use_count x ≡ 0 → x ≢ s = λ x e eq. omega (arith, ap p.use_count eq) in
    record {
      counted = sound.counted;
      idle =
          All-map p.head (λ x i. (i.0, update-other p.use_count s users x (apart x i.1) ∙ i.1))
            sound.idle;
      distinct = sound.distinct;
      unmade =
          λ x k. update-other p.use_count s users x (apart x (sound.unmade x k)) ∙ sound.unmade x k;
    }

-- The last user gives a buffer back.
pub returned :
    (p : BufferPool) (s users : ℕ)
    → IsSound p
    → p.use_count s ≡ 1
    → users ≡ 0
    → IsSound
        (record p { use_count = update p.use_count s users; head = s ∷ p.head; have = p.have + 1 })
returned p s users sound one zero_left =
    let still : IsSound (record p { use_count = update p.use_count s users }) =
      used p s users sound (omega (arith, one)) in
    let made : s < p.made = elim (dec_lt s p.made) [
      | yes below ↦ below
      | no above ↦ absurd (omega (arith, one, sound.unmade s (omega arith)))
    ] in
    record {
      counted = omega (arith, sound.counted);
      idle = ((made, update-own p.use_count s users ∙ zero_left), still.idle);
      distinct = (
        All-map p.head (λ x i eq. omega (arith, one, i.1, ap p.use_count eq)) sound.idle,
        sound.distinct,
      );
      unmade = still.unmade;
    }
