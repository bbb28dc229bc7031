-- ===== src/Jobs/Insert.antt =====
-- The list for the write thread, which is kept in the order of the numbers.
use sacd_extract.Common.{
  ℕ, ◌+◌, ◌≤◌, ◌<◌, ◌≡◌, ◌≢◌, ◌⊎◌, inl, inr, arith, List, [], ◌∷◌, ◌++◌, ltb, length, All,
  Bool-cases, ltb→lt, ltb→le,
}
use sacd_extract.Jobs.{Job, insert_job}
use sacd_extract.Jobs.Sound.{Ascending, Numbered, Has}

pub insert-Ascending :
    (P : Job → Type 0) (job : Job) (lo hi : ℕ) (js : List Job)
    → lo ≤ job.seq
    → job.seq < hi
    → P job
    → All (λ w. w.seq ≢ job.seq) js
    → Ascending P lo hi js
    → Ascending P lo hi (insert_job job js)
unfolding insert_job
insert-Ascending P job lo hi [] above below p apart a = (above, below, p, tt)
insert-Ascending P job lo hi (here ∷ next) above below p (other, apart)
      (lo_here, here_hi, q, rest) =
    elim (Bool-cases (ltb job.seq here.seq)) [
      | inl front ↦
          rw front
            (above, below, p, (omega (arith, ltb→lt job.seq here.seq front), here_hi, q, rest))
      | inr back ↦
          let after : here.seq + 1 ≤ job.seq = later (ltb→le job.seq here.seq back) in
          rw back (
            lo_here,
            here_hi,
            q,
            insert-Ascending P job (here.seq + 1) hi next after below p apart rest,
          )
    ]
  where
    later : here.seq ≤ job.seq → here.seq + 1 ≤ job.seq
    later h = ground (arith, other)

pub insert-Has :
    (job : Job) (s : ℕ) (js : List Job) → (job.seq ≡ s) ⊎ Has s js → Has s (insert_job job js)
unfolding insert_job
insert-Has job s [] (inl e) = inl e
insert-Has job s [] (inr h) = absurd h
insert-Has job s (here ∷ next) h = elim (Bool-cases (ltb job.seq here.seq)) [
  | inl front ↦ rw front h
  | inr back ↦ rw back (elim h [
    | inl e ↦ inr (insert-Has job s next (inl e))
    | inr (inl e) ↦ inl e
    | inr (inr there) ↦ inr (insert-Has job s next (inr there))
  ])
]

pub insert-All :
    (P : Job → Type 0) (job : Job) (js : List Job) → P job → All P js → All P (insert_job job js)
unfolding insert_job
insert-All P job [] p a = (p, tt)
insert-All P job (here ∷ next) p (q, a) = elim (Bool-cases (ltb job.seq here.seq)) [
  | inl front ↦ rw front (p, (q, a))
  | inr back ↦ rw back (q, insert-All P job next p a)
]

pub Numbered-append :
    (P : Job → Type 0) (k : ℕ) (js : List Job) (job : Job)
    → Numbered P k js
    → job.seq ≡ k + length js
    → P job
    → Numbered P k (js ++ job ∷ [])
Numbered-append P k [] job n e p = (omega (arith, e), p, tt)
Numbered-append P k (j ∷ js) job (e', q, n) e p =
    (e', q, Numbered-append P (k + 1) js job n (omega (arith, e)) p)

pub Ascending-wider :
    (P : Job → Type 0) (lo lo' hi hi' : ℕ) (js : List Job)
    → lo' ≤ lo
    → hi ≤ hi'
    → Ascending P lo hi js
    → Ascending P lo' hi' js
Ascending-wider P lo lo' hi hi' [] h k a = tt
Ascending-wider P lo lo' hi hi' (j ∷ js) h k (l, u, p, a) = (
  omega arith,
  omega arith,
  p,
  Ascending-wider P (j.seq + 1) (j.seq + 1) hi hi' js (omega arith) k a,
)

-- a number outside the range is not there
pub Ascending-apart :
    (P : Job → Type 0) (lo hi s : ℕ) (js : List Job)
    → (s < lo) ⊎ (hi ≤ s)
    → Ascending P lo hi js
    → All (λ w. w.seq ≢ s) js
Ascending-apart P lo hi s [] h a = tt
Ascending-apart P lo hi s (j ∷ js) h (l, u, p, a) = (
  elim h [ inl k ↦ λ e. omega arith | inr k ↦ λ e. omega arith ],
  Ascending-apart P (j.seq + 1) hi s js (elim h [ inl k ↦ inl (omega arith) | inr k ↦ inr k ]) a,
)
