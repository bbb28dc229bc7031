-- ===== src/Jobs/Take.antt =====
-- A thread takes a job.
use sacd_extract.Common.{
  ℕ, suc, ◌+◌, ◌-◌, ◌≡◌, ◌≢◌, ◌⊎◌, inl, inr, refl, sym, ap, ◌∙◌, arith, true, Option, none, some,
  List, ◌∷◌, length, ◌==◌, update, Bool-cases,
}
use mathlib.Core.Path.{subst}
use native.Mathlib.Decide.{dec_lt}
use sacd_extract.Jobs.{Job, Decoder, Track}
use sacd_extract.Jobs.Sound.{IsInput, IsDone, Numbered, IsSound}
use sacd_extract.Jobs.Insert.{Ascending-wider, Ascending-apart}

-- the job that a thread has after another one has taken or put one
pub other-or-own :
    (workers : ℕ → Option Job) (i k : ℕ) (v : Option Job) {j : Job}
    → update workers i v k ≡ some j
    → ((k ≡ i) × (v ≡ some j)) ⊎ ((k ≢ i) × (workers k ≡ some j))
other-or-own workers i k v e = elim (Bool-cases (i == k)) [
  | inl own ↦ inl (ground (arith, own), rw own at e)
  | inr other ↦ inr (ground (arith, other), rw other at e)
]

pub update-own : (workers : ℕ → Option Job) (i : ℕ) (v : Option Job) → update workers i v i ≡ v
update-own workers i v = let e : (i == i) ≡ true = ground arith in rw e refl

pub some-injective : {x y : Job} → some x ≡ some y → x ≡ y
some-injective h = cc

pub none-some : {x : Job} → none ≢ some x
none-some h = cc

module _ (t : Track) where
  pub take-IsSound :
      (i : ℕ) (job : Job) (next : List Job) (d : Decoder)
      → d.decode_list ≡ job ∷ next
      → d.workers i ≡ none
      → IsSound t d
      → IsSound t (record d {
        decode_list = next;
        decode_have = d.decode_have - 1;
        workers = update d.workers i (some job);
      })
  take-IsSound i job next d eq idle sound =
      let queue : Numbered (IsInput t) sound.taken (job ∷ next) =
        subst (λ l. Numbered (IsInput t) sound.taken l) eq sound.waiting in
      let long : length d.decode_list ≡ suc (length next) = ap length eq in
      let old = sound.taken in
      record {
        taken = old + 1;
        waiting = queue.2;
        total = omega (arith, sound.total, long);
        counted = omega (arith, sound.counted, long);
        sent = sound.sent;
        some_procs = sound.some_procs;
        threads = sound.threads;
        behind = omega (arith, sound.behind);
        covered = λ s lo hi. elim (dec_lt s old) [
          | no new ↦
              let own : update d.workers i (some job) i ≡ some job =
                update-own d.workers i (some job) in
              inl (i, job, own, omega (arith, queue.0))
          | yes known ↦ elim (sound.covered s lo known) [
            | inr there ↦ inr there
            | inl (k, j, at, seq) ↦ elim (Bool-cases (i == k)) [
              | inl same ↦ absurd (none-some (sym idle ∙ ap d.workers (ground (arith, same)) ∙ at))
              | inr other ↦ inl (k, j, rw other at, seq)
            ]
          ]
        ];
        worker = λ k j at. elim (other-or-own d.workers i k (some job) at) [
          | inl (own, here) ↦
              let same : job ≡ j = some-injective here in
              rw (← same) (omega (arith, sound.behind, queue.0), omega (arith, queue.0), queue.1)
          | inr (other, there) ↦
              let (lo, hi, input) = sound.worker k j there in (lo, omega (arith, hi), input)
        ];
        unique = λ k l j j' at at' seq. elim (other-or-own d.workers i k (some job) at) [
          | inl (own, here) ↦ elim (other-or-own d.workers i l (some job) at') [
            | inl (own', here') ↦ own ∙ sym own'
            | inr (other, there) ↦
                let same : job.seq ≡ j.seq = ap (λ (x : Job). x.seq) (some-injective here) in
                absurd (omega (arith, (sound.worker l j' there).1, same, seq, queue.0))
          ]
          | inr (other, there) ↦ elim (other-or-own d.workers i l (some job) at') [
            | inl (own', here') ↦
                let same : job.seq ≡ j'.seq = ap (λ (x : Job). x.seq) (some-injective here') in
                absurd (omega (arith, (sound.worker k j there).1, same, seq, queue.0))
            | inr (other', there') ↦ sound.unique k l j j' there there' seq
          ]
        ];
        apart = λ k j at. elim (other-or-own d.workers i k (some job) at) [
          | inl (own, here) ↦
              let same : job.seq ≡ j.seq = ap (λ (x : Job). x.seq) (some-injective here) in
              Ascending-apart (IsDone t) d.next_seq old j.seq d.write_list
                (inr (omega (arith, queue.0, same))) sound.results
          | inr (other, there) ↦ sound.apart k j there
        ];
        results =
            Ascending-wider (IsDone t) d.next_seq d.next_seq old (old + 1) d.write_list
              (omega arith) (omega arith) sound.results;
        first = sound.first;
        written = sound.written;
        number = sound.number;
        at_end = sound.at_end;
      }
