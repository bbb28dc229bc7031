-- ===== src/Jobs/Put.antt =====
-- A thread has decoded its job.
use sacd_extract.Common.{
  ℕ, ◌≡◌, ◌≢◌, inl, inr, refl, sym, ap, ◌∙◌, arith, true, false, none, some, ◌==◌, Bool-cases,
}
use sacd_extract.Jobs.{Job, Decoder, Track, Decoded, decoded, nothing, put_job}
use sacd_extract.Jobs.Sound.{IsInput, IsDone, IsSound}
use sacd_extract.Jobs.Insert.{insert-Ascending, insert-Has, insert-All}
-- the job that a thread has after another one has taken or put one
use sacd_extract.Jobs.Take.{other-or-own, some-injective, none-some}

-- a job with its result
record IsResult (t : Track) (job job' : Job) : Type 0 where
  same : job'.seq ≡ job.seq
  done : IsDone t job'

decoded-IsResult :
    (t : Track) {job job' : Job} → IsInput t job → Decoded t job job' → IsResult t job job'
decoded-IsResult t input (decoded error output more answer) = record {
  same = refl;
  done = elim input [
    | inl (more', below, frame) ↦ inl (more', below, frame, answer)
    | inr last ↦ inr last
  ];
}
decoded-IsResult t input (nothing last) = record {
  same = refl;
  done = elim input [
    | inl (more, below, frame) ↦ absurd (true-false (sym more ∙ last))
    | inr at_end ↦ inr at_end
  ];
}
  where
    true-false : true ≢ false
    true-false h = cc

module _ (t : Track) where
  pub put-IsSound :
      (i : ℕ) (job job' : Job) (d : Decoder)
      → d.workers i ≡ some job
      → Decoded t job job'
      → IsSound t d
      → IsSound t (put_job i job' d)
  unfolding put_job
  put-IsSound i job job' d at_work result sound =
      let (lo, hi, input) = sound.worker i job at_work in
      let r = decoded-IsResult t input result in
      let other = other-or-own d.workers i in
      record {
        taken = sound.taken;
        waiting = sound.waiting;
        total = sound.total;
        counted = sound.counted;
        sent = sound.sent;
        some_procs = sound.some_procs;
        threads = sound.threads;
        behind = sound.behind;
        covered = λ s from to. elim (sound.covered s from to) [
          | inr there ↦ inr (insert-Has job' s d.write_list (inr there))
          | inl (k, j, at, seq) ↦ elim (Bool-cases (i == k)) [
            | inr other ↦ inl (k, j, rw other at, seq)
            | inl same ↦
                let own : some job ≡ some j =
                  sym at_work ∙ ap d.workers (ground (arith, same)) ∙ at in
                let number : job'.seq ≡ s =
                  r.same ∙ ap (λ (x : Job). x.seq) (some-injective own) ∙ seq in
                inr (insert-Has job' s d.write_list (inl number))
          ]
        ];
        worker = λ k j at. elim (other-or-own d.workers i k none at) [
          | inl (own, here) ↦ absurd (none-some here)
          | inr (other, there) ↦ sound.worker k j there
        ];
        unique = λ k l j j' at at' seq. elim (other-or-own d.workers i k none at) [
          | inl (own, here) ↦ absurd (none-some here)
          | inr (other, there) ↦ elim (other-or-own d.workers i l none at') [
            | inl (own, here) ↦ absurd (none-some here)
            | inr (other', there') ↦ sound.unique k l j j' there there' seq
          ]
        ];
        apart = λ k j at. elim (other-or-own d.workers i k none at) [
          | inl (own, here) ↦ absurd (none-some here)
          | inr (other, there) ↦
              insert-All (λ w. w.seq ≢ j.seq) job' d.write_list
                (λ e. other (sound.unique k i j job there at_work (sym e ∙ r.same)))
                (sound.apart k j there)
        ];
        results =
            insert-Ascending (IsDone t) job' d.next_seq sound.taken d.write_list
              (omega (arith, r.same, lo)) (omega (arith, r.same, hi)) r.done
              (rw r.same (sound.apart i job at_work)) sound.results;
        first = refl;
        written = sound.written;
        number = sound.number;
        at_end = sound.at_end;
      }
