-- ===== src/Jobs/Write.antt =====
-- The write thread hands a result on.
use sacd_extract.Common.{
  ℕ, ◌+◌, ◌≡◌, ◌≢◌, inl, inr, refl, sym, ap, ◌∙◌, arith, Bool, true, false, not, List, [], ◌∷◌,
  ◌++◌, length-append, All,
}
use mathlib.Core.Path.{subst}
use sacd_extract.Common.Int.{pos}
use sacd_extract.Jobs.{Job, Decoder, Track, head_seq}
use sacd_extract.Jobs.Sound.{IsDone, Ascending, Has, IsSound}
use sacd_extract.Jobs.Insert.{Numbered-append, Ascending-wider}

-- the job that a thread has after another one has taken or put one

pos-injective : {a b : ℕ} → pos a ≡ pos b → a ≡ b
pos-injective h = cc

not-true : (b : Bool) → not b ≡ true → b ≡ false
not-true true h = cc
not-true false h = refl

true-false : {b : Bool} → b ≡ true → b ≢ false
true-false h k = cc

module _ (t : Track) where
  pub write-IsSound :
      (job : Job) (next : List Job) (d : Decoder)
      → d.write_list ≡ job ∷ next
      → d.write_first ≡ pos d.next_seq
      → IsSound t d
      → IsSound t (record d {
        write_list = next;
        write_first = head_seq next;
        written = d.written ++ job ∷ [];
        next_seq = d.next_seq + 1;
        ended = not job.more;
      })
  unfolding head_seq
  write-IsSound job next d eq turn sound =
      let number : job.seq ≡ d.next_seq =
        pos-injective (sym (ap head_seq eq) ∙ sym sound.first ∙ turn) in
      let list : Ascending (IsDone t) d.next_seq sound.taken (job ∷ next) =
        subst (λ l. Ascending (IsDone t) d.next_seq sound.taken l) eq sound.results in
      let (lo, hi, done, rest) = list in
      record {
        taken = sound.taken;
        waiting = sound.waiting;
        total = sound.total;
        counted = sound.counted;
        sent = sound.sent;
        some_procs = sound.some_procs;
        threads = sound.threads;
        behind = omega (arith, number, hi);
        covered = λ s from to. elim (sound.covered s (omega arith) to) [
          | inl at ↦ inl at
          | inr there ↦
              let here : Has s (job ∷ next) = subst (Has s) eq there in
              elim here [ inl e ↦ absurd (omega (arith, e, number)) | inr later ↦ inr later ]
        ];
        worker = λ k j at.
            let (from, to, input) = sound.worker k j at in
            let apart : All (λ w. w.seq ≢ j.seq) (job ∷ next) =
              subst (λ l. All (λ w. w.seq ≢ j.seq) l) eq (sound.apart k j at) in
            let other : job.seq ≢ j.seq = apart.0 in
            (ground (arith, other, from, number), to, input);
        unique = sound.unique;
        apart = λ k j at.
            let apart : All (λ w. w.seq ≢ j.seq) (job ∷ next) =
              subst (λ l. All (λ w. w.seq ≢ j.seq) l) eq (sound.apart k j at) in
            apart.1;
        results =
            Ascending-wider (IsDone t) (job.seq + 1) (d.next_seq + 1) sound.taken sound.taken next
              (omega (arith, number)) (omega arith) rest;
        first = refl;
        written =
            Numbered-append (IsDone t) 0 d.written job sound.written
              (omega (arith, number, sound.number)) done;
        number = omega (arith, sound.number, length-append d.written (job ∷ []));
        at_end = λ end. elim done [
          | inl (more, below, frame, answer) ↦ absurd (true-false more (not-true job.more end))
          | inr (last, count) ↦ omega (arith, count, number)
        ];
      }
