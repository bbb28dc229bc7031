-- ===== src/Jobs/Progress.antt =====
-- No thread waits for ever: the threads can hand on every job that the main thread has sent.
use sacd_extract.Common.{
  ℕ, zero, suc, ◌+◌, ◌-◌, ◌≤◌, ◌<◌, ◌≡◌, ◌≢◌, ◌⊎◌, inl, inr, refl, ap, ◌∙◌, arith, false, none,
  some, List, [], ◌∷◌, length, update, Bool-cases, Option-cases,
}
use mathlib.Core.Path.{subst}
use native.Mathlib.Decide.{dec_lt}
use sacd_extract.Common.Int.{pos, negsuc}
use sacd_extract.Jobs.{
  Job, Decoder, Track, Decoded, decoded, nothing, Step, takes, puts, writes, Reachable, take_from,
  take_job, insert_job, head_seq, put_job, write_from, write_job,
}
use sacd_extract.Jobs.Sound.{IsInput, IsDone, Numbered, Ascending, Has, IsSound}
use sacd_extract.Jobs.Insert.{insert-Has}
-- the job that a thread has after another one has taken or put one
use sacd_extract.Jobs.Take.{update-own}
use sacd_extract.Jobs.Steps.{Step-IsSound, Reachable-IsSound}

-- Steps of the decoding threads and of the write thread: the main thread sends nothing.
pub data Run (t : Track) (d : Decoder) : Decoder → Type 0 where
  stays : Run t d d
  goes : {e e' : Decoder} → Run t d e → Step t e e' → e'.sequence ≡ e.sequence → Run t d e'

Run-append : {t : Track} {d e f : Decoder} → Run t d e → Run t e f → Run t d f
Run-append r stays = r
Run-append r (goes q s same) = goes (Run-append r q) s same

-- The threads can come to where the next number to be written is `n`.
record Comes (t : Track) (d : Decoder) (n : ℕ) : Type 0 where
  to : Decoder
  run : Run t d to
  next : to.next_seq ≡ n
  same : to.sequence ≡ d.sequence
  sound : IsSound t to

List-cases : (l : List Job) → (l ≡ []) ⊎ ((j : Job) × (js : List Job) × (l ≡ j ∷ js))
List-cases [] = inl refl
List-cases (j ∷ js) = inr (j, js, refl)

Has-ge : (P : Job → Type 0) (lo hi s : ℕ) (js : List Job) → Ascending P lo hi js → Has s js → lo ≤ s
Has-ge P lo hi s [] a h = absurd h
Has-ge P lo hi s (j ∷ js) (l, u, p, a) (inl e) = omega arith
Has-ge P lo hi s (j ∷ js) (l, u, p, a) (inr h) = omega (arith, Has-ge P (j.seq + 1) hi s js a h)

head_seq-Has :
    (P : Job → Type 0) (hi s : ℕ) (js : List Job)
    → Ascending P s hi js
    → Has s js
    → head_seq js ≡ pos s
unfolding head_seq
head_seq-Has P hi s [] a h = absurd h
head_seq-Has P hi s (j ∷ js) (l, u, p, a) (inl e) = ap pos e
head_seq-Has P hi s (j ∷ js) (l, u, p, a) (inr h) =
    absurd (omega (arith, Has-ge P (j.seq + 1) hi s js a h))

module _ (t : Track)
    (answers : (seq : ℕ) (input : List ℕ)
      → (error : ℕ) × (output : List ℕ) × t.Decodes seq input error output) where
  running : (d : Decoder) → IsSound t d → d.next_seq < d.sequence → d.ended ≡ false
  running d sound left = elim (Bool-cases d.ended) [
    | inr on ↦ on
    | inl end ↦ absurd (omega (arith, sound.at_end end, sound.sent))
  ]

  write_from-next :
      (d : Decoder) (l : List Job) (n : ℕ)
      → head_seq l ≡ pos n
      → (d' : Decoder) × (write_from d l ≡ some d')
        × (d'.next_seq ≡ d.next_seq + 1)
        × (d'.sequence ≡ d.sequence)
  unfolding write_from head_seq
  write_from-next d [] n e = absurd (negative e)
    where
      negative : negsuc 0 ≢ pos n
      negative h = cc
  write_from-next d (job ∷ next) n e = (_, refl, refl, refl)

  write_now :
      (d : Decoder)
      → IsSound t d
      → d.next_seq < d.sequence
      → Has d.next_seq d.write_list
      → Comes t d (d.next_seq + 1)
  write_now d sound left there =
      let front = head_seq-Has (IsDone t) sound.taken d.next_seq d.write_list sound.results there in
      let (d', e, next, same) = write_from-next d d.write_list d.next_seq front in
      let step : Step t d d' =
        writes {d = d} {d' = d'} (running d sound left) (sound.first ∙ front)
          (unfold write_job in e) in
      record {
        to = d';
        run = goes stays step same;
        next = next;
        same = same;
        sound = Step-IsSound t step sound;
      }

  result_of : (job : Job) → (job' : Job) × (job'.seq ≡ job.seq) × Decoded t job job'
  result_of job = elim (Bool-cases job.more) [
    | inl more ↦
        let (error, output, answer) = answers job.seq job.input in
        (_, refl, decoded error output more answer)
    | inr last ↦ (job, refl, nothing last)
  ]

  put_now :
      (d : Decoder) (i : ℕ) (job : Job)
      → IsSound t d
      → d.next_seq < d.sequence
      → d.workers i ≡ some job
      → job.seq ≡ d.next_seq
      → Comes t d (d.next_seq + 1)
  unfolding put_job
  put_now d i job sound left at_work turn =
      let (job', number, result) = result_of job in
      let step : Step t d (put_job i job' d) = puts i job job' at_work result in
      let there : Has d.next_seq (insert_job job' d.write_list) =
        insert-Has job' d.next_seq d.write_list (inl (number ∙ turn)) in
      let after = write_now (put_job i job' d) (Step-IsSound t step sound) left there in
      record {
        to = after.to;
        run = Run-append (goes stays step refl) after.run;
        next = after.next;
        same = after.same;
        sound = after.sound;
      }

  take_from-next :
      (d : Decoder) (l : List Job)
      → 0 < length l
      → (job : Job) × (next : List Job) × (l ≡ job ∷ next)
  take_from-next d [] h = absurd (omega arith)
  take_from-next d (job ∷ next) h = (job, next, refl)

  take_now :
      (d : Decoder) (sound : IsSound t d)
      → d.next_seq < d.sequence
      → sound.taken ≤ d.next_seq
      → Comes t d (d.next_seq + 1)
  take_now d sound left all =
      let (job, next, e) = take_from-next d d.decode_list (omega (arith, sound.total)) in
      let queue : Numbered (IsInput t) sound.taken (job ∷ next) =
        subst (λ l. Numbered (IsInput t) sound.taken l) e sound.waiting in
      let long : length d.decode_list ≡ suc (length next) = ap length e in
      let d1 : Decoder = record d {
        decode_list = next;
        decode_have = d.decode_have - 1;
        workers = update d.workers 0 (some job);
      } in
      let idle : d.workers 0 ≡ none = elim (Option-cases (d.workers 0)) [
        | inl free ↦ free
        | inr (j, busy) ↦
            absurd (omega (arith, (sound.worker 0 j busy).0, (sound.worker 0 j busy).1, all))
      ] in
      let taken : take_from 0 d d.decode_list ≡ some d1 =
        ap (take_from 0 d) e ∙ (unfold take_from in refl) in
      let step : Step t d d1 =
        takes {d = d} {d' = d1} 0 (sound.threads (omega arith)) idle
          (omega (arith, sound.counted, long)) (unfold take_job in taken) in
      let own = update-own d.workers 0 (some job) in
      let after =
        put_now d1 0 job (Step-IsSound t step sound) left own
          (omega (arith, queue.0, all, sound.behind)) in
      record {
        to = after.to;
        run = Run-append (goes stays step refl) after.run;
        next = after.next;
        same = after.same;
        sound = after.sound;
      }

  one_more : (d : Decoder) → IsSound t d → d.next_seq < d.sequence → Comes t d (d.next_seq + 1)
  one_more d sound left = elim (dec_lt d.next_seq sound.taken) [
    | no all ↦ take_now d sound left (omega arith)
    | yes some_left ↦ elim (sound.covered d.next_seq (omega arith) some_left) [
      | inl (i, job, at_work, turn) ↦ put_now d i job sound left at_work turn
      | inr there ↦ write_now d sound left there
    ]
  ]

  all_left :
      (k : ℕ) (d : Decoder) → IsSound t d → d.next_seq + k ≡ d.sequence → Comes t d d.sequence
  all_left zero d sound e = record {
    to = d;
    run = stays;
    next = omega (arith, e);
    same = refl;
    sound = sound;
  }
  all_left (suc k) d sound e =
      let one = one_more d sound (omega (arith, e)) in
      let rest = all_left k one.to one.sound (omega (arith, e, one.next, one.same)) in
      record {
        to = rest.to;
        run = Run-append one.run rest.run;
        next = rest.next ∙ one.same;
        same = rest.same ∙ one.same;
        sound = rest.sound;
      }

  -- Where DST_FramDSTDecode answers for every frame, the threads never get stuck: from whatever they
  -- have come to, they can hand on the result of every job that has been sent, while the main thread
  -- does nothing.
  pub all_written :
      (procs : ℕ) (d : Decoder)
      → 0 < procs
      → Reachable t procs d
      → (d' : Decoder) × Run t d d' × (d'.sequence ≡ d.sequence) × (length d'.written ≡ d.sequence)
  all_written procs d h r =
      let sound = Reachable-IsSound t procs h r in
      let k : ℕ = d.sequence - d.next_seq in
      let all = all_left k d sound (omega (arith, sound.behind, sound.total)) in
      (all.to, all.run, all.same, all.sound.number ∙ all.next)
