-- ===== src/Jobs/Steps.antt =====
-- Whatever the threads do, each job is in its place.
use sacd_extract.Common.{ℕ, ◌<◌, ◌≡◌, inl, inr, refl, arith, none, some, List, [], ◌∷◌, length}
use mathlib.Core.Path.{subst}
use sacd_extract.Common.Int.{pos}
use sacd_extract.Jobs.{
  Job, Decoder, Track, Step, sends, finishes, takes, puts, writes, Reachable, created, stepped,
  dst_decoder_create, dst_decoder_decode, finish_write_job, take_from, take_job, head_seq,
  write_from, write_job,
}
use sacd_extract.Jobs.Sound.{IsDone, Numbered, IsSound}
-- the job that a thread has after another one has taken or put one
use sacd_extract.Jobs.Add.{add-IsSound}
use sacd_extract.Jobs.Take.{take-IsSound}
use sacd_extract.Jobs.Put.{put-IsSound}
use sacd_extract.Jobs.Write.{write-IsSound}

some-injective : {x y : Decoder} → some x ≡ some y → x ≡ y
some-injective h = cc

module _ (t : Track) where
  take_from-IsSound :
      (i : ℕ) (d : Decoder) (l : List Job) {d' : Decoder}
      → d.decode_list ≡ l
      → d.workers i ≡ none
      → IsSound t d
      → take_from i d l ≡ some d'
      → IsSound t d'
  unfolding take_from
  take_from-IsSound i d [] eq idle sound e = cc
  take_from-IsSound i d (job ∷ next) eq idle sound e =
      subst (IsSound t) (some-injective e) (take-IsSound t i job next d eq idle sound)

  write_from-IsSound :
      (d : Decoder) (l : List Job) {d' : Decoder}
      → d.write_list ≡ l
      → d.write_first ≡ pos d.next_seq
      → IsSound t d
      → write_from d l ≡ some d'
      → IsSound t d'
  unfolding write_from
  write_from-IsSound d [] eq turn sound e = cc
  write_from-IsSound d (job ∷ next) eq turn sound e =
      subst (IsSound t) (some-injective e) (write-IsSound t job next d eq turn sound)

  pub Step-IsSound : {d d' : Decoder} → Step t d d' → IsSound t d → IsSound t d'
  unfolding take_job write_job dst_decoder_decode finish_write_job
  Step-IsSound (sends {d = d} more) sound =
      add-IsSound t _ d refl (omega arith) (inl (refl, more, refl)) sound
  Step-IsSound (finishes {d = d} count) sound =
      add-IsSound t _ d refl (omega (arith, count)) (inr (refl, count)) sound
  Step-IsSound (takes {d = d} i there idle have e) sound =
      take_from-IsSound i d d.decode_list refl idle sound e
  Step-IsSound (puts {d = d} i job job' at_work result) sound =
      put-IsSound t i job job' d at_work result sound
  Step-IsSound (writes {d = d} running turn e) sound =
      write_from-IsSound d d.write_list refl turn sound e

  created-IsSound : (procs : ℕ) → 0 < procs → IsSound t (dst_decoder_create procs)
  unfolding dst_decoder_create head_seq
  created-IsSound procs h = record {
    taken = 0;
    waiting = tt;
    total = refl;
    counted = refl;
    sent = omega arith;
    some_procs = h;
    threads = λ k. absurd (omega arith);
    behind = omega arith;
    covered = λ s lo hi. absurd (omega arith);
    worker = λ i j e. cc;
    unique = λ i k j j' e. cc;
    apart = λ i j e. tt;
    results = tt;
    first = refl;
    written = tt;
    number = refl;
    at_end = λ e. cc;
  }

  pub Reachable-IsSound : (procs : ℕ) {d : Decoder} → 0 < procs → Reachable t procs d → IsSound t d
  Reachable-IsSound procs h created = created-IsSound procs h
  Reachable-IsSound procs h (stepped r s) = Step-IsSound s (Reachable-IsSound procs h r)

  -- Whatever the order in which the threads run, the callbacks get the frames of the track in the
  -- order of their numbers, from 0 on and each once: for a frame what DST_FramDSTDecode answers for
  -- the bytes that the main thread has sent under its number, and behind the frames nothing but the
  -- last job.
  pub written_in_order :
      (procs : ℕ) (d : Decoder)
      → 0 < procs
      → Reachable t procs d
      → Numbered (IsDone t) 0 d.written × (length d.written ≡ d.next_seq)
  written_in_order procs d h r =
      let sound = Reachable-IsSound procs h r in (sound.written, sound.number)
