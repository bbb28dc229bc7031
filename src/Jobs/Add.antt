-- ===== src/Jobs/Add.antt =====
-- A job is added to the list for the decoding threads.
use sacd_extract.Common.{◌≤◌, ◌≡◌, inl, inr, arith, [], ◌∷◌, length-append, ltb, Bool-cases, ltb→le}
use sacd_extract.Jobs.{Job, Decoder, Track, add_job}
use sacd_extract.Jobs.Sound.{IsInput, IsSound}
use sacd_extract.Jobs.Insert.{Numbered-append}

module _ (t : Track) where
  pub add-IsSound :
      (job : Job) (d : Decoder)
      → job.seq ≡ d.sequence
      → d.sequence ≤ t.count
      → IsInput t job
      → IsSound t d
      → IsSound t (add_job job d)
  unfolding add_job
  add-IsSound job d number room input sound = record {
    taken = sound.taken;
    waiting =
        Numbered-append (IsInput t) sound.taken d.decode_list job sound.waiting
          (omega (arith, number, sound.total)) input;
    total = omega (arith, sound.total, length-append d.decode_list (job ∷ []));
    counted = omega (arith, sound.counted, length-append d.decode_list (job ∷ []));
    sent = omega (arith, room);
    some_procs = sound.some_procs;
    threads = λ h. elim (Bool-cases (ltb d.cthreads d.procs)) [
      | inl fewer ↦ rw fewer (omega arith)
      | inr all ↦ rw all (omega (arith, ltb→le d.cthreads d.procs all, sound.some_procs))
    ];
    behind = sound.behind;
    covered = sound.covered;
    worker = sound.worker;
    unique = sound.unique;
    apart = sound.apart;
    results = sound.results;
    first = sound.first;
    written = sound.written;
    number = sound.number;
    at_end = sound.at_end;
  }
