-- ===== src/Jobs.antt =====
-- src/libdstdec/dst_decoder.c: the threads that decode the frames of a track, and the thread that
-- hands them on. What a thread does while it holds a lock is one step; the buffer pools are in
-- Pool.antt.
pub mod Sound
pub mod Insert
pub mod Add
pub mod Take
pub mod Put
pub mod Write
pub mod Steps
pub mod Progress
mod Tests
use sacd_extract.Common.{
  ℕ, zero, suc, ◌+◌, ◌-◌, ◌<◌, ◌≡◌, Bool, true, false, not, Option, none, some, List, [], ◌∷◌, ◌++◌,
  ltb, if◌then◌else◌, update,
}
use sacd_extract.Common.Int.{ℤ, pos, negsuc}

-- `job_t`; `input` and `output` are the bytes of its buffers.
pub record Job : Type 0 where
  pub seq : ℕ
  pub error : ℕ
  pub more : Bool
  pub input : List ℕ
  pub output : List ℕ

-- `dst_decoder_t`. `decode_have` and `write_first` are the values of the locks of these names;
-- `workers` has the job of each decoding thread that is at work; `next_seq` is the variable `seq` of
-- the write thread, `ended` that its loop has ended, and `written` the jobs whose results the
-- callbacks have got.
pub record Decoder : Type 0 where
  pub procs : ℕ
  pub sequence : ℕ
  pub decode_have : ℕ
  pub decode_list : List Job
  pub write_first : ℤ
  pub write_list : List Job
  pub cthreads : ℕ
  pub workers : ℕ → Option Job
  pub next_seq : ℕ
  pub ended : Bool
  pub written : List Job

-- `procs` is what the system answers.
pub dst_decoder_create : ℕ → Decoder
dst_decoder_create procs = record {
  procs = procs;
  sequence = 0;
  decode_have = 0;
  decode_list = [];
  write_first = negsuc 0;
  write_list = [];
  cthreads = 0;
  workers = λ i. none;
  next_seq = 0;
  ended = false;
  written = [];
}

-- a further decoding thread, where there may be one, and the job at the end of the list
pub add_job : Job → Decoder → Decoder
add_job job d = record d {
  sequence = d.sequence + 1;
  cthreads = if ltb d.cthreads d.procs then d.cthreads + 1 else d.cthreads;
  decode_list = d.decode_list ++ job ∷ [];
  decode_have = d.decode_have + 1;
}

pub dst_decoder_decode : List ℕ → Decoder → Decoder
dst_decoder_decode frame_data d =
    add_job (record { seq = d.sequence; error = 0; more = true; input = frame_data; output = [] }) d

-- up to the wait for the write thread
pub finish_write_job : Decoder → Decoder
finish_write_job d =
    add_job (record { seq = d.sequence; error = 0; more = false; input = []; output = [] }) d

-- Thread `i` takes the head of the list. `none` is the assertion that there is one.
pub take_from : ℕ → Decoder → List Job → Option Decoder
take_from i d [] = none
take_from i d (job ∷ next) = some (record d {
  decode_list = next;
  decode_have = d.decode_have - 1;
  workers = update d.workers i (some job);
})

pub take_job : ℕ → Decoder → Option Decoder
take_job i d = take_from i d d.decode_list

-- The job stands in front of the first one that has a larger number.
pub insert_job : Job → List Job → List Job
insert_job job [] = job ∷ []
insert_job job (here ∷ next) =
    let behind = here ∷ insert_job job next in
    if ltb job.seq here.seq then job ∷ here ∷ next else behind

-- the value of `write_first` for a list
pub head_seq : List Job → ℤ
head_seq [] = negsuc 0
head_seq (job ∷ next) = pos job.seq

-- Thread `i` has finished its job.
pub put_job : ℕ → Job → Decoder → Decoder
put_job i job d =
    let jobs = insert_job job d.write_list in
    record d { workers = update d.workers i none; write_list = jobs; write_first = head_seq jobs }

-- One round of the write thread. `none` is a read through NULL.
pub write_from : Decoder → List Job → Option Decoder
write_from d [] = none
write_from d (job ∷ next) = some (record d {
  write_list = next;
  write_first = head_seq next;
  written = d.written ++ job ∷ [];
  next_seq = d.next_seq + 1;
  ended = not job.more;
})

pub write_job : Decoder → Option Decoder
write_job d = write_from d d.write_list

-- A track: its `count` frames, and what DST_FramDSTDecode may answer for the frame of a number, an
-- error code and the decoded bytes.
pub record Track : Type 1 where
  pub frames : ℕ → List ℕ
  pub count : ℕ
  pub Decodes : ℕ → List ℕ → ℕ → List ℕ → Type 0

-- The job is the one of its number with what the decoding thread has put into it.
pub data Decoded (t : Track) : Job → Job → Type 0 where
  decoded :
      {job : Job} (error : ℕ) (output : List ℕ)
      → job.more ≡ true
      → t.Decodes job.seq job.input error output
      → Decoded t job (record job { error = error; output = output })
  nothing : {job : Job} → job.more ≡ false → Decoded t job job

-- What the threads do: the main thread sends the frames one after the other, and then the last job.
pub data Step (t : Track) : Decoder → Decoder → Type 0 where
  sends :
      {d : Decoder} → d.sequence < t.count → Step t d (dst_decoder_decode (t.frames d.sequence) d)
  finishes : {d : Decoder} → d.sequence ≡ t.count → Step t d (finish_write_job d)
  takes :
      {d d' : Decoder} (i : ℕ)
      → i < d.cthreads
      → d.workers i ≡ none
      → 0 < d.decode_have
      → take_job i d ≡ some d'
      → Step t d d'
  puts :
      {d : Decoder} (i : ℕ) (job job' : Job)
      → d.workers i ≡ some job
      → Decoded t job job'
      → Step t d (put_job i job' d)
  writes :
      {d d' : Decoder}
      → d.ended ≡ false
      → d.write_first ≡ pos d.next_seq
      → write_job d ≡ some d'
      → Step t d d'

pub data Reachable (t : Track) (procs : ℕ) : Decoder → Type 0 where
  created : Reachable t procs (dst_decoder_create procs)
  stepped : {d d' : Decoder} → Reachable t procs d → Step t d d' → Reachable t procs d'
