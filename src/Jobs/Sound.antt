-- ===== src/Jobs/Sound.antt =====
-- Where the jobs of a decoder are.
use sacd_extract.Common.{
  ℕ, ◌+◌, ◌≤◌, ◌<◌, ◌≡◌, ◌≢◌, ◌⊎◌, true, false, some, List, [], ◌∷◌, length, All,
}
use sacd_extract.Jobs.{Job, Decoder, Track, head_seq}

-- The job has the frame of its number, or it is the last one.
abbrev pub IsInput : Track → Job → Type 0
IsInput t j =
    ((j.more ≡ true) × (j.seq < t.count) × (j.input ≡ t.frames j.seq))
    ⊎ ((j.more ≡ false) × (j.seq ≡ t.count))

-- It has been decoded.
abbrev pub IsDone : Track → Job → Type 0
IsDone t j =
    ((j.more ≡ true)
      × (j.seq < t.count)
      × (j.input ≡ t.frames j.seq)
      × t.Decodes j.seq j.input j.error j.output)
    ⊎ ((j.more ≡ false) × (j.seq ≡ t.count))

-- The jobs have the numbers from `k` on, one after the other.
abbrev pub Numbered : (Job → Type 0) → ℕ → List Job → Type 0
Numbered P k [] = Unit {0}
Numbered P k (j ∷ js) = (j.seq ≡ k) × P j × Numbered P (k + 1) js

-- The numbers ascend, from `lo` on and below `hi`.
abbrev pub Ascending : (Job → Type 0) → ℕ → ℕ → List Job → Type 0
Ascending P lo hi [] = Unit {0}
Ascending P lo hi (j ∷ js) = (lo ≤ j.seq) × (j.seq < hi) × P j × Ascending P (j.seq + 1) hi js

abbrev pub Has : ℕ → List Job → Type 0
Has s [] = ⊥
Has s (j ∷ js) = (j.seq ≡ s) ⊎ Has s js

-- The jobs up to `taken` have been taken by a thread; those from `next_seq` up to it are with a
-- thread or in the list for the write thread, each in one place, and those below have been written.
pub record IsSound (t : Track) (d : Decoder) : Type 0 where
  pub taken : ℕ
  pub waiting : Numbered (IsInput t) taken d.decode_list
  pub total : taken + length d.decode_list ≡ d.sequence
  pub counted : d.decode_have ≡ length d.decode_list
  pub sent : d.sequence ≤ t.count + 1
  pub some_procs : 0 < d.procs
  pub threads : 0 < d.sequence → 0 < d.cthreads
  pub behind : d.next_seq ≤ taken
  pub covered :
      (s : ℕ)
      → d.next_seq ≤ s
      → s < taken
      → ((i : ℕ) × (j : Job) × (d.workers i ≡ some j) × (j.seq ≡ s)) ⊎ Has s d.write_list
  pub worker :
      (i : ℕ) (j : Job)
      → d.workers i ≡ some j
      → (d.next_seq ≤ j.seq) × (j.seq < taken) × IsInput t j
  pub unique :
      (i k : ℕ) (j j' : Job) → d.workers i ≡ some j → d.workers k ≡ some j' → j.seq ≡ j'.seq → i ≡ k
  pub apart : (i : ℕ) (j : Job) → d.workers i ≡ some j → All (λ w. w.seq ≢ j.seq) d.write_list
  pub results : Ascending (IsDone t) d.next_seq taken d.write_list
  pub first : d.write_first ≡ head_seq d.write_list
  pub written : Numbered (IsDone t) 0 d.written
  pub number : length d.written ≡ d.next_seq
  pub at_end : d.ended ≡ true → d.next_seq ≡ t.count + 1
