-- ===== src/Pool.antt =====
-- src/libdstdec/buffer_pool.c: a pool of buffers that are counted by their users. A buffer is the
-- number it was made as; what a thread does while it holds the lock of the pool is one step.
pub mod Sound
pub mod Steps
mod Tests
use sacd_extract.Common.{
  ℕ, zero, suc, ◌+◌, ◌-◌, ◌<◌, ◌≡◌, Bool, true, false, Option, none, some, List, [], ◌∷◌, ◌==◌,
  if◌then◌else◌, update, length,
}

-- `buffer_pool_t`, with the use counts of the buffers. `limit` is `none` for -1. `have` is the value
-- of the lock of that name.
pub record BufferPool : Type 0 where
  pub have : ℕ
  pub head : List ℕ
  pub limit : Option ℕ
  pub made : ℕ
  pub use_count : ℕ → ℕ

pub buffer_pool_create : Option ℕ → BufferPool
buffer_pool_create limit = record {
  have = 0;
  head = [];
  limit = limit;
  made = 0;
  use_count = λ s. 0;
}

-- What a call of buffer_pool_get_space does: it waits, gives a buffer, returns NULL, or runs into
-- its assertion.
pub data Got : Type 0 where
  waiting : Got
  got : ℕ → BufferPool → Got
  no_memory : BufferPool → Got
  aborted : Got

-- a new buffer, where `malloc` says if the memory for it is there
pub make_space : Bool → Option ℕ → BufferPool → Got
make_space malloc limit p =
    let counted = record p { limit = limit; made = p.made + 1 } in
    if malloc
    then got p.made (record counted { use_count = update p.use_count p.made 1 })
    else no_memory counted

-- where the thread need not wait
pub take_space : Bool → BufferPool → List ℕ → Option ℕ → Got
take_space malloc p (space ∷ next) limit =
    got space (record p { head = next; have = p.have - 1; use_count = update p.use_count space 1 })
take_space malloc p [] none = make_space malloc none p
take_space malloc p [] (some zero) = aborted
take_space malloc p [] (some (suc n)) = make_space malloc (some n) p

-- if (pool->limit == 0) wait_for(pool->have, NOT_TO_BE, 0);
pub must_wait : BufferPool → Bool
must_wait p = elim p.limit [ none ↦ false | some n ↦ if n == 0 then p.have == 0 else false ]

pub buffer_pool_get_space : Bool → BufferPool → Got
buffer_pool_get_space malloc p = if must_wait p then waiting else take_space malloc p p.head p.limit

pub buffer_pool_use_space : ℕ → BufferPool → BufferPool
buffer_pool_use_space space p = record p {
  use_count = update p.use_count space (p.use_count space + 1);
}

-- `none` is the assertion that the buffer is in use.
pub buffer_pool_drop_space : ℕ → BufferPool → Option BufferPool
buffer_pool_drop_space space p =
    let users = p.use_count space in
    let dropped = record p { use_count = update p.use_count space (users - 1) } in
    if users == 0
    then none
    else some (
        if users == 1 then record dropped { head = space ∷ p.head; have = p.have + 1 } else dropped)

-- The buffers that are freed, and if the assertion at the end holds.
pub buffer_pool_free : BufferPool → ℕ × Bool
buffer_pool_free p = (length p.head, length p.head == p.made)

-- What the threads do with a pool. A thread takes a further share only in a buffer that is in use.
pub data Step : BufferPool → BufferPool → Type 0 where
  get_step :
      {p p' : BufferPool} (malloc : Bool) (s : ℕ)
      → buffer_pool_get_space malloc p ≡ got s p'
      → Step p p'
  fail_step :
      {p p' : BufferPool} (malloc : Bool)
      → buffer_pool_get_space malloc p ≡ no_memory p'
      → Step p p'
  use_step : {p : BufferPool} (s : ℕ) → 0 < p.use_count s → Step p (buffer_pool_use_space s p)
  drop_step : {p p' : BufferPool} (s : ℕ) → buffer_pool_drop_space s p ≡ some p' → Step p p'

pub data Reachable (limit : Option ℕ) : BufferPool → Type 0 where
  created : Reachable limit (buffer_pool_create limit)
  stepped : {p p' : BufferPool} → Reachable limit p → Step p p' → Reachable limit p'
