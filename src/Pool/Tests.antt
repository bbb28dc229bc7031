-- ===== src/Pool/Tests.antt =====
-- A pool of two buffers: both are taken, and the first is given back.
use sacd_extract.Common.{ℕ, ◌≡◌, ◌⊎◌, refl, some, true, false, [], ◌∷◌, update}
use sacd_extract.Pool.{
  BufferPool, buffer_pool_create, waiting, got, no_memory, buffer_pool_get_space,
  buffer_pool_drop_space, Reachable, created, stepped, get_step, drop_step, take_space, make_space,
  must_wait, buffer_pool_free,
}
use sacd_extract.Pool.Sound.{IsSound}
use sacd_extract.Pool.Steps.{IsTaken, Reachable-IsSound, get_space_lem}

abbrev one_taken : BufferPool
one_taken = record {
  have = 0;
  head = [];
  limit = some 1;
  made = 1;
  use_count = update (λ s. 0) 0 1;
}

abbrev both_taken : BufferPool
both_taken = record {
  have = 0;
  head = [];
  limit = some 0;
  made = 2;
  use_count = update (update (λ s. 0) 0 1) 1 1;
}

abbrev one_back : BufferPool
one_back = record {
  have = 1;
  head = 0 ∷ [];
  limit = some 0;
  made = 2;
  use_count = update (update (update (λ s. 0) 0 1) 1 1) 0 0;
}

first_get : buffer_pool_get_space true (buffer_pool_create (some 2)) ≡ got 0 one_taken
unfolding buffer_pool_get_space must_wait take_space make_space buffer_pool_create
first_get = refl

second_get : buffer_pool_get_space true one_taken ≡ got 1 both_taken
unfolding buffer_pool_get_space must_wait take_space make_space
second_get = refl

third_waits : buffer_pool_get_space true both_taken ≡ waiting
unfolding buffer_pool_get_space must_wait
third_waits = refl

drop_first : buffer_pool_drop_space 0 both_taken ≡ some one_back
unfolding buffer_pool_drop_space
drop_first = refl

-- A buffer that could not be had is counted, so that the assertion of buffer_pool_free fails.
abbrev lost_one : BufferPool
lost_one = record { have = 0; head = []; limit = some 1; made = 1; use_count = λ s. 0 }

lost_get : buffer_pool_get_space false (buffer_pool_create (some 2)) ≡ no_memory lost_one
unfolding buffer_pool_get_space must_wait take_space make_space buffer_pool_create
lost_get = refl

lost_free : buffer_pool_free lost_one ≡ (0, false)
unfolding buffer_pool_free
lost_free = refl

one_back-Reachable : Reachable (some 2) one_back
one_back-Reachable =
    stepped (stepped (stepped created (get_step true 0 first_get)) (get_step true 1 second_get))
      (drop_step 0 drop_first)

Reachable-IsSound_example : IsSound one_back
Reachable-IsSound_example = Reachable-IsSound (some 2) one_back one_back-Reachable

get_space_lem_example :
    (buffer_pool_get_space false one_back ≡ waiting)
    ⊎ (((s : ℕ) × (p' : BufferPool) × (buffer_pool_get_space false one_back ≡ got s p')
          × IsTaken one_back s p')
        ⊎ ((p' : BufferPool) × (buffer_pool_get_space false one_back ≡ no_memory p')
            × (false ≡ false)))
get_space_lem_example = get_space_lem (some 2) one_back false one_back-Reachable
