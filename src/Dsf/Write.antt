-- ===== src/Dsf/Write.antt =====
-- dsf_write_frame takes the samples of a frame apart, channel by channel.
use sacd_extract.Common.{
  ℕ, zero, suc, ◌+◌, ◌-◌, ◌*◌, ◌/◌, ◌%◌, ◌≤◌, ◌<◌, ◌≡◌, refl, sym, ap, ap₂, ◌∙◌, arith, Bool, true,
  Option, some, get_or, lt→ltb, le→ltb, same_below_lem,
}
use native.Mathlib.Decide.{dec_lt}
use mathlib.Core.Path.{subst}
use sacd_extract.Dst.Stream.{Memory}
use sacd_extract.Dsf.{
  Sink, going, bit_reverse_table, row_loop, write_loop, write_answer, dsf_write_frame,
}
use sacd_extract.Dsf.Rows.{IsEven, store_row, flush_row}

-- A byte with its bits in the other order.
unfoldable pub reverse8 : ℕ → ℕ
reverse8 b =
    b % 2 * 128
    + b / 2 % 2 * 64
    + b / 4 % 2 * 32
    + b / 8 % 2 * 16
    + b / 16 % 2 * 8
    + b / 32 % 2 * 4
    + b / 64 % 2 * 2
    + b / 128 % 2

reverse_lem : (b : ℕ) → b < 256 → get_or bit_reverse_table b 0 ≡ reverse8 b
unfolding reverse8
reverse_lem b h = same_below_lem 256 (λ b. get_or bit_reverse_table b 0) reverse8 refl b h

pub full_rows : (r n : ℕ) → (r * n + n) * 4096 ≡ (r * 4096 + 4096) * n
full_rows r n = grind arith

pub rows-le : (k n : ℕ) → 1 ≤ n → k ≤ k * n
rows-le zero n h = omega arith
rows-le (suc k) n h =
    let width : suc k * n ≡ k * n + n = grind arith in omega (arith, width, rows-le k n h)

module _ (stream : ℕ → ℕ → ℕ) (n start : ℕ) (buf : Memory) (len : ℕ) where
  write_on :
      (fuel at at' : ℕ) (s s' : Sink)
      → at < len
      → s.0.channel_count ≡ n
      → row_loop buf len n 0 at s ≡ going at' s'
      → write_loop (suc fuel) buf len at s ≡ write_loop fuel buf len at' s'
  unfolding write_loop
  write_on fuel at at' s s' inside channels e =
      let some_left = lt→ltb at len inside in
      let round : row_loop buf len s.0.channel_count 0 at s ≡ going at' s' =
        subst (λ (k : ℕ). row_loop buf len k 0 at s ≡ going at' s') (sym channels) e in
      rw (some_left, round) refl

  -- What the loop has come to: the queues are alike again, each with `t` samples.
  record Ended (outcome : Option (Bool × Sink)) (t : ℕ) (s : Sink) : Type 0 where
    to : Sink
    rows : ℕ
    eq : outcome ≡ some (true, to)
    even : IsEven stream n start rows t to
    same : to.1.limit ≡ s.1.limit

  write_end : (fuel at : ℕ) (s : Sink) → len ≤ at → write_loop fuel buf len at s ≡ some (true, s)
  unfolding write_loop
  write_end zero at s h = let done = le→ltb at len h in rw done refl
  write_end (suc fuel) at s h = let done = le→ltb at len h in rw done refl

  -- the samples of the rows that are left
  abbrev HasRows : ℕ → ℕ → ℕ → Type 0
  HasRows k a t =
      (j c : ℕ)
      → j < k
      → c < n
      → stream c (t + j) ≡ get_or bit_reverse_table (buf (a + j * n + c)) 0

  later_rows : (k a t : ℕ) → HasRows (suc k) a t → HasRows k (a + n) (t + 1)
  later_rows k a t rows j c l l' =
      let time : t + 1 + j ≡ t + suc j = omega arith in
      let place : a + n + j * n + c ≡ a + suc j * n + c = grind arith in
      rw (time, place) (rows (suc j) c (omega arith) l')

  first_row :
      (k a t : ℕ)
      → HasRows (suc k) a t
      → (c : ℕ) → c < n
      → stream c t ≡ get_or bit_reverse_table (buf (a + c)) 0
  first_row k a t rows c l =
      let time : t + 0 ≡ t = omega arith in
      let place : a + 0 * n + c ≡ a + c = omega arith in
      subst (λ (z : ℕ). stream c z ≡ get_or bit_reverse_table (buf (a + c)) 0) time
        (subst (λ (z : ℕ). stream c (t + 0) ≡ get_or bit_reverse_table (buf z) 0) place
          (rows 0 c (omega arith) l))

  -- no queue has more samples than its blocks and its buffer hold
  ended_lem :
      (r t : ℕ) (s : Sink)
      → 1 ≤ n
      → ¬ (t < r * 4096 + 4096)
      → IsEven stream n start r t s
      → t ≡ r * 4096 + 4096
  ended_lem r t s some_channel held even =
      omega (arith, held, even.filled 0 some_channel, even.room 0 some_channel)

  -- one round of the loop
  record Moved (fuel a a' r t : ℕ) (s : Sink) : Type 0 where
    to : Sink
    eq : write_loop (suc fuel) buf len a s ≡ write_loop fuel buf len a' to
    even : IsEven stream n start r t to
    same : to.1.limit ≡ s.1.limit

  stored :
      (fuel a r t : ℕ) (s : Sink)
      → 1 ≤ n
      → a + n ≤ len
      → t < r * 4096 + 4096
      → ((c : ℕ) → c < n → stream c t ≡ get_or bit_reverse_table (buf (a + c)) 0)
      → IsEven stream n start r t s
      → Moved fuel a (a + n) r (t + 1) s
  stored fuel a r t s some_channel inside free next even =
      let row =
        store_row stream n start buf len n 0 a r t (λ c. t) s (omega arith) inside free next
          (λ c l. absurd (omega arith)) (λ c l l'. refl) even in
      let place : a + 0 ≡ a = omega arith in
      let round : row_loop buf len n 0 a s ≡ going (a + n) row.to =
        subst (λ (z : ℕ). row_loop buf len n 0 z s ≡ going (a + n) row.to) place row.eq in
      record {
        to = row.to;
        eq = write_on fuel a (a + n) s row.to (omega arith) even.channels round;
        even = row.even;
        same = row.same;
      }

  emptied :
      (fuel a r t : ℕ) (s : Sink)
      → a < len
      → t ≡ r * 4096 + 4096
      → start + (r * n + n) * 4096 ≤ s.1.limit
      → IsEven stream n start r t s
      → Moved fuel a a (r + 1) t s
  emptied fuel a r t s inside full space even =
      let none_done : r * n + 0 ≡ r * n = omega arith in
      let row =
        flush_row stream n start buf len n 0 a r t (λ c. r) s (omega arith) inside full space
          (λ c l. absurd (omega arith)) (λ c l l'. refl) (rw none_done even) in
      record {
        to = row.to;
        eq = write_on fuel a a s row.to inside even.channels row.eq;
        even = row.even;
        same = row.same;
      }

  write_rows :
      (k fuel a r t : ℕ) (s : Sink)
      → 1 ≤ n
      → 2 * k ≤ fuel
      → a + k * n ≡ len
      → start + (t + k) * n ≤ s.1.limit
      → HasRows k a t
      → IsEven stream n start r t s
      → Ended (write_loop fuel buf len a s) (t + k) s
  write_rows zero fuel a r t s some_channel enough all space rows even = record {
    to = s;
    rows = r;
    eq = write_end fuel a s (omega (arith, all));
    even = let e : t + 0 ≡ t = omega arith in rw e even;
    same = refl;
  }
  write_rows (suc k) (suc (suc fuel)) a r t s some_channel enough all space rows even =
      let width : suc k * n ≡ n + k * n = grind arith in
      let inside : a < len = omega (arith, all, width) in
      let time : t + 1 + k ≡ t + suc k = omega arith in
      let later = later_rows k a t rows in
      elim (dec_lt t (r * 4096 + 4096)) [
        | yes free ↦
            let one =
              stored (suc fuel) a r t s some_channel (omega (arith, all, width)) free
                (first_row k a t rows) even in
            let rest =
              write_rows k (suc fuel) (a + n) r (t + 1) one.to some_channel (omega arith)
                (omega (arith, all, width)) (rw (one.same, time) space) later one.even in
            record {
              to = rest.to;
              rows = rest.rows;
              eq = one.eq ∙ rest.eq;
              even = subst (λ (z : ℕ). IsEven stream n start rest.rows z rest.to) time rest.even;
              same = rest.same ∙ one.same;
            }
        | no held ↦
            let full : t ≡ r * 4096 + 4096 = ended_lem r t s some_channel held even in
            let blocks : (r * n + n) * 4096 ≡ t * n =
              full_rows r n ∙ ap (λ (z : ℕ). z * n) (sym full) in
            let more : (t + suc k) * n ≡ t * n + suc k * n = grind arith in
            let one =
              emptied (suc fuel) a r t s inside full (omega (arith, space, blocks, more)) even in
            let two =
              stored fuel a (r + 1) t one.to some_channel (omega (arith, all, width))
                (omega (arith, full)) (first_row k a t rows) one.even in
            let rest =
              write_rows k fuel (a + n) (r + 1) (t + 1) two.to some_channel (omega arith)
                (omega (arith, all, width)) (rw (two.same, one.same, time) space) later two.even in
            record {
              to = rest.to;
              rows = rest.rows;
              eq = one.eq ∙ two.eq ∙ rest.eq;
              even = subst (λ (z : ℕ). IsEven stream n start rest.rows z rest.to) time rest.even;
              same = rest.same ∙ two.same ∙ one.same;
            }
      ]
  write_rows (suc k) zero a r t s some_channel enough all space rows even = absurd (omega arith)
  write_rows (suc k) (suc zero) a r t s some_channel enough all space rows even =
      absurd (omega arith)

  -- dsf_write_frame takes a frame whose bytes are those of the `n` channels in turn, where each
  -- channel has got `t` samples before: it ends, does not fail where the disk has room, and then each
  -- channel has got its bytes of the frame too, with their bits in the other order, in whole blocks of
  -- the file and in its buffer. It returns how many bytes have gone to the file.
  pub dsf_write_frame_lem :
      (k r t : ℕ) (s : Sink)
      → 1 ≤ n
      → k * n ≡ len
      → start + (t + k) * n ≤ s.1.limit
      → ((i : ℕ) → buf i < 256)
      → ((j c : ℕ) → j < k → c < n → stream c (t + j) ≡ reverse8 (buf (j * n + c)))
      → IsEven stream n start r t s
      → (r' : ℕ) × (s' : Sink) × (dsf_write_frame buf len s
          ≡ some (some (r' * n * 4096 - r * n * 4096), s'))
        × IsEven stream n start r' (t + k) s'
  unfolding dsf_write_frame write_answer
  dsf_write_frame_lem k r t s some_channel all space bytes rows even =
      let end =
        write_rows k (2 * len) 0 r t s some_channel (omega (arith, all, rows-le k n some_channel))
          (omega (arith, all)) space
          (λ j c l l'.
            let place : 0 + j * n + c ≡ j * n + c = omega arith in
            rw place (rows j c l l' ∙ sym (reverse_lem _ (bytes _))))
          even in
      let answer = λ (a b : ℕ). some (some (a - b), end.to) in
      (
        end.rows,
        end.to,
        ap (write_answer s.0.audio_data_size) end.eq ∙ ap₂ answer end.even.audio even.audio,
        end.even,
      )
