-- ===== src/Dsf/Rows.antt =====
-- One round of dsf_write_frame over the channels.
use sacd_extract.Common.{
  ℕ, zero, suc, ◌+◌, ◌*◌, ◌≤◌, ◌<◌, ◌≡◌, refl, ap, ◌∙◌, arith, false, ltb, update, get_or, lt→leb,
  lt→ltb, le→ltb,
}
use mathlib.Core.Path.{subst}
use sacd_extract.Dst.Stream.{Memory}
use sacd_extract.Dsf.{Sink, Going, going, bit_reverse_table, store_byte, row_loop}
use sacd_extract.Dsf.Queue.{
  IsQueue, by_channel, self, store-IsQueue, flushed, flush_block-flushed, flushed-IsQueue,
}

module _ (stream : ℕ → ℕ → ℕ) (n start : ℕ) where
  -- Only the channels that there are matter.
  same-IsQueue :
      (b : ℕ) (base base' count count' : ℕ → ℕ) (s : Sink)
      → ((c : ℕ) → c < n → base c ≡ base' c)
      → ((c : ℕ) → c < n → count c ≡ count' c)
      → IsQueue stream n start b base count s
      → IsQueue stream n start b base' count' s
  same-IsQueue b base base' count count' s f g q = record {
    channels = q.channels;
    place = q.place;
    audio = q.audio;
    samples = q.samples;
    blocks = q.blocks;
    filled = λ c l. omega (arith, q.filled c l, f c l, g c l);
    room = q.room;
    held = λ c x l k. q.held c x l k ∙ ap (λ (z : ℕ). stream c (z * 4096 + x)) (f c l);
    clear = q.clear;
  }

  -- The queues are alike: the file has `r` blocks of each channel, and each has got `t` samples.
  abbrev pub IsEven : ℕ → ℕ → Sink → Type 0
  IsEven r t s = IsQueue stream n start (r * n) (λ c. r) (λ c. t) s

  pub record Reached (outcome : Going) (at r t : ℕ) (s : Sink) : Type 0 where
    pub to : Sink
    pub eq : outcome ≡ going at to
    pub even : IsEven r t to
    pub same : to.1.limit ≡ s.1.limit

  module _ (buf : Memory) (len : ℕ) where
    -- where each channel takes a byte of the row at `a`
    pub store_row :
        (left i a r t : ℕ) (count : ℕ → ℕ) (s : Sink)
        → i + left ≡ n
        → a + n ≤ len
        → t < r * 4096 + 4096
        → ((c : ℕ) → c < n → stream c t ≡ get_or bit_reverse_table (buf (a + c)) 0)
        → ((c : ℕ) → c < i → count c ≡ t + 1)
        → ((c : ℕ) → i ≤ c → c < n → count c ≡ t)
        → IsQueue stream n start (r * n) (λ c. r) count s
        → Reached (row_loop buf len left i (a + i) s) (a + n) r (t + 1) s
    unfolding row_loop
    store_row zero i a r t count s all inside free next done todo q = record {
      to = s;
      eq = let e : i ≡ n = omega (arith, all) in rw e refl;
      even =
          same-IsQueue (r * n) (λ c. r) (λ c. r) count (λ c. t + 1) s (λ c l. refl)
            (λ c l. done c (omega (arith, all))) q;
      same = refl;
    }
    store_row (suc left) i a r t count s all inside free next done todo q =
        let below : i < n = omega (arith, all) in
        let own : count i ≡ t = todo i (omega arith) below in
        let small : s.0.buffer_ptr i < 4096 = omega (arith, q.filled i below, own) in
        let some_left = lt→leb (a + i) len (omega arith) in
        let fits = lt→ltb (s.0.buffer_ptr i) 4096 small in
        let step : a + i + 1 ≡ a + (i + 1) = omega arith in
        let s' : Sink = (store_byte i (buf (a + i)) s.0, s.1) in
        let q' =
          store-IsQueue stream n start i (buf (a + i)) (r * n) (λ c. r) count s.0 s.1 below small
            (ap (stream i) own ∙ next i below) q in
        let rest =
          store_row left (i + 1) a r t (update count i (count i + 1)) s' (omega (arith, all)) inside
            free next
            (λ c l.
              by_channel (λ c. c < i + 1 → update count i (count i + 1) c ≡ t + 1) i c
                (rw (self i) (λ k. omega (arith, own)))
                (λ other. rw other (λ k. done c (ground (arith, other)))) l)
            (λ c l k.
              by_channel (λ c. i + 1 ≤ c → update count i (count i + 1) c ≡ t) i c
                (λ k'. absurd (omega arith)) (λ other. rw other (λ k'. todo c (omega arith) k)) l)
            q' in
        record {
          to = rest.to;
          eq = rw (some_left, fits, step) rest.eq;
          even = rest.even;
          same = rest.same;
        }

    -- where the buffers of all channels are full, and go to the file
    pub flush_row :
        (left i at r t : ℕ) (base : ℕ → ℕ) (s : Sink)
        → i + left ≡ n
        → at < len
        → t ≡ r * 4096 + 4096
        → start + (r * n + n) * 4096 ≤ s.1.limit
        → ((c : ℕ) → c < i → base c ≡ r + 1)
        → ((c : ℕ) → i ≤ c → c < n → base c ≡ r)
        → IsQueue stream n start (r * n + i) base (λ c. t) s
        → Reached (row_loop buf len left i at s) at (r + 1) t s
    unfolding row_loop
    flush_row zero i at r t base s all inside full space done todo q = record {
      to = s;
      eq = refl;
      even =
          let end : i ≡ n = omega (arith, all) in
          let rows : (r + 1) * n ≡ r * n + n = grind arith in
          let q' =
            same-IsQueue (r * n + i) base (λ c. r + 1) (λ c. t) (λ c. t) s
              (λ c l. done c (omega (arith, all))) (λ c l. refl) q in
          rw rows
            (subst (λ (k : ℕ). IsQueue stream n start (r * n + k) (λ c. r + 1) (λ c. t) s) end q');
      same = refl;
    }
    flush_row (suc left) i at r t base s all inside full space done todo q =
        let below : i < n = omega (arith, all) in
        let own : base i ≡ r = todo i (omega arith) below in
        let ended : s.0.buffer_ptr i ≡ 4096 = omega (arith, q.filled i below, own, full) in
        let some_left = lt→leb at len inside in
        let no_room : ltb (s.0.buffer_ptr i) 4096 ≡ false = le→ltb _ _ (omega (arith, ended)) in
        let written =
          flush_block-flushed stream n start i s.0 s.1 (omega (arith, q.place, space, below)) in
        let s' = flushed stream n start i s.0 s.1 in
        let turn : base i * n + i ≡ r * n + i = ap (λ (z : ℕ). z * n + i) own in
        let q' : IsQueue stream n start (r * n + i + 1) (update base i (base i + 1)) (λ c. t) s' =
          flushed-IsQueue stream n start i (r * n + i) base (λ c. t) s.0 s.1 below ended turn q in
        let step : r * n + i + 1 ≡ r * n + (i + 1) = omega arith in
        let rest =
          flush_row left (i + 1) at r t (update base i (base i + 1)) s' (omega (arith, all)) inside
            full space
            (λ c l.
              by_channel (λ c. c < i + 1 → update base i (base i + 1) c ≡ r + 1) i c
                (rw (self i) (λ k. omega (arith, own)))
                (λ other. rw other (λ k. done c (ground (arith, other)))) l)
            (λ c l k.
              by_channel (λ c. i + 1 ≤ c → update base i (base i + 1) c ≡ r) i c
                (λ k'. absurd (omega arith)) (λ other. rw other (λ k'. todo c (omega arith) k)) l)
            (rw (← step) q') in
        record {
          to = rest.to;
          eq = rw (some_left, no_room, written) rest.eq;
          even = rest.even;
          same = rest.same;
        }
