-- ===== src/Dsf/Queue.antt =====
-- The samples of each channel, in the blocks of a DSF file and in the buffers.
use sacd_extract.Common.{
  ℕ, zero, suc, ◌+◌, ◌-◌, ◌*◌, ◌≤◌, ◌<◌, ◌≡◌, inl, inr, refl, sym, ap, ap₂, ◌∙◌, arith, true, false,
  ltb, leb, ◌==◌, update, min, max, get_or, Bool-cases,
}
use native.Mathlib.Decide.{dec_lt}
use mathlib.Core.Path.{subst}
use sacd_extract.Disc.Sector.{memcpy}
use sacd_extract.Dsf.Files.{File, fwrite}
use sacd_extract.Dsf.{DsfHandle, Sink, bit_reverse_table, store_byte, empty_buffer, flush_block}

-- The file has `blocks_there` blocks from `start` on, those of the channels in turn. Channel `c` has
-- got `count c` samples of its stream: `base c` blocks of them are in the file, the rest in its
-- buffer, with zeros behind.
pub record IsQueue (stream : ℕ → ℕ → ℕ) (n start blocks_there : ℕ) (base count : ℕ → ℕ) (s : Sink)
    : Type 0 where
  pub channels : s.0.channel_count ≡ n
  pub place : s.1.place ≡ start + blocks_there * 4096
  pub audio : s.0.audio_data_size ≡ blocks_there * 4096
  pub samples : s.0.sample_count ≡ blocks_there * 4096
  pub blocks :
      (r c x : ℕ)
      → c < n
      → r * n + c < blocks_there
      → x < 4096
      → s.1.contents (start + ((r * n + c) * 4096 + x)) ≡ stream c (r * 4096 + x)
  pub filled : (c : ℕ) → c < n → base c * 4096 + s.0.buffer_ptr c ≡ count c
  pub room : (c : ℕ) → c < n → s.0.buffer_ptr c ≤ 4096
  pub held :
      (c x : ℕ) → c < n → x < s.0.buffer_ptr c → s.0.buffer c x ≡ stream c (base c * 4096 + x)
  pub clear : (c x : ℕ) → c < n → s.0.buffer_ptr c ≤ x → x < 4096 → s.0.buffer c x ≡ 0

-- Two ways to write a number with a rest below `n` are one.
pub same_place : (n r q c i : ℕ) → c < n → i < n → r * n + c ≡ q * n + i → (r ≡ q) × (c ≡ i)
same_place n zero zero c i hc hi e = (refl, omega (arith, e))
same_place n zero (suc q) c i hc hi e =
    let m : suc q * n ≡ q * n + n = grind arith in absurd (omega (arith, e, m))
same_place n (suc r) zero c i hc hi e =
    let m : suc r * n ≡ r * n + n = grind arith in absurd (omega (arith, e, m))
same_place n (suc r) (suc q) c i hc hi e =
    let a : suc r * n ≡ r * n + n = grind arith in
    let b : suc q * n ≡ q * n + n = grind arith in
    let (same, rest) = same_place n r q c i hc hi (omega (arith, e, a, b)) in (ap suc same, rest)

==_eq : (a b : ℕ) → (a == b) ≡ true → a ≡ b
==_eq a b h = ground arith

pub self : (i : ℕ) → (i == i) ≡ true
self i = ground arith

-- What holds of channel `i` and of every other one holds of `c`.
pub by_channel : (P : ℕ → Type 0) (i c : ℕ) → P i → ((i == c) ≡ false → P c) → P c
by_channel P i c own other = elim (Bool-cases (i == c)) [
  | inl same ↦ subst P (ground (arith, same)) own
  | inr apart ↦ other apart
]

module _ (stream : ℕ → ℕ → ℕ) (n start : ℕ) where
  pub store-IsQueue :
      (i byte blocks_there : ℕ) (base count : ℕ → ℕ) (h : DsfHandle) (fd : File)
      → i < n
      → h.buffer_ptr i < 4096
      → stream i (count i) ≡ get_or bit_reverse_table byte 0
      → IsQueue stream n start blocks_there base count (h, fd)
      → IsQueue stream n start blocks_there base
          (update count i (count i + 1))
          (store_byte i byte h, fd)
  unfolding store_byte
  store-IsQueue i byte blocks_there base count h fd below free next q = record {
    channels = q.channels;
    place = q.place;
    audio = q.audio;
    samples = q.samples;
    blocks = q.blocks;
    filled = λ c l.
        by_channel
          (λ c. base c * 4096 + (store_byte i byte h).buffer_ptr c ≡ update count i (count i + 1) c)
          i c (rw (self i) (omega (arith, q.filled i below))) (λ other. rw other (q.filled c l));
    room = λ c l.
        by_channel (λ c. (store_byte i byte h).buffer_ptr c ≤ 4096) i c (rw (self i) (omega arith))
          (λ other. rw other (q.room c l));
    held = λ c x l.
        by_channel
          (λ c.
            x < (store_byte i byte h).buffer_ptr c
            → (store_byte i byte h).buffer c x ≡ stream c (base c * 4096 + x))
          i c
          (rw (self i) (λ k. elim (Bool-cases (h.buffer_ptr i == x)) [
            | inl last ↦
                let place : base i * 4096 + x ≡ count i =
                  omega (arith, q.filled i below, ==_eq _ _ last) in
                rw (last, place) (sym next)
            | inr before ↦ rw before (q.held i x below (ground (arith, before)))
          ]))
          (λ other. rw other (q.held c x l));
    clear = λ c x l.
        by_channel
          (λ c.
            (store_byte i byte h).buffer_ptr c ≤ x
            → x < 4096
            → (store_byte i byte h).buffer c x ≡ 0)
          i c
          (rw (self i) (λ k k'.
            let off : (h.buffer_ptr i == x) ≡ false = ground arith in
            rw off (q.clear i x below (omega arith) k')))
          (λ other. rw other (q.clear c x l));
  }

  -- what a full buffer leaves that has been written
  abbrev pub flushed : ℕ → DsfHandle → File → Sink
  flushed i h fd = (
    empty_buffer i (record h {
      sample_count = h.sample_count + 4096;
      audio_data_size = h.audio_data_size + 4096;
    }),
    record fd {
      contents = memcpy fd.contents fd.place (h.buffer i) 0 4096;
      size = max fd.size (fd.place + 4096);
      place = fd.place + 4096;
    },
  )

  pub flush_block-flushed :
      (i : ℕ) (h : DsfHandle) (fd : File)
      → fd.place + 4096 ≤ fd.limit
      → flush_block i (h, fd) ≡ (true, flushed i h fd)
  unfolding flush_block fwrite
  flush_block-flushed i h fd space =
      let all : min 4096 (fd.limit - fd.place) ≡ 4096 = omega (arith, space) in rw all refl

  pub flushed-IsQueue :
      (i blocks_there : ℕ) (base count : ℕ → ℕ) (h : DsfHandle) (fd : File)
      → i < n
      → h.buffer_ptr i ≡ 4096
      → base i * n + i ≡ blocks_there
      → IsQueue stream n start blocks_there base count (h, fd)
      → IsQueue stream n start
          (blocks_there + 1)
          (update base i (base i + 1))
          count
          (flushed i h fd)
  unfolding empty_buffer memcpy
  flushed-IsQueue i blocks_there base count h fd below full turn q = record {
    channels = q.channels;
    place = omega (arith, q.place);
    audio = omega (arith, q.audio);
    samples = omega (arith, q.samples);
    blocks = λ r c x l in_file k.
        let at : ℕ = start + ((r * n + c) * 4096 + x) in
        elim (dec_lt (r * n + c) blocks_there) [
          | yes old ↦
              let before : leb fd.place at ≡ false = ground (arith, q.place) in
              rw before (q.blocks r c x l old k)
          | no new ↦
              let (row, own) = same_place n r (base i) c i l below (omega (arith, turn)) in
              let from_place : at - fd.place ≡ x = omega (arith, q.place) in
              let behind : leb fd.place at ≡ true = ground (arith, q.place) in
              let inside : ltb at (fd.place + 4096) ≡ true = ground (arith, q.place) in
              let zero_more : 0 + x ≡ x = omega arith in
              rw (behind, inside, from_place, zero_more)
                (q.held i x below (omega (arith, full))
                  ∙ ap₂ (λ a b. stream a (b * 4096 + x)) (sym own) (sym row))
        ];
    filled = λ c l.
        by_channel
          (λ c. update base i (base i + 1) c * 4096 + (flushed i h fd).0.buffer_ptr c ≡ count c) i c
          (rw (self i) (omega (arith, q.filled i below, full))) (λ other. rw other (q.filled c l));
    room = λ c l.
        by_channel (λ c. (flushed i h fd).0.buffer_ptr c ≤ 4096) i c (rw (self i) (omega arith))
          (λ other. rw other (q.room c l));
    held = λ c x l.
        by_channel
          (λ c.
            x < (flushed i h fd).0.buffer_ptr c
            → (flushed i h fd).0.buffer c x ≡ stream c (update base i (base i + 1) c * 4096 + x))
          i c (rw (self i) (λ k. absurd (omega arith))) (λ other. rw other (q.held c x l));
    clear = λ c x l.
        by_channel
          (λ c. (flushed i h fd).0.buffer_ptr c ≤ x → x < 4096 → (flushed i h fd).0.buffer c x ≡ 0)
          i c
          (rw (self i) (λ k k'. let inside : ltb x 4096 ≡ true = ground arith in rw inside refl))
          (λ other. rw other (q.clear c x l));
  }
