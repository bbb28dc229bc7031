-- ===== src/Dsf/Pad.antt =====
-- dsf_close writes the buffers that are left, with zeros behind the samples.
use sacd_extract.Common.{
  ℕ, zero, suc, ◌+◌, ◌-◌, ◌*◌, ◌≤◌, ◌<◌, ◌≡◌, refl, sym, ap₂, ◌∙◌, arith, true, false, ltb, leb,
  ◌==◌, if◌then◌else◌, min, max, lt→ltb, le→ltb,
}
use native.Mathlib.Decide.{dec_lt}
use mathlib.Core.Path.{subst}
use sacd_extract.Disc.Sector.{memcpy}
use sacd_extract.Dsf.Files.{File, fwrite}
use sacd_extract.Dsf.{DsfHandle, Sink, empty_buffer, pad_loop}
use sacd_extract.Dsf.Queue.{same_place}
use sacd_extract.Dsf.Rows.{IsEven}

-- the samples of a stream, and zeros behind the first `t`
abbrev pub padded : (ℕ → ℕ → ℕ) → ℕ → ℕ → ℕ → ℕ
padded stream t c y = if ltb y t then stream c y else 0

-- The file has `r` blocks of each channel and one more of the channels below `i`; the buffers of the
-- others have `p` samples.
pub record IsPadding (stream : ℕ → ℕ → ℕ) (n start r t p i : ℕ) (s : Sink) : Type 0 where
  pub channels : s.0.channel_count ≡ n
  pub place : s.1.place ≡ start + (r * n + i) * 4096
  pub audio : s.0.audio_data_size ≡ (r * n + i) * 4096
  pub samples : s.0.sample_count ≡ r * n * 4096 + i * p
  pub blocks :
      (q c x : ℕ)
      → c < n
      → q * n + c < r * n + i
      → x < 4096
      → s.1.contents (start + ((q * n + c) * 4096 + x)) ≡ padded stream t c (q * 4096 + x)
  pub pointer : (c : ℕ) → i ≤ c → c < n → s.0.buffer_ptr c ≡ p
  pub rest :
      (c x : ℕ) → i ≤ c → c < n → x < 4096 → s.0.buffer c x ≡ padded stream t c (r * 4096 + x)

row-lt : (n q r c : ℕ) → c < n → q * n + c < r * n → q < r
row-lt n q r c h k = elim (dec_lt q r) [
  | yes less ↦ less
  | no more ↦ let rows : r * n ≤ q * n = grind arith in absurd (omega (arith, k))
]

module _ (stream : ℕ → ℕ → ℕ) (n start r t p : ℕ) (held : r * 4096 + p ≡ t) where
  pub even-IsPadding :
      (s : Sink) → 1 ≤ n → IsEven stream n start r t s → IsPadding stream n start r t p 0 s
  even-IsPadding s some_channel even =
      let zero_more : r * n + 0 ≡ r * n = omega arith in
      record {
        channels = even.channels;
        place = omega (arith, even.place);
        audio = omega (arith, even.audio);
        samples = omega (arith, even.samples);
        blocks = λ q c x l k k'.
            let less : q < r = row-lt n q r c l (omega arith) in
            let inside : ltb (q * 4096 + x) t ≡ true = lt→ltb _ _ (omega (arith, held)) in
            rw inside (even.blocks q c x l (omega arith) k');
        pointer = λ c l k. omega (arith, even.filled c k, held);
        rest = λ c x l k k'. elim (dec_lt x p) [
          | yes sample ↦
              let inside : ltb (r * 4096 + x) t ≡ true = lt→ltb _ _ (omega (arith, held)) in
              rw inside (even.held c x k (omega (arith, even.filled c k, held)))
          | no behind ↦
              let outside : ltb (r * 4096 + x) t ≡ false = le→ltb _ _ (omega (arith, held)) in
              rw outside (even.clear c x k (omega (arith, even.filled c k, held)) k')
        ];
      }

  -- what a buffer leaves that has been written with zeros behind its samples
  abbrev block_padded : ℕ → DsfHandle → File → Sink
  block_padded i h fd = (
    empty_buffer i (record h {
      sample_count = h.sample_count + h.buffer_ptr i;
      audio_data_size = h.audio_data_size + 4096;
    }),
    record fd {
      contents = memcpy fd.contents fd.place (h.buffer i) 0 4096;
      size = max fd.size (fd.place + 4096);
      place = fd.place + 4096;
    },
  )

  pad_step :
      (left i : ℕ) (h : DsfHandle) (fd : File)
      → 0 < h.buffer_ptr i
      → fd.place + 4096 ≤ fd.limit
      → pad_loop (suc left) i (h, fd) ≡ pad_loop left (i + 1) (block_padded i h fd)
  unfolding pad_loop fwrite
  pad_step left i h fd some_there space =
      let all : min 4096 (fd.limit - fd.place) ≡ 4096 = omega (arith, space) in
      let there : ltb 0 (h.buffer_ptr i) ≡ true = lt→ltb _ _ some_there in rw (there, all) refl

  padded-IsPadding :
      (i : ℕ) (h : DsfHandle) (fd : File)
      → i < n
      → IsPadding stream n start r t p i (h, fd)
      → IsPadding stream n start r t p (i + 1) (block_padded i h fd)
  unfolding empty_buffer memcpy
  padded-IsPadding i h fd below q = record {
    channels = q.channels;
    place = omega (arith, q.place);
    audio = omega (arith, q.audio);
    samples =
        let more : (i + 1) * p ≡ i * p + p = grind arith in
        omega (arith, q.samples, q.pointer i (omega arith) below, more);
    blocks = λ row c x l in_file k.
        let at : ℕ = start + ((row * n + c) * 4096 + x) in
        elim (dec_lt (row * n + c) (r * n + i)) [
          | yes old ↦
              let before : leb fd.place at ≡ false = ground (arith, q.place) in
              rw before (q.blocks row c x l old k)
          | no new ↦
              let (same_row, own) = same_place n row r c i l below (omega arith) in
              let from_place : at - fd.place ≡ x = omega (arith, q.place) in
              let behind : leb fd.place at ≡ true = ground (arith, q.place) in
              let inside : ltb at (fd.place + 4096) ≡ true = ground (arith, q.place) in
              let zero_more : 0 + x ≡ x = omega arith in
              rw (behind, inside, from_place, zero_more)
                (q.rest i x (omega arith) below k
                  ∙ ap₂ (λ a b. padded stream t a (b * 4096 + x)) (sym own) (sym same_row))
        ];
    pointer = λ c l k.
        let other : (i == c) ≡ false = ground arith in rw other (q.pointer c (omega arith) k);
    rest = λ c x l k k'.
        let other : (i == c) ≡ false = ground arith in rw other (q.rest c x (omega arith) k k');
  }

  -- The channels end, each with its last block.
  pub record Padded (left i : ℕ) (s : Sink) : Type 0 where
    pub to : Sink
    pub eq : pad_loop left i s ≡ (true, to)
    pub whole : IsPadding stream n start r t p n to
    pub same : to.1.limit ≡ s.1.limit
    pub footer : to.0.footer_size ≡ s.0.footer_size

  pad_loop-end : (i : ℕ) (s : Sink) → pad_loop 0 i s ≡ (true, s)
  unfolding pad_loop
  pad_loop-end i s = refl

  pub pad_all :
      (left i : ℕ) (s : Sink)
      → i + left ≡ n
      → 0 < p
      → start + (r * n + n) * 4096 ≤ s.1.limit
      → IsPadding stream n start r t p i s
      → Padded left i s
  unfolding empty_buffer
  pad_all zero i s all some_there space q = record {
    to = s;
    eq = pad_loop-end i s;
    whole =
        let end : i ≡ n = omega (arith, all) in
        subst (λ (k : ℕ). IsPadding stream n start r t p k s) end q;
    same = refl;
    footer = refl;
  }
  pad_all (suc left) i s all some_there space q =
      let below : i < n = omega (arith, all) in
      let step =
        pad_step left i s.0 s.1 (omega (arith, q.pointer i (omega arith) below, some_there))
          (omega (arith, q.place, space, below)) in
      let rest =
        pad_all left (i + 1) (block_padded i s.0 s.1) (omega (arith, all)) some_there space
          (padded-IsPadding i s.0 s.1 below q) in
      record {
        to = rest.to;
        eq = step ∙ rest.eq;
        whole = rest.whole;
        same = rest.same;
        footer = rest.footer;
      }

  -- where no channel has samples left, nothing is written
  pub pad_none :
      (left i : ℕ) (s : Sink)
      → i + left ≤ n
      → p ≡ 0
      → IsPadding stream n start r t p 0 s
      → pad_loop left i s ≡ (true, s)
  unfolding pad_loop
  pad_none zero i s inside none_there q = refl
  pad_none (suc left) i s inside none_there q =
      let skip : ltb 0 (s.0.buffer_ptr i) ≡ false =
        le→ltb _ _ (omega (arith, q.pointer i (omega arith) (omega arith), none_there)) in
      rw skip (pad_none left (i + 1) s (omega arith) none_there q)
