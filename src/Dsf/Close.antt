-- ===== src/Dsf/Close.antt =====
-- What a reader finds in the file that dsf_close leaves.
use sacd_extract.Common.{
  ℕ, suc, ◌+◌, ◌-◌, ◌*◌, ◌/◌, ◌≤◌, ◌<◌, ◌≡◌, refl, sym, ap, ap₂, ◌∙◌, arith, Bool, true, false,
  ◌&&◌, ltb, leb, ◌==◌, if◌then◌else◌, none, min, lt→ltb, le→ltb, lt→leb, le→leb,
}
use native.Mathlib.Decide.{dec_lt}
use native.Mathlib.Nat.{mul-le-mul_right, mul-div_cancel}
use mathlib.Core.Path.{subst}
use sacd_extract.Dst.Stream.{Memory}
use sacd_extract.Disc.Sector.{memcpy}
use sacd_extract.Dsf.Files.{fwrite, rewind, get_le, put_fields}
use sacd_extract.Dsf.Files.Fields.{values, get_le_same, get-put_fields, field_at, offset}
use sacd_extract.Dsf.{
  Output, Sink, Carried, header_fields, dsf_create_header, pad_loop, close_buffers, dsf_close,
}
use sacd_extract.Dsf.Rows.{IsEven}
use sacd_extract.Dsf.Write.{full_rows, rows-le}
use sacd_extract.Dsf.Pad.{padded, IsPadding, even-IsPadding, pad_all, pad_none}

-- The blocks of a file of `rows` blocks for each channel, with `t` samples of each.
pub record IsFinished (stream : ℕ → ℕ → ℕ) (n t rows : ℕ) (s : Sink) : Type 0 where
  pub place : s.1.place ≡ 92 + rows * n * 4096
  pub audio : s.0.audio_data_size ≡ rows * n * 4096
  pub samples : s.0.sample_count ≡ t * n
  pub enough : t ≤ rows * 4096
  pub tight : rows * 4096 < t + 4096
  pub blocks :
      (q c x : ℕ)
      → c < n
      → q < rows
      → x < 4096
      → s.1.contents (92 + ((q * n + c) * 4096 + x)) ≡ padded stream t c (q * 4096 + x)

module _ (stream : ℕ → ℕ → ℕ) (n t : ℕ) where
  row_inside : (q rows c : ℕ) → c < n → q < rows → q * n + c < rows * n
  row_inside q rows c h k =
      let up = mul-le-mul_right n k in
      let row : suc q * n ≡ q * n + n = grind arith in omega (arith, up, row)

  padding-IsFinished :
      (r p i rows : ℕ) (s : Sink)
      → r * 4096 + p ≡ t
      → r * n + i ≡ rows * n
      → r * n * 4096 + i * p ≡ t * n
      → t ≤ rows * 4096
      → rows * 4096 < t + 4096
      → IsPadding stream n 92 r t p i s
      → IsFinished stream n t rows s
  padding-IsFinished r p i rows s all cells samples enough tight q = record {
    place = omega (arith, q.place, cells);
    audio = omega (arith, q.audio, cells);
    samples = q.samples ∙ samples;
    enough = enough;
    tight = tight;
    blocks =
        λ row c x l k k'. q.blocks row c x l (omega (arith, row_inside row rows c l k, cells)) k';
  }

  all_samples : (r p : ℕ) → r * n * 4096 + n * p ≡ (r * 4096 + p) * n
  all_samples r p = grind arith

  none_left : (r p : ℕ) → r * n * 4096 + 0 * p ≡ r * 4096 * n
  none_left r p = grind arith

  -- what dsf_close leaves behind its last blocks
  record Finished (outcome : Bool × Sink) (s : Sink) : Type 0 where
    pub to : Sink
    pub rows : ℕ
    pub eq : outcome ≡ (true, to)
    pub whole : IsFinished stream n t rows to
    pub same : to.1.limit ≡ s.1.limit
    pub footer : to.0.footer_size ≡ s.0.footer_size

  pad-IsFinished :
      (r : ℕ) (s : Sink)
      → 1 ≤ n
      → 92 + (t + 4096) * n ≤ s.1.limit
      → IsEven stream n 92 r t s
      → Finished (pad_loop n 0 s) s
  pad-IsFinished r s some_channel space even =
      let p : ℕ = t - r * 4096 in
      let full : r * 4096 + p ≡ t = omega (arith, even.filled 0 some_channel) in
      let small : p ≤ 4096 = omega (arith, even.filled 0 some_channel, even.room 0 some_channel) in
      let start = even-IsPadding stream n 92 r t p full s some_channel even in
      elim (dec_lt 0 p) [
        | yes some_there ↦
            let blocks : (r * n + n) * 4096 ≤ (t + 4096) * n =
              let less : r * 4096 + 4096 ≤ t + 4096 = omega (arith, full) in
              omega (arith, full_rows r n, mul-le-mul_right n less) in
            let end =
              pad_all stream n 92 r t p full n 0 s (omega arith) some_there
                (omega (arith, space, blocks)) start in
            record {
              to = end.to;
              rows = r + 1;
              eq = end.eq;
              whole =
                  padding-IsFinished r p n (r + 1) end.to full (grind arith)
                    (all_samples r p ∙ ap (λ (z : ℕ). z * n) full) (omega (arith, full, small))
                    (omega (arith, full, some_there)) end.whole;
              same = end.same;
              footer = end.footer;
            }
        | no none_there ↦
            let empty : p ≡ 0 = omega arith in
            record {
              to = s;
              rows = r;
              eq = pad_none stream n 92 r t p full n 0 s (omega arith) empty start;
              whole =
                  padding-IsFinished r p 0 r s full (omega arith)
                    (none_left r p ∙ ap (λ (z : ℕ). z * n) (omega (arith, full, empty)))
                    (omega (arith, full, empty)) (omega (arith, full)) start;
              same = refl;
              footer = refl;
            }
      ]

-- What a reader finds in a file of `n` channels with `t` samples each, in bytes: the sizes and counts
-- of the header, `rows` blocks of each channel in turn, and the tag.
pub record IsReadable (stream : ℕ → ℕ → ℕ) (n t rows : ℕ) (tag : Memory) (tag_size : ℕ) (f : Memory)
    : Type 0 where
  pub total_file_size : get_le f 12 8 ≡ 92 + rows * n * 4096 + tag_size
  pub channel_count : get_le f 52 4 ≡ n
  pub sample_count : get_le f 64 8 ≡ t * 8
  pub chunk_data_size : get_le f 84 8 ≡ 12 + rows * n * 4096
  pub enough : t ≤ rows * 4096
  pub tight : rows * 4096 < t + 4096
  pub blocks :
      (q c x : ℕ)
      → c < n
      → q < rows
      → x < 4096
      → f (92 + ((q * n + c) * 4096 + x)) ≡ padded stream t c (q * 4096 + x)
  pub metadata : (i : ℕ) → i < tag_size → f (92 + rows * n * 4096 + i) ≡ tag i

abbrev pub tag_size : Output → ℕ
tag_size ft = if ft.id3_tag_mode == 0 then 0 else ft.rendered

-- the file with the tag behind the blocks and with the last header
abbrev completed : Output → Sink → Memory
completed ft (h, fd) =
    memcpy (memcpy fd.contents fd.place ft.footer 0 h.footer_size) 0
      (put_fields (λ i. 0) 0 (header_fields ft h (tag_size ft))) 0 92

module _ (ft : Output) (stream : ℕ → ℕ → ℕ) (n t rows : ℕ) (s : Sink) where
  -- the header is read as it was written
  header_read :
      (k : ℕ)
      → (let f = header_fields ft s.0 (tag_size ft) in
          (field_at f k).1 < values (field_at f k).0
          → offset f k + (field_at f k).0 ≤ 92
          → get_le (completed ft s) (offset f k) (field_at f k).0 ≡ (field_at f k).1)
  unfolding memcpy
  header_read k fits inside =
      let fields = header_fields ft s.0 (tag_size ft) in
      let zero_more : 0 + offset fields k ≡ offset fields k = omega arith in
      get_le_same (completed ft s) (put_fields (λ i. 0) 0 fields) (offset fields k)
        (field_at fields k).0
        (λ i l l'.
          let front : leb 0 i ≡ true = le→leb _ _ (omega arith) in
          let below : ltb i (0 + 92) ≡ true = lt→ltb _ _ (omega arith) in
          let same : 0 + (i - 0) ≡ i = omega arith in rw (front, below, same) refl)
      ∙ subst
          (λ (z : ℕ).
            get_le (put_fields (λ i. 0) 0 fields) z (field_at fields k).0 ≡ (field_at fields k).1)
          zero_more (get-put_fields fields k (λ i. 0) 0 fits)

  completed-IsReadable :
      ft.area_channels ≡ n
      → 1 ≤ n
      → s.0.footer_size ≡ tag_size ft
      → n < values 4
      → 92 + rows * n * 4096 + tag_size ft < values 8
      → t * 8 < values 8
      → IsFinished stream n t rows s
      → IsReadable stream n t rows ft.footer (tag_size ft) (completed ft s)
  unfolding header_fields memcpy
  completed-IsReadable channels some_channel tag few small short whole =
      let samples : s.0.sample_count / ft.area_channels * 8 ≡ t * 8 =
        ap (λ (z : ℕ). z * 8)
          (ap₂ (λ (a b : ℕ). a / b) whole.samples channels ∙ mul-div_cancel t some_channel) in
      record {
        total_file_size =
            header_read 2 (omega (arith, whole.audio)) (omega arith) ∙ omega (arith, whole.audio);
        channel_count = header_read 9 (omega (arith, channels)) (omega arith) ∙ channels;
        sample_count = header_read 12 (omega (arith, samples)) (omega arith) ∙ samples;
        chunk_data_size =
            header_read 16 (omega (arith, whole.audio)) (omega arith) ∙ omega (arith, whole.audio);
        enough = whole.enough;
        tight = whole.tight;
        blocks = λ q c x l k k'.
            let at : ℕ = 92 + ((q * n + c) * 4096 + x) in
            let cell = row_inside stream n t q rows c l k in
            let front : leb 0 at ≡ true = le→leb _ _ (omega arith) in
            let behind : ltb at 92 ≡ false = le→ltb _ _ (omega arith) in
            let before : leb s.1.place at ≡ false = lt→leb _ _ (omega (arith, whole.place, cell)) in
            rw (front, behind, before) (whole.blocks q c x l k k');
        metadata = λ i l.
            let at : ℕ = 92 + rows * n * 4096 + i in
            let front : leb 0 at ≡ true = le→leb _ _ (omega arith) in
            let behind : ltb at 92 ≡ false = le→ltb _ _ (omega arith) in
            let from : leb s.1.place at ≡ true = le→leb _ _ (omega (arith, whole.place)) in
            let inside : ltb at (s.1.place + s.0.footer_size) ≡ true =
              lt→ltb _ _ (omega (arith, whole.place, tag)) in
            let index : 0 + (at - s.1.place) ≡ i = omega (arith, whole.place) in
            rw (front, behind, from, inside, index) refl;
      }

swapped : (rows n : ℕ) → rows * n * 4096 ≡ rows * 4096 * n
swapped rows n = grind arith

-- the last two writes of dsf_close
closed :
    (ft : Output) (s to : Sink) (c c' : Carried)
    → close_buffers ft s c ≡ (true, to, c')
    → to.1.place + to.0.footer_size ≤ to.1.limit
    → 92 ≤ to.1.limit
    → ((dsf_close ft s c).0 ≡ true) × ((dsf_close ft s c).1.1.contents ≡ completed ft to)
unfolding dsf_close fwrite rewind dsf_create_header
closed ft s to c c' e space room =
    let tag : min to.0.footer_size (to.1.limit - to.1.place) ≡ to.0.footer_size =
      omega (arith, space) in
    let own : (to.0.footer_size == to.0.footer_size) ≡ true = ground arith in
    let header : min 92 (to.1.limit - 0) ≡ 92 = omega (arith, room) in
    rw (e, tag, own, header) (refl, refl)

-- Where each channel has got `t` samples and a file of them all, with its blocks filled up, fits on
-- the disk, dsf_close without carrying samples over to a next track succeeds, and what a
-- reader then finds in the file are these samples: the header has the number of channels and of
-- samples, in bits, and the sizes of the data and of the file; the blocks of the channels in turn have
-- their streams, with zeros behind the last sample; and the tag stands behind them.
pub dsf_close_lem :
    (ft : Output) (stream : ℕ → ℕ → ℕ) (n r t : ℕ) (s : Sink) (c : Carried)
    → (ft.dsf_nopad && ltb (ft.track + 1) ft.track_count) ≡ false
    → ft.area_channels ≡ n
    → 1 ≤ n
    → n < values 4
    → s.0.footer_size ≡ tag_size ft
    → 92 + (t + 4096) * n + tag_size ft ≤ s.1.limit
    → 8 * s.1.limit < values 8
    → IsEven stream n 92 r t s
    → ((dsf_close ft s c).0 ≡ true)
      × ((rows : ℕ) × IsReadable stream n t rows ft.footer
            (tag_size ft)
            (dsf_close ft s c).1.1.contents)
unfolding close_buffers
dsf_close_lem ft stream n r t s c last channels some_channel few tag space small even =
    let end = pad-IsFinished stream n t r s some_channel (omega (arith, space)) even in
    let whole = end.whole in
    let to = end.to in
    let eq : close_buffers ft s c ≡ (true, to, record c { prev_track_no = none }) =
      let padded_all : pad_loop s.0.channel_count 0 s ≡ (true, to) =
        subst (λ (k : ℕ). pad_loop k 0 s ≡ (true, to)) (sym even.channels) end.eq in
      rw (last, padded_all) refl in
    let rows : end.rows * n * 4096 ≤ (t + 4096) * n =
      let less : end.rows * 4096 ≤ t + 4096 = omega (arith, whole.tight) in
      omega (arith, mul-le-mul_right n less, swapped end.rows n) in
    let samples : t ≤ (t + 4096) * n = omega (arith, rows-le (t + 4096) n some_channel) in
    let (done, contents) =
      closed ft s to c (record c { prev_track_no = none }) eq
        (omega (arith, whole.place, end.footer, end.same, tag, space, rows))
        (omega (arith, end.same, space)) in
    (
      done,
      (
        end.rows,
        rw contents (
            completed-IsReadable ft stream n t end.rows to channels some_channel (end.footer ∙ tag)
              few (omega (arith, rows, space, small)) (omega (arith, samples, space, small)) whole),
      ),
    )
