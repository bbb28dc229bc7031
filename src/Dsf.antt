-- ===== src/Dsf.antt =====
-- src/libsacd/dsf.c: DSF files, blocks of one channel after the other.
pub mod Files
pub mod Queue
pub mod Rows
pub mod Write
pub mod Pad
pub mod Close
mod Tests
use sacd_extract.Common.{
  ℕ, zero, suc, ◌+◌, ◌-◌, ◌*◌, ◌/◌, ◌%◌, ◌^◌, Bool, true, false, not, ◌&&◌, Option, none, some,
  List, [], ◌∷◌, ltb, leb, ◌==◌, if◌then◌else◌, update, get_or,
}
use sacd_extract.Dst.Stream.{Memory}
use sacd_extract.Dsf.Files.{File, fwrite, rewind, put_fields}

abbrev pub sacd_block_size_per_channel : ℕ
sacd_block_size_per_channel = 4096

abbrev pub max_channel_count : ℕ
max_channel_count = 6

abbrev pub bit_reverse_table : List ℕ
bit_reverse_table =
    0x00 ∷ 0x80 ∷ 0x40 ∷ 0xc0 ∷ 0x20 ∷ 0xa0 ∷ 0x60 ∷ 0xe0 ∷ 0x10 ∷ 0x90 ∷ 0x50 ∷ 0xd0 ∷ 0x30 ∷ 0xb0
    ∷ 0x70 ∷ 0xf0 ∷ 0x08 ∷ 0x88 ∷ 0x48 ∷ 0xc8 ∷ 0x28 ∷ 0xa8 ∷ 0x68 ∷ 0xe8 ∷ 0x18 ∷ 0x98 ∷ 0x58
    ∷ 0xd8 ∷ 0x38 ∷ 0xb8 ∷ 0x78 ∷ 0xf8 ∷ 0x04 ∷ 0x84 ∷ 0x44 ∷ 0xc4 ∷ 0x24 ∷ 0xa4 ∷ 0x64 ∷ 0xe4
    ∷ 0x14 ∷ 0x94 ∷ 0x54 ∷ 0xd4 ∷ 0x34 ∷ 0xb4 ∷ 0x74 ∷ 0xf4 ∷ 0x0c ∷ 0x8c ∷ 0x4c ∷ 0xcc ∷ 0x2c
    ∷ 0xac ∷ 0x6c ∷ 0xec ∷ 0x1c ∷ 0x9c ∷ 0x5c ∷ 0xdc ∷ 0x3c ∷ 0xbc ∷ 0x7c ∷ 0xfc ∷ 0x02 ∷ 0x82
    ∷ 0x42 ∷ 0xc2 ∷ 0x22 ∷ 0xa2 ∷ 0x62 ∷ 0xe2 ∷ 0x12 ∷ 0x92 ∷ 0x52 ∷ 0xd2 ∷ 0x32 ∷ 0xb2 ∷ 0x72
    ∷ 0xf2 ∷ 0x0a ∷ 0x8a ∷ 0x4a ∷ 0xca ∷ 0x2a ∷ 0xaa ∷ 0x6a ∷ 0xea ∷ 0x1a ∷ 0x9a ∷ 0x5a ∷ 0xda
    ∷ 0x3a ∷ 0xba ∷ 0x7a ∷ 0xfa ∷ 0x06 ∷ 0x86 ∷ 0x46 ∷ 0xc6 ∷ 0x26 ∷ 0xa6 ∷ 0x66 ∷ 0xe6 ∷ 0x16
    ∷ 0x96 ∷ 0x56 ∷ 0xd6 ∷ 0x36 ∷ 0xb6 ∷ 0x76 ∷ 0xf6 ∷ 0x0e ∷ 0x8e ∷ 0x4e ∷ 0xce ∷ 0x2e ∷ 0xae
    ∷ 0x6e ∷ 0xee ∷ 0x1e ∷ 0x9e ∷ 0x5e ∷ 0xde ∷ 0x3e ∷ 0xbe ∷ 0x7e ∷ 0xfe ∷ 0x01 ∷ 0x81 ∷ 0x41
    ∷ 0xc1 ∷ 0x21 ∷ 0xa1 ∷ 0x61 ∷ 0xe1 ∷ 0x11 ∷ 0x91 ∷ 0x51 ∷ 0xd1 ∷ 0x31 ∷ 0xb1 ∷ 0x71 ∷ 0xf1
    ∷ 0x09 ∷ 0x89 ∷ 0x49 ∷ 0xc9 ∷ 0x29 ∷ 0xa9 ∷ 0x69 ∷ 0xe9 ∷ 0x19 ∷ 0x99 ∷ 0x59 ∷ 0xd9 ∷ 0x39
    ∷ 0xb9 ∷ 0x79 ∷ 0xf9 ∷ 0x05 ∷ 0x85 ∷ 0x45 ∷ 0xc5 ∷ 0x25 ∷ 0xa5 ∷ 0x65 ∷ 0xe5 ∷ 0x15 ∷ 0x95
    ∷ 0x55 ∷ 0xd5 ∷ 0x35 ∷ 0xb5 ∷ 0x75 ∷ 0xf5 ∷ 0x0d ∷ 0x8d ∷ 0x4d ∷ 0xcd ∷ 0x2d ∷ 0xad ∷ 0x6d
    ∷ 0xed ∷ 0x1d ∷ 0x9d ∷ 0x5d ∷ 0xdd ∷ 0x3d ∷ 0xbd ∷ 0x7d ∷ 0xfd ∷ 0x03 ∷ 0x83 ∷ 0x43 ∷ 0xc3
    ∷ 0x23 ∷ 0xa3 ∷ 0x63 ∷ 0xe3 ∷ 0x13 ∷ 0x93 ∷ 0x53 ∷ 0xd3 ∷ 0x33 ∷ 0xb3 ∷ 0x73 ∷ 0xf3 ∷ 0x0b
    ∷ 0x8b ∷ 0x4b ∷ 0xcb ∷ 0x2b ∷ 0xab ∷ 0x6b ∷ 0xeb ∷ 0x1b ∷ 0x9b ∷ 0x5b ∷ 0xdb ∷ 0x3b ∷ 0xbb
    ∷ 0x7b ∷ 0xfb ∷ 0x07 ∷ 0x87 ∷ 0x47 ∷ 0xc7 ∷ 0x27 ∷ 0xa7 ∷ 0x67 ∷ 0xe7 ∷ 0x17 ∷ 0x97 ∷ 0x57
    ∷ 0xd7 ∷ 0x37 ∷ 0xb7 ∷ 0x77 ∷ 0xf7 ∷ 0x0f ∷ 0x8f ∷ 0x4f ∷ 0xcf ∷ 0x2f ∷ 0xaf ∷ 0x6f ∷ 0xef
    ∷ 0x1f ∷ 0x9f ∷ 0x5f ∷ 0xdf ∷ 0x3f ∷ 0xbf ∷ 0x7f ∷ 0xff ∷ []

-- What is read of the handles `ft` and `sb_handle`. `footer` is the tag that
-- scarletbook_id3_tag_render renders, and its size.
pub record Output : Type 0 where
  pub area_channels : ℕ
  pub extra_settings : ℕ
  pub track : ℕ
  pub track_count : ℕ
  pub dsf_nopad : Bool
  pub concatenate : Bool
  pub id3_tag_mode : ℕ
  pub footer : Memory
  pub rendered : ℕ

-- `dsf_handle_t`; `buffer_ptr` is how far the pointer stands in the channel's buffer.
pub record DsfHandle : Type 0 where
  pub header_size : ℕ
  pub footer_size : ℕ
  pub audio_data_size : ℕ
  pub channel_count : ℕ
  pub sample_count : ℕ
  pub buffer : ℕ → Memory
  pub buffer_ptr : ℕ → ℕ

-- The static variables; `prev_track_no` is `none` for NO_PREV_TRACK.
pub record Carried : Type 0 where
  pub buffer_prev : ℕ → Memory
  pub buffer_ptr_prev : ℕ → ℕ
  pub prev_track_no : Option ℕ

abbrev pub Sink : Type 0
Sink = DsfHandle × File

pub channel_type : Output → ℕ
channel_type ft =
    let n = ft.area_channels in
    if n == 2 && ft.extra_settings == 0
    then 2
    else if n == 5 && ft.extra_settings == 3
    then 6
    else if n == 6 && ft.extra_settings == 4
    then 7
    else 2

-- the fields of `dsd_chunk_header_t`, `fmt_chunk_t` and `data_chunk_t`
pub header_fields : Output → DsfHandle → ℕ → List (ℕ × ℕ)
header_fields ft h footer_size =
    (4, 0x20445344)
    ∷ (8, 28)
    ∷ (8, 92 + h.audio_data_size + footer_size)
    ∷ (8, (if footer_size == 0 then 0 else 92 + h.audio_data_size))
    ∷ (4, 0x20746d66)
    ∷ (8, 52)
    ∷ (4, 1)
    ∷ (4, 0)
    ∷ (4, channel_type ft)
    ∷ (4, ft.area_channels)
    ∷ (4, 2822400)
    ∷ (4, 1)
    ∷ (8, h.sample_count / ft.area_channels * 8)
    ∷ (4, sacd_block_size_per_channel)
    ∷ (4, 0)
    ∷ (4, 0x61746164)
    ∷ (8, 12 + h.audio_data_size)
    ∷ []

-- The return value is `true` for 0 and `false` for -1.
pub dsf_create_header : Output → Sink → Bool × Sink
dsf_create_header ft (h, fd) =
    let footer_size = if ft.id3_tag_mode == 0 then 0 else ft.rendered in
    let h' = record h {
      header_size = 28 + 52 + 12;
      footer_size = footer_size;
      channel_count = ft.area_channels;
    } in
    let (bytes_w, fd') = fwrite (put_fields (λ i. 0) 0 (header_fields ft h footer_size)) 92 fd in
    (bytes_w == 92, (h', fd'))

-- for (i = 0; i < MAX_CHANNEL_COUNT; i++) buffer_ptr[i] = &buffer[i][0];
pub reset_buffers : DsfHandle → DsfHandle
reset_buffers h = record h {
  buffer_ptr = λ i. if ltb i max_channel_count then 0 else h.buffer_ptr i;
}

-- the channels from `i` on, with how many are left, to which samples of the track before are carried
pub carry_loop : ℕ → ℕ → DsfHandle → Carried → DsfHandle × Carried
carry_loop zero i h c = (h, c)
carry_loop (suc left) i h c =
    let some_there = ltb 0 (c.buffer_ptr_prev i) in
    carry_loop left (i + 1)
      (if some_there
        then record h {
          buffer = update h.buffer i (c.buffer_prev i);
          buffer_ptr = update h.buffer_ptr i (c.buffer_ptr_prev i);
        }
        else h)
      (if some_there then record c { buffer_ptr_prev = update c.buffer_ptr_prev i 0 } else c)

-- the track before this one has left samples
pub carries_over : Output → Carried → Bool
carries_over ft c =
    ft.dsf_nopad
    && ltb 0 ft.track
    && (elim c.prev_track_no [ none ↦ false | some prev ↦ ft.track == prev + 1 ])

pub dsf_create : Output → Sink → Carried → Bool × Sink × Carried
dsf_create ft s c =
    let (rez, (h, fd)) = dsf_create_header ft s in
    let h' = reset_buffers h in
    let (h'', c') = carry_loop h'.channel_count 0 h' c in
    if carries_over ft c
    then (rez, (h'', fd), record c' { prev_track_no = none })
    else (rez, (h', fd), c)

-- What a loop over the samples of a frame has come to: it goes on from the place `at` in the frame,
-- or it has failed to write.
pub data Going : Type 0 where
  going : ℕ → Sink → Going
  failed : Sink → Going

-- *buffer_ptr[i] = bit_reverse_table[*buf_ptr]; buffer_ptr[i]++;
pub store_byte : ℕ → ℕ → DsfHandle → DsfHandle
store_byte i byte h =
    let p = h.buffer_ptr i in
    record h {
      buffer = update h.buffer i (update (h.buffer i) p (get_or bit_reverse_table byte 0));
      buffer_ptr = update h.buffer_ptr i (p + 1);
    }

-- memset(buffer[i], 0, SACD_BLOCK_SIZE_PER_CHANNEL), buffer_ptr[i] = buffer[i]
pub empty_buffer : ℕ → DsfHandle → DsfHandle
empty_buffer i h = record h {
  buffer = update h.buffer i (λ x. if ltb x sacd_block_size_per_channel then 0 else h.buffer i x);
  buffer_ptr = update h.buffer_ptr i 0;
}

-- A full buffer is written to the file.
pub flush_block : ℕ → Sink → Bool × Sink
flush_block i (h, fd) =
    let (bytes_w, fd') = fwrite (h.buffer i) sacd_block_size_per_channel fd in
    let h' = empty_buffer i (record h {
      sample_count = h.sample_count + sacd_block_size_per_channel;
      audio_data_size = h.audio_data_size + sacd_block_size_per_channel;
    }) in
    if bytes_w == sacd_block_size_per_channel then (true, (h', fd')) else (false, (h, fd'))

-- the channels from `i` on, with how many are left, for the frame of `len` bytes at `buf`
pub row_loop : Memory → ℕ → ℕ → ℕ → ℕ → Sink → Going
row_loop buf len zero i at s = going at s
row_loop buf len (suc left) i at s =
    let stored = row_loop buf len left (i + 1) (at + 1) (store_byte i (buf at) s.0, s.1) in
    let f = flush_block i s in
    let flushed = row_loop buf len left (i + 1) at f.1 in
    if leb len at
    then going at s
    else if ltb (s.0.buffer_ptr i) sacd_block_size_per_channel
    then stored
    else if f.0
    then flushed
    else failed f.1

-- while (buf_ptr < buf_end_ptr), with the rounds that are left; `none` is a loop that goes on
pub write_loop : ℕ → Memory → ℕ → ℕ → Sink → Option (Bool × Sink)
write_loop zero buf len at s = if ltb at len then none else some (true, s)
write_loop (suc fuel) buf len at s =
    let next : Option (Bool × Sink) = elim (row_loop buf len s.0.channel_count 0 at s) [
      | failed s' ↦ some (false, s')
      | going at' s' ↦ write_loop fuel buf len at' s'
    ] in
    if ltb at len then next else some (true, s)

-- The return value is `none` for -1, else how many bytes went to the file.
pub write_answer : ℕ → Option (Bool × Sink) → Option (Option ℕ × Sink)
write_answer prev none = none
write_answer prev (some (true, s)) = some (some (s.0.audio_data_size - prev), s)
write_answer prev (some (false, s)) = some (none, s)

-- Two rounds for each byte are enough where there is a channel; without channels the loop does not
-- end.
pub dsf_write_frame : Memory → ℕ → Sink → Option (Option ℕ × Sink)
dsf_write_frame buf len s = write_answer s.0.audio_data_size (write_loop (2 * len) buf len 0 s)

-- for each channel from `i` on, where samples are kept for the next track
pub keep_loop : ℕ → ℕ → ℕ → DsfHandle → Carried → DsfHandle × Carried
keep_loop track zero i h c = (h, c)
keep_loop track (suc left) i h c =
    let some_there = ltb 0 (h.buffer_ptr i) in
    keep_loop track left (i + 1) (if some_there then empty_buffer i h else h) (
      if some_there
      then record c {
        buffer_prev = update c.buffer_prev i (h.buffer i);
        buffer_ptr_prev = update c.buffer_ptr_prev i (h.buffer_ptr i);
        prev_track_no = some track;
      }
      else record c { buffer_ptr_prev = update c.buffer_ptr_prev i 0; prev_track_no = none })

-- for each channel from `i` on, where the last block is filled with zeros
pub pad_loop : ℕ → ℕ → Sink → Bool × Sink
pad_loop zero i s = (true, s)
pad_loop (suc left) i (h, fd) =
    let skip = pad_loop left (i + 1) (h, fd) in
    let (bytes_w, fd') = fwrite (h.buffer i) sacd_block_size_per_channel fd in
    let next = pad_loop left (i + 1) (
      empty_buffer i (record h {
        sample_count = h.sample_count + h.buffer_ptr i;
        audio_data_size = h.audio_data_size + sacd_block_size_per_channel;
      }),
      fd',
    ) in
    if ltb 0 (h.buffer_ptr i)
    then (if bytes_w == sacd_block_size_per_channel
        then next
        else (false, (record h { audio_data_size = h.audio_data_size + bytes_w }, fd')))
    else skip

-- what dsf_close does with the samples that are left
pub close_buffers : Output → Sink → Carried → Bool × Sink × Carried
close_buffers ft (h, fd) c =
    let kept = keep_loop ft.track h.channel_count 0 h c in
    let padded = pad_loop h.channel_count 0 (h, fd) in
    if ft.dsf_nopad && ltb (ft.track + 1) ft.track_count
    then (if ft.concatenate
        then (true, (h, fd), record c { prev_track_no = none })
        else (true, (kept.0, fd), kept.1))
    else (padded.0, padded.1, record c { prev_track_no = none })

-- The answer of the last dsf_create_header is not looked at.
pub dsf_close : Output → Sink → Carried → Bool × Sink × Carried
dsf_close ft s c =
    let (result, (h, fd), c') = close_buffers ft s c in
    let (bytes_w, fd') = fwrite ft.footer h.footer_size fd in
    let (rez, s') = dsf_create_header ft (h, rewind fd') in
    (result && (bytes_w == h.footer_size), s', c')
