-- ===== src/Dsf/Tests.antt =====
-- Two channels and two rows, with the first byte of a buffer left.
use sacd_extract.Common.{
  ℕ, zero, suc, ◌+◌, ◌-◌, ◌*◌, ◌<◌, ◌≡◌, refl, arith, some, [], ◌∷◌, get_or, ◌%◌, lt→ltb, le→ltb,
  true, false, ltb, if◌then◌else◌, none,
}
use sacd_extract.Dst.Stream.{Memory}
use sacd_extract.Dsf.{Sink, Output, Carried, dsf_write_frame, dsf_close}
use sacd_extract.Dsf.Rows.{IsEven}
use sacd_extract.Dsf.Close.{IsReadable, tag_size, dsf_close_lem}
use sacd_extract.Dsf.Write.{reverse8, dsf_write_frame_lem}

abbrev frame : Memory
frame i = get_or (0x01 ∷ 0x80 ∷ 0x03 ∷ 0xc0 ∷ []) i 0

-- what the channels get: the bytes of the frame in turn, their bits reversed
abbrev stream : ℕ → ℕ → ℕ
stream c x = get_or (0x80 ∷ 0x01 ∷ 0xc0 ∷ 0x03 ∷ []) (x * 2 + c) 0

abbrev new_file : Sink
new_file = (
  record {
    header_size = 92;
    footer_size = 0;
    audio_data_size = 0;
    channel_count = 2;
    sample_count = 0;
    buffer = λ c x. 0;
    buffer_ptr = λ c. 0;
  },
  record { contents = λ i. 0; size = 92; place = 92; limit = 100000 },
)

new_file-IsEven : IsEven stream 2 92 0 0 new_file
new_file-IsEven = record {
  channels = refl;
  place = refl;
  audio = refl;
  samples = refl;
  blocks = λ r c x l k k'. absurd (omega arith);
  filled = λ c l. omega arith;
  room = λ c l. omega arith;
  held = λ c x l k. absurd (omega arith);
  clear = λ c x l k k'. refl;
}

frame_bytes : (i : ℕ) → frame i < 256
frame_bytes zero = omega arith
frame_bytes (suc zero) = omega arith
frame_bytes (suc (suc zero)) = omega arith
frame_bytes (suc (suc (suc zero))) = omega arith
frame_bytes (suc (suc (suc (suc i)))) = omega arith

frame_rows : (j c : ℕ) → j < 2 → c < 2 → stream c (0 + j) ≡ reverse8 (frame (j * 2 + c))
unfolding reverse8
frame_rows zero zero h k = refl
frame_rows zero (suc zero) h k = refl
frame_rows (suc zero) zero h k = refl
frame_rows (suc zero) (suc zero) h k = refl
frame_rows (suc (suc j)) c h k = absurd (omega arith)
frame_rows zero (suc (suc c)) h k = absurd (omega arith)
frame_rows (suc zero) (suc (suc c)) h k = absurd (omega arith)

dsf_write_frame_lem_example :
    (r' : ℕ) × (s' : Sink) × (dsf_write_frame frame 4 new_file
      ≡ some (some (r' * 2 * 4096 - 0 * 2 * 4096), s'))
    × IsEven stream 2 92 r' (0 + 2) s'
dsf_write_frame_lem_example =
    dsf_write_frame_lem stream 2 92 frame 4 2 0 0 new_file (omega arith) (omega arith) (omega arith)
      frame_bytes frame_rows new_file-IsEven

abbrev last_track : Output
last_track = record {
  area_channels = 2;
  extra_settings = 0;
  track = 3;
  track_count = 4;
  dsf_nopad = true;
  concatenate = false;
  id3_tag_mode = 1;
  footer = λ i. i % 256;
  rendered = 50;
}

abbrev nothing_carried : Carried
nothing_carried = record { buffer_prev = λ c x. 0; buffer_ptr_prev = λ c. 0; prev_track_no = none }

-- two samples of each channel in the buffers
abbrev half_full : Sink
half_full = (
  record {
    header_size = 92;
    footer_size = 50;
    audio_data_size = 0;
    channel_count = 2;
    sample_count = 0;
    buffer = λ c x. if ltb x 2 then stream c x else 0;
    buffer_ptr = λ c. 2;
  },
  record { contents = λ i. 0; size = 92; place = 92; limit = 100000 },
)

half_full-IsEven : IsEven stream 2 92 0 2 half_full
half_full-IsEven = record {
  channels = refl;
  place = refl;
  audio = refl;
  samples = refl;
  blocks = λ r c x l k k'. absurd (omega arith);
  filled = λ c l. omega arith;
  room = λ c l. omega arith;
  held = λ c x l k.
      let inside : ltb x 2 ≡ true = lt→ltb x 2 k in
      let zero_more : 0 * 4096 + x ≡ x = omega arith in rw (inside, zero_more) refl;
  clear = λ c x l k k'. let outside : ltb x 2 ≡ false = le→ltb x 2 k in rw outside refl;
}

dsf_close_lem_example :
    ((dsf_close last_track half_full nothing_carried).0 ≡ true)
    × ((rows : ℕ) × IsReadable stream 2 2 rows last_track.footer
          (tag_size last_track)
          (dsf_close last_track half_full nothing_carried).1.1.contents)
dsf_close_lem_example =
    dsf_close_lem last_track stream 2 0 2 half_full nothing_carried refl refl (omega arith)
      (omega arith) refl (omega arith) (omega arith) half_full-IsEven
