-- ===== src/Disc/Frames/Tests.antt =====
-- Sectors with a frame of DST.
use sacd_extract.Common.{
  ◌≡◌, refl, true, false, [], ◌∷◌, ◌++◌, get_or, ltb, ◌-◌, ◌+◌, ◌*◌, if◌then◌else◌,
}
use sacd_extract.Common.Int.{pos, ◌-ℤ◌}
use sacd_extract.Dst.Stream.{Memory}
use sacd_extract.Disc.Sector.{memcpy, bytes, read_sector, header_size, get_channel_count}
use sacd_extract.Disc.Sector.Bytes.{from}
use sacd_extract.Disc.Frames.{
  Frame, Handle, scarletbook_process_frames, scarletbook_frame_init, run_blocks, result_of,
  save_frame, start_frame, append_packet, add_packet, packet_step, packet_loop, block_step,
  block_loop, is_complete, sacd_lsn_size,
}
use sacd_extract.Disc.Frames.Packets.{frames_of, block_packets}
use sacd_extract.Disc.Frames.Packets.Assembly.{process_frames-frames_of}
use sacd_extract.Disc.Frames.Packets.Split.{process_frames-split}

-- two sectors: a frame of two packets starts in the first one, and its second packet is in the
-- second
abbrev sectors : Memory
sectors i =
    if ltb i 2048
    then get_or (0x25 ∷ 0x90 ∷ 0x03 ∷ 0x00 ∷ 0x01 ∷ 0x02 ∷ 0x08 ∷ 0x0a ∷ 0x0b ∷ 0x0c ∷ []) i 0
    else get_or (0x21 ∷ 0x10 ∷ 0x02 ∷ 0x0d ∷ 0x0e ∷ []) (i - 2048) 0

abbrev blank : Handle
blank = record {
  frame = record {
    contents = λ i. 0;
    size = 0;
    started = false;
    sector_count = pos 0;
    channel_count = 0;
    dst_encoded = false;
    timecode = record { minutes = 0; seconds = 0; frames = 0 };
  };
  audio_sector = record {
    header = 0;
    packet = λ i. record { frame_start = false; data_type = 0; packet_length = 0 };
    frame = λ i. record { timecode = record { minutes = 0; seconds = 0; frames = 0 }; flags = 0 };
  };
  frame_info_idx = 0;
}

fresh : scarletbook_frame_init blank ≡ blank
unfolding scarletbook_frame_init
fresh = refl

abbrev whole : Frame
whole = (record { minutes = 0; seconds = 1; frames = 2 }, 0x0a ∷ 0x0b ∷ 0x0c ∷ 0x0d ∷ 0x0e ∷ [])

runs : (scarletbook_process_frames sectors 2 true blank).1 ≡ whole ∷ []
unfolding scarletbook_process_frames run_blocks block_loop block_step packet_loop packet_step
    add_packet append_packet start_frame save_frame is_complete read_sector header_size
    get_channel_count memcpy bytes result_of ◌-ℤ◌
runs = refl

process_frames-frames_of_example :
    (scarletbook_process_frames sectors 2 true blank).1
    ≡ frames_of (block_packets sectors 2 0 blank.audio_sector)
process_frames-frames_of_example = process_frames-frames_of sectors 2 blank refl

process_frames-split_example :
    (scarletbook_process_frames sectors 1 false blank).1
      ++ (scarletbook_process_frames
          (from sectors (1 * sacd_lsn_size))
          1
          true
          (scarletbook_process_frames sectors 1 false blank).0).1
    ≡ (scarletbook_process_frames sectors (1 + 1) true blank).1
process_frames-split_example = process_frames-split sectors 1 1 blank
