-- ===== src/Disc/Frames.antt =====
-- src/libsacd/scarletbook_read.c: scarletbook_process_frames, which puts the audio packets of
-- sectors together to frames.
pub mod Packets
pub mod Bounds
mod Tests
use sacd_extract.Common.{
  ℕ, zero, suc, ◌+◌, ◌*◌, Bool, true, false, not, ◌&&◌, ◌||◌, List, [], ◌∷◌, ◌++◌, ltb, leb, ◌==◌,
  if◌then◌else◌,
}
use sacd_extract.Common.Int.{ℤ, pos, negsuc, ◌-ℤ◌, leb_ℤ}
use sacd_extract.Dst.Stream.{Memory}
use sacd_extract.Disc.Sector.{
  Timecode, PacketInfo, FrameInfo, AudioSector, memcpy, bytes, is_dst, packet_info_count,
  sector_count_of, get_channel_count, read_sector, header_size,
}

abbrev pub max_dst_size : ℕ
max_dst_size = 1024 * 64

abbrev pub frame_size64 : ℕ
frame_size64 = 4704

abbrev pub max_packet_size : ℕ
max_packet_size = 2045

abbrev pub sacd_lsn_size : ℕ
sacd_lsn_size = 2048

abbrev pub data_type_audio : ℕ
data_type_audio = 2

-- `scarletbook_audio_frame_t`
pub record AudioFrame : Type 0 where
  pub contents : Memory
  pub size : ℕ
  pub started : Bool
  pub sector_count : ℤ
  pub channel_count : ℕ
  pub dst_encoded : Bool
  pub timecode : Timecode

-- the part of `scarletbook_handle_t` that is read and written here
pub record Handle : Type 0 where
  pub frame : AudioFrame
  pub audio_sector : AudioSector
  pub frame_info_idx : ℕ

abbrev zero_time : Timecode
zero_time = record { minutes = 0; seconds = 0; frames = 0 }

pub scarletbook_frame_init : Handle → Handle
scarletbook_frame_init h = record {
  frame = record (h.frame) {
    size = 0;
    started = false;
    sector_count = pos 0;
    channel_count = 0;
    dst_encoded = false;
    timecode = zero_time;
  };
  audio_sector = record {
    header = 0;
    packet = λ i. record { frame_start = false; data_type = 0; packet_length = 0 };
    frame = λ i. record { timecode = zero_time; flags = 0 };
  };
  frame_info_idx = 0;
}

-- What the callback is given: the frame's time, which it reads from the handle, and its bytes.
abbrev pub Frame : Type 0
Frame = Timecode × List ℕ

-- The local variables of the function, with the frames that the callback has got. `read_ptr` is the
-- place in the buffer that is read next.
pub record Run : Type 0 where
  pub handle : Handle
  pub frame_info_idx : ℕ
  pub read_ptr : ℕ
  pub bad_reads : Bool
  pub nr_frames : ℕ
  pub frames : List Frame

abbrev pub is_zero : ℤ → Bool
is_zero (pos zero) = true
is_zero (pos (suc n)) = false
is_zero (negsuc n) = false

-- a whole frame
pub is_complete : AudioFrame → Bool
is_complete f =
    (f.dst_encoded && is_zero f.sector_count)
    || (not f.dst_encoded && f.size == f.channel_count * frame_size64)

abbrev pub set_frame : AudioFrame → Run → Run
set_frame f r = record r { handle = record (r.handle) { frame = f } }

-- A frame that was started and is whole goes to the callback.
pub save_frame : Run → Run
save_frame r =
    let f = r.handle.frame in
    if f.started && ltb 0 f.size && is_complete f
    then record (set_frame (record f { started = false }) r) {
      nr_frames = r.nr_frames + 1;
      frames = r.frames ++ (f.timecode, bytes f.contents 0 f.size) ∷ [];
    }
    else r

pub start_frame : Run → Run
start_frame r =
    let sector = r.handle.audio_sector in
    let info = sector.frame r.frame_info_idx in
    record r {
      handle = record (r.handle) {
        frame = record (r.handle.frame) {
          size = 0;
          dst_encoded = is_dst sector;
          sector_count = pos (sector_count_of info);
          channel_count = get_channel_count info;
          started = true;
          timecode = info.timecode;
        };
        frame_info_idx = r.frame_info_idx;
      };
      frame_info_idx = r.frame_info_idx + 1;
    }

pub append_packet : Memory → ℕ → ℕ → AudioFrame → AudioFrame
append_packet m p len f = record f {
  contents = memcpy f.contents f.size m p len;
  size = f.size + len;
  sector_count = if f.dst_encoded then f.sector_count -ℤ pos 1 else f.sector_count;
}

-- where a frame has been started
pub add_packet : Memory → ℕ → Run → Run
add_packet m len r =
    let f = r.handle.frame in
    if f.started
    then (if leb (f.size + len) max_dst_size
        then set_frame (append_packet m r.read_ptr len f) r
        else record (set_frame (record f { started = false }) r) { bad_reads = true })
    else r

-- one round of the loop over the packets of a sector
pub packet_step : Memory → PacketInfo → Run → Run
packet_step m packet r =
    if ltb max_packet_size packet.packet_length
    then record r { bad_reads = true }
    else let r1 =
        if packet.data_type == data_type_audio
        then add_packet m packet.packet_length
            (if packet.frame_start then start_frame (save_frame r) else r)
        else r in
      record r1 { read_ptr = r1.read_ptr + packet.packet_length }

-- the packets from `i` on, with how many are left
pub packet_loop : Memory → ℕ → ℕ → Run → Run
packet_loop m zero i r = r
packet_loop m (suc left) i r =
    packet_loop m left (i + 1) (packet_step m (r.handle.audio_sector.packet i) r)

-- the sector at `p`
pub block_step : Memory → ℕ → Run → Run
block_step m p r =
    let sector = read_sector m p r.handle.audio_sector in
    let too_many = ltb 7 (packet_info_count sector) in
    let f = r.handle.frame in
    packet_loop m (packet_info_count sector) 0 (record r {
      handle = record {
        frame = record f { started = if too_many then false else f.started };
        audio_sector = sector;
        frame_info_idx = 0;
      };
      frame_info_idx = 0;
      read_ptr = p + header_size sector;
      bad_reads = if too_many then true else r.bad_reads;
    })

-- the sectors from `j` on, with how many are left
pub block_loop : Memory → ℕ → ℕ → Run → Run
block_loop m zero j r = r
block_loop m (suc left) j r = block_loop m left (j + 1) (block_step m (j * sacd_lsn_size) r)

abbrev pub begin : Handle → Run
begin h = record {
  handle = h;
  frame_info_idx = 0;
  read_ptr = 0;
  bad_reads = false;
  nr_frames = 0;
  frames = [];
}

-- the run to the end of the function
pub run_blocks : Memory → ℕ → Bool → Handle → Run
run_blocks m blocks_read_in last_block h =
    let r = block_loop m blocks_read_in 0 (begin h) in if last_block then save_frame r else r

-- the return value
pub result_of : Run → ℤ
result_of r = if r.bad_reads then negsuc 0 else pos r.nr_frames

-- The handle, the frames that the callback gets, in order, and the return value.
pub scarletbook_process_frames : Memory → ℕ → Bool → Handle → Handle × List Frame × ℤ
scarletbook_process_frames m blocks_read_in last_block h =
    let r = run_blocks m blocks_read_in last_block h in (r.handle, r.frames, result_of r)
