-- ===== src/Disc/Sector.antt =====
-- src/libsacd/scarletbook.h and the start of a block in scarletbook_process_frames: the header of an
-- audio sector, as a little-endian machine reads it.
pub mod Bytes
use sacd_extract.Common.{
  ℕ, zero, suc, ◌+◌, ◌*◌, ◌/◌, ◌%◌, ◌^◌, Bool, true, false, ◌==◌, if◌then◌else◌, update, ◌&&◌, List,
  [], ◌∷◌, leb, ltb, ◌-◌,
}
use sacd_extract.Dst.Stream.{Memory}

-- `memcpy(to + at, from + p, n)`
unfoldable pub memcpy : Memory → ℕ → Memory → ℕ → ℕ → Memory
memcpy to at from p n i = if leb at i && ltb i (at + n) then from (p + (i - at)) else to i

-- the `n` bytes from `p` on
unfoldable pub bytes : Memory → ℕ → ℕ → List ℕ
bytes m p zero = []
bytes m p (suc n) = m p ∷ bytes m (p + 1) n

pub record Timecode : Type 0 where
  pub minutes : ℕ
  pub seconds : ℕ
  pub frames : ℕ

-- `audio_packet_info_t`
pub record PacketInfo : Type 0 where
  pub frame_start : Bool
  pub data_type : ℕ
  pub packet_length : ℕ

-- `audio_frame_info_t`; `flags` is the byte of its bit fields.
pub record FrameInfo : Type 0 where
  pub timecode : Timecode
  pub flags : ℕ

abbrev pub sector_count_of : FrameInfo → ℕ
sector_count_of f = f.flags / 2 ^ 2 % 2 ^ 5

-- `audio_sector_t`; `header` is the byte of its bit fields.
pub record AudioSector : Type 0 where
  pub header : ℕ
  pub packet : ℕ → PacketInfo
  pub frame : ℕ → FrameInfo

abbrev pub is_dst : AudioSector → Bool
is_dst s = s.header % 2 == 1

abbrev pub frame_info_count : AudioSector → ℕ
frame_info_count s = s.header / 2 ^ 2 % 2 ^ 3

abbrev pub packet_info_count : AudioSector → ℕ
packet_info_count s = s.header / 2 ^ 5 % 2 ^ 3

unfoldable pub get_channel_count : FrameInfo → ℕ
get_channel_count f =
    if (f.flags / 2 % 2 == 1) && (f.flags % 2 == 0)
    then 6
    else if (f.flags / 2 % 2 == 0) && (f.flags % 2 == 1)
    then 5
    else 2

pub packet_info : Memory → ℕ → PacketInfo
packet_info m p = record {
  frame_start = m p / 2 ^ 7 % 2 == 1;
  data_type = m p / 2 ^ 3 % 2 ^ 3;
  packet_length = m p % 2 ^ 3 * 2 ^ 8 + m (p + 1);
}

-- the packets that are left, of two bytes each
pub packet_infos : ℕ → ℕ → ℕ → Memory → (ℕ → PacketInfo) → ℕ → PacketInfo
packet_infos zero i p m packet = packet
packet_infos (suc left) i p m packet =
    packet_infos left (i + 1) (p + 2) m (update packet i (packet_info m p))

pub timecode_at : Memory → ℕ → Timecode
timecode_at m p = record { minutes = m p; seconds = m (p + 1); frames = m (p + 2) }

-- The frame infos that are left: four bytes each where the audio is DST, else three, and the flags
-- stay as they were.
pub frame_infos : Bool → ℕ → ℕ → ℕ → Memory → (ℕ → FrameInfo) → ℕ → FrameInfo
frame_infos dst zero i p m frame = frame
frame_infos dst (suc left) i p m frame =
    let info : FrameInfo = record {
      timecode = timecode_at m p;
      flags = if dst then m (p + 3) else (frame i).flags;
    } in
    frame_infos dst left (i + 1) (p + (if dst then 4 else 3)) m (update frame i info)

-- The header of the sector at `p`, over what the sector before has left there.
unfoldable pub read_sector : Memory → ℕ → AudioSector → AudioSector
unfolding frame_infos timecode_at packet_infos packet_info
read_sector m p old =
    let s = record old { header = m p } in
    let n = packet_info_count s in
    record s {
      packet = packet_infos n 0 (p + 1) m s.packet;
      frame = frame_infos (is_dst s) (frame_info_count s) 0 (p + 1 + 2 * n) m s.frame;
    }

-- how many bytes the header takes
unfoldable pub header_size : AudioSector → ℕ
header_size s = 1 + 2 * packet_info_count s + frame_info_count s * (if is_dst s then 4 else 3)
