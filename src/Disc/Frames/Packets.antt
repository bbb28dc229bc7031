-- ===== src/Disc/Frames/Packets.antt =====
-- What the frames of a disc are, said about the audio packets of its sectors without the state of
-- scarletbook_process_frames.
pub mod Pending
pub mod Steps
pub mod Assembly
pub mod Split
use sacd_extract.Common.{
  ℕ, zero, suc, ◌+◌, ◌*◌, Bool, true, false, not, ◌&&◌, ◌||◌, List, [], ◌∷◌, ◌++◌, ltb, leb, ◌==◌,
  if◌then◌else◌, Option, none, some, length,
}
use sacd_extract.Dst.Stream.{Memory}
use sacd_extract.Disc.Sector.{
  Timecode, AudioSector, bytes, is_dst, packet_info_count, sector_count_of, get_channel_count,
  read_sector, header_size,
}
use sacd_extract.Disc.Frames.{
  Frame, max_dst_size, max_packet_size, frame_size64, sacd_lsn_size, data_type_audio,
}

-- what the first packet of a frame tells of it
pub record Start : Type 0 where
  pub dst : Bool
  pub sectors : ℕ
  pub channels : ℕ
  pub time : Timecode

-- an audio packet; only the first one of a frame has a start
pub record Packet : Type 0 where
  pub start : Option Start
  pub payload : List ℕ

abbrev pub start_of : AudioSector → ℕ → Start
start_of s k = record {
  dst = is_dst s;
  sectors = sector_count_of (s.frame k);
  channels = get_channel_count (s.frame k);
  time = (s.frame k).timecode;
}

-- The audio packets of a sector from `i` on: the next frame info is `k`, the next payload is at `p`.
pub sector_packets : Memory → AudioSector → ℕ → ℕ → ℕ → ℕ → List Packet
sector_packets m s zero i k p = []
sector_packets m s (suc left) i k p =
    let packet = s.packet i in
    let len = packet.packet_length in
    let opens = packet.frame_start in
    let skipped = sector_packets m s left (i + 1) k p in
    let other = sector_packets m s left (i + 1) k (p + len) in
    let first =
      record { start = some (start_of s k); payload = bytes m p len }
      ∷ sector_packets m s left (i + 1) (k + 1) (p + len) in
    let next =
      record { start = none; payload = bytes m p len }
      ∷ sector_packets m s left (i + 1) k (p + len) in
    if ltb max_packet_size len
    then skipped
    else if packet.data_type == data_type_audio
    then if opens then first else next
    else other

-- the audio packets of the sectors from `j` on
pub block_packets : Memory → ℕ → ℕ → AudioSector → List Packet
block_packets m zero j s = []
block_packets m (suc left) j s =
    let p = j * sacd_lsn_size in
    let s' = read_sector m p s in
    sector_packets m s' (packet_info_count s') 0 0 (p + header_size s')
    ++ block_packets m left (j + 1) s'

pub concat : List (List ℕ) → List ℕ
concat [] = []
concat (x ∷ xs) = x ++ concat xs

-- the payloads of the packets up to the next start
pub following : List Packet → List (List ℕ)
following [] = []
following (p ∷ ps) =
    let more = p.payload ∷ following ps in elim p.start [ none ↦ more | some s ↦ [] ]

-- The payloads of a frame make it whole: they fit into the buffer and are not empty, and there are
-- as many of them as the start says, or as many bytes as the channels need.
pub is_whole : Start → List (List ℕ) → Bool
is_whole s payloads =
    let size = length (concat payloads) in
    leb size max_dst_size
    && ltb 0 size
    && (if s.dst then length payloads == s.sectors else size == s.channels * frame_size64)

-- The frames of a sequence of packets: from each start on, what comes up to the next one, where it
-- is whole. What stands before the first start belongs to no frame.
pub frames_of : List Packet → List Frame
frames_of [] = []
frames_of (p ∷ ps) =
    let rest = frames_of ps in
    let payloads = p.payload ∷ following ps in
    elim p.start [
      | none ↦ rest
      | some s ↦ (if is_whole s payloads then (s.time, concat payloads) ∷ [] else []) ++ rest
    ]
