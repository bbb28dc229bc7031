-- ===== src/Disc/Frames/Packets/Assembly.antt =====
-- scarletbook_process_frames gives the callback the frames of the packets.
use sacd_extract.Common.{
  ℕ, zero, suc, ◌+◌, ◌*◌, ◌≡◌, refl, sym, ap, ◌∙◌, arith, Bool, true, false, List, [], ◌∷◌, ◌++◌,
  ltb, leb, ◌==◌, if◌then◌else◌, some, inl, inr, Bool-cases, ◌/◌, ◌%◌, ◌^◌, le→ltb,
}
use mathlib.Core.List.{append-nil, append_assoc}
use sacd_extract.Dst.Stream.{Memory}
use sacd_extract.Disc.Sector.{
  PacketInfo, AudioSector, bytes, packet_info_count, read_sector, header_size,
}
use sacd_extract.Disc.Frames.{
  Run, Handle, max_dst_size, max_packet_size, data_type_audio, save_frame, start_frame, add_packet,
  packet_step, packet_loop, block_step, block_loop, run_blocks, scarletbook_process_frames,
  sacd_lsn_size, begin,
}
use sacd_extract.Disc.Frames.Packets.{Packet, start_of, sector_packets, block_packets, frames_of}
use sacd_extract.Disc.Frames.Packets.Steps.{
  promised, continued, promised-save, add-promised, start-promised, save-rest, pending-off,
}

abbrev advance : ℕ → Run → Run
advance len r = record r { read_ptr = r.read_ptr + len }

-- the sector, the next frame info and the place that is read next
abbrev Same : Run → AudioSector → ℕ → ℕ → Type 0
Same r s k p = (r.handle.audio_sector ≡ s) × (r.frame_info_idx ≡ k) × (r.read_ptr ≡ p)

add-rest :
    (m : Memory) (len : ℕ) (r : Run)
    → Same (add_packet m len r) r.handle.audio_sector r.frame_info_idx r.read_ptr
unfolding add_packet
add-rest m len r =
    let f = r.handle.frame in
    elim (Bool-cases f.started) [
      | inr off ↦ (simp off, simp off, simp off)
      | inl on ↦ elim (Bool-cases (leb (f.size + len) max_dst_size)) [
        | inl room ↦ (simp (on, room), simp (on, room), simp (on, room))
        | inr full ↦ (simp (on, full), simp (on, full), simp (on, full))
      ]
    ]

start-rest :
    (r : Run)
    → Same (start_frame (save_frame r)) r.handle.audio_sector (r.frame_info_idx + 1) r.read_ptr
unfolding start_frame
start-rest r = let (s, k, p) = save-rest r in (s, ap (λ (x : ℕ). x + 1) k, p)

-- What a packet of a sector does to a run: nothing, or it goes to the frame, which it may start.
record Does (m : Memory) (packet : PacketInfo) (r r' : Run) : Type 0 where
  sector : r'.handle.audio_sector ≡ r.handle.audio_sector
  keeps :
      (tail : AudioSector → ℕ → ℕ → List Packet)
      → promised r' (tail r'.handle.audio_sector r'.frame_info_idx r'.read_ptr)
        ≡ promised r (
            let s = r.handle.audio_sector in
            let k = r.frame_info_idx in
            let p = r.read_ptr in
            let len = packet.packet_length in
            if ltb max_packet_size len
            then tail s k p
            else if packet.data_type == data_type_audio
            then (if packet.frame_start
                then record { start = some (start_of s k); payload = bytes m p len }
                  ∷ tail s (k + 1) (p + len)
                else continued (bytes m p len) ∷ tail s k (p + len))
            else tail s k (p + len))

step-Does : (m : Memory) (packet : PacketInfo) (r : Run) → Does m packet r (packet_step m packet r)
unfolding packet_step
step-Does m packet r =
    let len = packet.packet_length in
    elim (Bool-cases (ltb max_packet_size len)) [
      | inl big ↦ record { sector = rw big refl; keeps = λ tail. rw big refl }
      | inr small ↦ elim (Bool-cases (packet.data_type == data_type_audio)) [
        | inr other ↦ record {
          sector = rw (small, other) refl;
          keeps = λ tail. rw (small, other) refl;
        }
        | inl audio ↦ elim (Bool-cases packet.frame_start) [
          | inr next ↦
              let (s, k, p) = add-rest m len r in
              record {
                sector = simp (small, audio, next, s);
                keeps = λ tail.
                    simp (small, audio, next)
                      (rw (s, k, p)
                        (add-promised m len r
                          (tail r.handle.audio_sector r.frame_info_idx (r.read_ptr + len))));
              }
          | inl first ↦
              let r1 : Run = start_frame (save_frame r) in
              let (s, k, p) = add-rest m len r1 in
              let (s', k', p') = start-rest r in
              record {
                sector = simp (small, audio, first, s, s');
                keeps = λ tail.
                    let after =
                      tail r.handle.audio_sector (r.frame_info_idx + 1) (r.read_ptr + len) in
                    let head = λ (x : ℕ). promised r (
                      record {
                        start = some (start_of r.handle.audio_sector r.frame_info_idx);
                        payload = bytes m x len;
                      }
                      ∷ after) in
                    simp (small, audio, first)
                      (rw (s ∙ s', k ∙ k', p ∙ p')
                        (add-promised m len r1 after
                          ∙ start-promised r (bytes m r1.read_ptr len) after
                          ∙ ap head p'));
              }
        ]
      ]
    ]

tests-append {ℓ} :
    {A : Type ℓ} (a b c : Bool) (w x y z rest : List A)
    → (if a then w ++ rest else if b then (if c then x ++ rest else y ++ rest) else z ++ rest)
      ≡ (if a then w else if b then (if c then x else y) else z) ++ rest
tests-append true b c w x y z rest = refl
tests-append false false c w x y z rest = refl
tests-append false true false w x y z rest = refl
tests-append false true true w x y z rest = refl

few_packets : (header : ℕ) → ltb 7 (header / 2 ^ 5 % 2 ^ 3) ≡ false
few_packets header = le→ltb 7 (header / 2 ^ 5 % 2 ^ 3) (omega arith)

module _ (m : Memory) where
  pub packet_loop-sector :
      (left i : ℕ) (r : Run) → (packet_loop m left i r).handle.audio_sector ≡ r.handle.audio_sector
  unfolding packet_loop
  packet_loop-sector zero i r = refl
  packet_loop-sector (suc left) i r =
      let packet = r.handle.audio_sector.packet i in
      packet_loop-sector left (i + 1) (packet_step m packet r) ∙ (step-Does m packet r).sector

  packet_loop-promised :
      (left i : ℕ) (r : Run) (rest : List Packet)
      → promised (packet_loop m left i r) rest
        ≡ promised r
            (sector_packets m r.handle.audio_sector left i r.frame_info_idx r.read_ptr ++ rest)
  unfolding packet_loop sector_packets
  packet_loop-promised zero i r rest = refl
  packet_loop-promised (suc left) i r rest =
      let packet = r.handle.audio_sector.packet i in
      let step = step-Does m packet r in
      packet_loop-promised left (i + 1) (packet_step m packet r) rest
      ∙ (step.keeps (λ s k p. sector_packets m s left (i + 1) k p ++ rest))
      ∙ ap (promised r) (
          tests-append (ltb max_packet_size packet.packet_length)
            (packet.data_type == data_type_audio) packet.frame_start
            (sector_packets m r.handle.audio_sector left (i + 1) r.frame_info_idx r.read_ptr) _ _
            (sector_packets m r.handle.audio_sector left (i + 1) r.frame_info_idx
              (r.read_ptr + packet.packet_length))
            rest)

  -- the state in front of the packets of the sector at `p`
  abbrev pub entered : ℕ → Run → Run
  entered p r =
      let sector = read_sector m p r.handle.audio_sector in
      record r {
        handle = record {
          frame = record (r.handle.frame) { started = r.handle.frame.started };
          audio_sector = sector;
          frame_info_idx = 0;
        };
        frame_info_idx = 0;
        read_ptr = p + header_size sector;
        bad_reads = r.bad_reads;
      }

  pub block_step-entered :
      (p : ℕ) (r : Run)
      → block_step m p r
        ≡ packet_loop m (packet_info_count (read_sector m p r.handle.audio_sector)) 0 (entered p r)
  unfolding block_step
  block_step-entered p r =
      let few = few_packets (read_sector m p r.handle.audio_sector).header in simp few

  pub block_loop-promised :
      (left j : ℕ) (r : Run) (rest : List Packet)
      → promised (block_loop m left j r) rest
        ≡ promised r (block_packets m left j r.handle.audio_sector ++ rest)
  unfolding block_loop block_packets
  block_loop-promised zero j r rest = refl
  block_loop-promised (suc left) j r rest =
      let p : ℕ = j * sacd_lsn_size in
      let s' = read_sector m p r.handle.audio_sector in
      let r' = block_step m p r in
      let entry = block_step-entered p r in
      let sector : r'.handle.audio_sector ≡ s' =
        rw entry (packet_loop-sector (packet_info_count s') 0 (entered p r)) in
      let later = block_packets m left (j + 1) s' ++ rest in
      block_loop-promised left (j + 1) r' rest
      ∙ rw (sector, entry)
          (packet_loop-promised (packet_info_count s') 0 (entered p r) later
            ∙ ap (promised r) (
                sym (
                  append_assoc (sector_packets m s' (packet_info_count s') 0 0 (p + header_size s'))
                    (block_packets m left (j + 1) s') rest)))

-- Where no frame is open and the sectors are the last ones, scarletbook_process_frames gives its
-- callback exactly the frames of their packets, in order: what stands between one start and the next,
-- over the ends of packets and of sectors, where it is whole.
pub process_frames-frames_of :
    (m : Memory) (blocks : ℕ) (h : Handle)
    → h.frame.started ≡ false
    → (scarletbook_process_frames m blocks true h).1
      ≡ frames_of (block_packets m blocks 0 h.audio_sector)
unfolding scarletbook_process_frames run_blocks
process_frames-frames_of m blocks h closed =
    promised-save (block_loop m blocks 0 (begin h))
    ∙ block_loop-promised m blocks 0 (begin h) []
    ∙ rw (append-nil) (pending-off h.frame (block_packets m blocks 0 h.audio_sector) closed)
