-- ===== src/Disc/Frames/Packets/Split.antt =====
-- The sectors of a track may come in several calls of scarletbook_process_frames.
use sacd_extract.Common.{
  ℕ, zero, suc, ◌+◌, ◌*◌, ◌≡◌, refl, sym, ap, ◌∙◌, arith, true, false, [], ◌++◌,
}
use mathlib.Core.List.{append-nil, append_assoc}
use sacd_extract.Dst.Stream.{Memory}
use sacd_extract.Disc.Sector.{AudioSector, packet_info_count, read_sector, header_size}
use sacd_extract.Disc.Sector.Bytes.{bytes_from, read_sector-from, from}
use sacd_extract.Disc.Frames.{
  Run, Handle, block_step, block_loop, run_blocks, scarletbook_process_frames, sacd_lsn_size, begin,
  save_frame,
}
use sacd_extract.Disc.Frames.Packets.{sector_packets, block_packets}
use sacd_extract.Disc.Frames.Packets.Steps.{promised, promised-save}
use sacd_extract.Disc.Frames.Packets.Assembly.{
  block_loop-promised, block_step-entered, packet_loop-sector, entered,
}

module _ (m : Memory) (o : ℕ) where
  sector_packets-from :
      (s : AudioSector) (left i k p : ℕ)
      → sector_packets (from m o) s left i k p ≡ sector_packets m s left i k (o + p)
  unfolding sector_packets
  sector_packets-from s zero i k p = refl
  sector_packets-from s (suc left) i k p =
      let len : ℕ = (s.packet i).packet_length in
      let e : o + p + len ≡ o + (p + len) = omega arith in
      rw
        (
          e,
          sector_packets-from s left (i + 1) k p,
          sector_packets-from s left (i + 1) k (p + len),
          sector_packets-from s left (i + 1) (k + 1) (p + len),
          bytes_from m o p len,
        )
        refl

-- the sectors from `j` on stand at the start of the buffer of a later call
block_packets-from :
    (m : Memory) (a left j : ℕ) (s : AudioSector)
    → block_packets (from m (a * sacd_lsn_size)) left j s ≡ block_packets m left (a + j) s
unfolding block_packets
block_packets-from m a zero j s = refl
block_packets-from m a (suc left) j s =
    let o : ℕ = a * sacd_lsn_size in
    let p : ℕ = j * sacd_lsn_size in
    let at : (a + j) * sacd_lsn_size ≡ o + p = omega arith in
    let s' = read_sector m (o + p) s in
    let e : o + p + header_size s' ≡ o + (p + header_size s') = omega arith in
    let next : a + j + 1 ≡ a + (j + 1) = omega arith in
    rw
      (
        at,
        read_sector-from m o p s,
        sector_packets-from m o s' (packet_info_count s') 0 0 (p + header_size s'),
        e,
        next,
        block_packets-from m a left (j + 1) s',
      )
      refl

last_sector : Memory → ℕ → ℕ → AudioSector → AudioSector
last_sector m zero j s = s
last_sector m (suc left) j s = last_sector m left (j + 1) (read_sector m (j * sacd_lsn_size) s)

block_loop-last_sector :
    (m : Memory) (left j : ℕ) (r : Run)
    → (block_loop m left j r).handle.audio_sector ≡ last_sector m left j r.handle.audio_sector
unfolding block_loop last_sector
block_loop-last_sector m zero j r = refl
block_loop-last_sector m (suc left) j r =
    let p : ℕ = j * sacd_lsn_size in
    let s' = read_sector m p r.handle.audio_sector in
    let sector : (block_step m p r).handle.audio_sector ≡ s' =
      rw (block_step-entered m p r)
        (packet_loop-sector m (packet_info_count s') 0 (entered m p r)) in
    block_loop-last_sector m left (j + 1) (block_step m p r)
    ∙ ap (last_sector m left (j + 1)) sector

block_packets-append :
    (m : Memory) (a b j : ℕ) (s : AudioSector)
    → block_packets m (a + b) j s
      ≡ block_packets m a j s ++ block_packets m b (a + j) (last_sector m a j s)
unfolding block_packets last_sector
block_packets-append m zero b j s =
    let e : zero + b ≡ b = omega arith in let d : zero + j ≡ j = omega arith in rw (e, d) refl
block_packets-append m (suc a) b j s =
    let e : suc a + b ≡ suc (a + b) = omega arith in
    let d : suc a + j ≡ a + (j + 1) = omega arith in
    rw
      (e, d, block_packets-append m a b (j + 1) (read_sector m (j * sacd_lsn_size) s), append_assoc)
      refl

-- Two calls of scarletbook_process_frames, the second one with the last sectors, give the callback
-- the same frames as one call with all the sectors: a frame may begin in one call and end in
-- the other.
pub process_frames-split :
    (m : Memory) (a b : ℕ) (h : Handle)
    → (scarletbook_process_frames m a false h).1
        ++ (scarletbook_process_frames
            (from m (a * sacd_lsn_size))
            b
            true
            (scarletbook_process_frames m a false h).0).1
      ≡ (scarletbook_process_frames m (a + b) true h).1
unfolding scarletbook_process_frames run_blocks
process_frames-split m a b h =
    let s = h.audio_sector in
    let r1 = block_loop m a 0 (begin h) in
    let m' = from m (a * sacd_lsn_size) in
    let later = block_packets m b (a + 0) (last_sector m a 0 s) in
    let second : (save_frame (block_loop m' b 0 (begin r1.handle))).frames
        ≡ promised (begin r1.handle) later =
      promised-save (block_loop m' b 0 (begin r1.handle))
      ∙ block_loop-promised m' b 0 (begin r1.handle) []
      ∙ rw
          (
            append-nil,
            block_packets-from m a b 0 r1.handle.audio_sector,
            block_loop-last_sector m a 0 (begin h),
          )
          refl in
    let whole =
      promised-save (block_loop m (a + b) 0 (begin h))
      ∙ block_loop-promised m (a + b) 0 (begin h) [] in
    rw (second, whole)
      (sym (
        rw (append-nil, block_packets-append m a b 0 s)
          (sym (block_loop-promised m a 0 (begin h) later))))
