-- ===== src/Disc/Frames/Packets/Steps.antt =====
-- Each step of scarletbook_process_frames keeps the frames that are to come.
use sacd_extract.Common.{
  ℕ, ◌+◌, ◌≡◌, refl, ap, ap₂, true, false, ◌&&◌, List, [], ◌∷◌, ◌++◌, ltb, leb, if◌then◌else◌, none,
  some, inl, inr, Bool-cases,
}
use mathlib.Core.List.{append-nil, append_assoc}
use sacd_extract.Common.Int.{pos}
use sacd_extract.Dst.Stream.{Memory}
use sacd_extract.Disc.Sector.{AudioSector, bytes, is_dst, sector_count_of, get_channel_count}
use sacd_extract.Disc.Frames.{
  Frame, AudioFrame, Run, max_dst_size, is_complete, save_frame, start_frame, add_packet,
  append_packet,
}
use sacd_extract.Disc.Frames.Packets.{
  Start, Packet, start_of, following, is_whole, concat, frames_of,
}
use sacd_extract.Disc.Frames.Packets.Pending.{
  close, close-append, close-overflow, close-nil, close-start,
}

-- the frames that are still to come
pub pending : AudioFrame → List Packet → List Frame
pending f ps = if f.started then close f (following ps) ++ frames_of ps else frames_of ps

-- the frames that the callback has got, and those that are to come
abbrev pub promised : Run → List Packet → List Frame
promised r ps = r.frames ++ pending r.handle.frame ps

abbrev pub continued : List ℕ → Packet
continued xs = record { start = none; payload = xs }

pending-on :
    (f : AudioFrame) (ps : List Packet)
    → f.started ≡ true
    → pending f ps ≡ close f (following ps) ++ frames_of ps
unfolding pending
pending-on f ps on = simp on

pub pending-off :
    (f : AudioFrame) (ps : List Packet) → f.started ≡ false → pending f ps ≡ frames_of ps
unfolding pending
pending-off f ps off = simp off

pub promised-save : (r : Run) → (save_frame r).frames ≡ promised r []
unfolding save_frame frames_of following
promised-save r =
    let f = r.handle.frame in
    elim (Bool-cases f.started) [
      | inr off ↦ rw (pending-off f [] off) (simp (off, append-nil))
      | inl on ↦
          rw (pending-on f [] on, close-nil f)
            (elim (Bool-cases (ltb 0 f.size && is_complete f)) [
              | inl whole ↦ simp (on, whole, append-nil)
              | inr part ↦ simp (on, part, append-nil)
            ])
    ]

pub add-promised :
    (m : Memory) (len : ℕ) (r : Run) (ps : List Packet)
    → promised (add_packet m len r) ps ≡ promised r (continued (bytes m r.read_ptr len) ∷ ps)
unfolding add_packet following frames_of
add-promised m len r ps =
    let f = r.handle.frame in
    let next = continued (bytes m r.read_ptr len) ∷ ps in
    elim (Bool-cases f.started) [
      | inr off ↦ rw (pending-off f next off) (simp (off, pending-off f ps off))
      | inl on ↦ elim (Bool-cases (leb (f.size + len) max_dst_size)) [
        | inl room ↦
            let same = close-append m r.read_ptr len f (following ps) room in
            let after =
              pending-on (append_packet m r.read_ptr len f) ps (unfold append_packet in on) in
            rw (pending-on f next on) (simp (on, room, after, same))
        | inr full ↦
            let lost = close-overflow m r.read_ptr len f (following ps) full in
            let after = pending-off (record f { started = false }) ps refl in
            rw (pending-on f next on) (simp (on, full, lost, after))
      ]
    ]

-- the local state besides the frame stays when a frame is saved
pub save-rest :
    (r : Run)
    → ((save_frame r).handle.audio_sector ≡ r.handle.audio_sector)
      × ((save_frame r).frame_info_idx ≡ r.frame_info_idx)
      × ((save_frame r).read_ptr ≡ r.read_ptr)
unfolding save_frame
save-rest r =
    let f = r.handle.frame in
    elim (Bool-cases (f.started && ltb 0 f.size && is_complete f)) [
      | inl whole ↦ rw whole (refl, refl, refl)
      | inr part ↦ rw part (refl, refl, refl)
    ]

-- the frames that a start packet brings: its own, and those behind it
pending-start :
    (f : AudioFrame) (s : Start) (xs : List ℕ) (ps : List Packet)
    → pending f (record { start = some s; payload = xs } ∷ ps)
      ≡ pending f []
        ++ ((if is_whole s (xs ∷ following ps)
              then (s.time, concat (xs ∷ following ps)) ∷ []
              else [])
            ++ frames_of ps)
unfolding pending following frames_of
pending-start f s xs ps = elim (Bool-cases f.started) [
  | inr off ↦ rw off refl
  | inl on ↦ rw (on, append-nil) refl
]

-- the frame of a run that has just started one
opened :
    (r r' : Run) (xs : List (List ℕ))
    → r'.handle.audio_sector ≡ r.handle.audio_sector
    → r'.frame_info_idx ≡ r.frame_info_idx
    → close (start_frame r').handle.frame xs ≡ (
        if is_whole (start_of r.handle.audio_sector r.frame_info_idx) xs
        then ((start_of r.handle.audio_sector r.frame_info_idx).time, concat xs) ∷ []
        else [])
unfolding start_frame
opened r r' xs sec idx =
    close-start (start_of r.handle.audio_sector r.frame_info_idx) (start_frame r').handle.frame xs
      refl (ap is_dst sec) (ap₂ (λ (s : AudioSector) k. pos (sector_count_of (s.frame k))) sec idx)
      (ap₂ (λ (s : AudioSector) k. get_channel_count (s.frame k)) sec idx)
      (ap₂ (λ (s : AudioSector) k. (s.frame k).timecode) sec idx)

start-next :
    (r : Run) (xs : List ℕ) (ps : List Packet)
    → promised (start_frame r) (continued xs ∷ ps)
      ≡ r.frames ++ (close (start_frame r).handle.frame (xs ∷ following ps) ++ frames_of ps)
unfolding start_frame pending following frames_of
start-next r xs ps = refl

pub start-promised :
    (r : Run) (xs : List ℕ) (ps : List Packet)
    → promised (start_frame (save_frame r)) (continued xs ∷ ps)
      ≡ promised r (
          record { start = some (start_of r.handle.audio_sector r.frame_info_idx); payload = xs }
          ∷ ps)
start-promised r xs ps =
    let (sec, idx, ptr) = save-rest r in
    let saved = promised-save r in
    let brought =
      pending-start r.handle.frame (start_of r.handle.audio_sector r.frame_info_idx) xs ps in
    rw (start-next (save_frame r) xs ps, opened r (save_frame r) (xs ∷ following ps) sec idx, saved)
      (rw (brought, append_assoc) refl)
