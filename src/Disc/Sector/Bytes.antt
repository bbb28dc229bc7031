-- ===== src/Disc/Sector/Bytes.antt =====
-- The bytes that memcpy copies.
use sacd_extract.Common.{ℕ, zero, suc, ◌+◌, ◌-◌, ◌<◌, ◌≡◌, refl, ap, ◌∙◌, arith, [], ◌++◌, length}
use sacd_extract.Dst.Stream.{Memory}
use sacd_extract.Common.{Bool, update, ◌*◌, ◌/◌, ◌%◌, ◌^◌, ◌==◌, if◌then◌else◌}
use sacd_extract.Disc.Sector.{
  bytes, memcpy, PacketInfo, FrameInfo, AudioSector, packet_info, packet_infos, timecode_at,
  frame_infos, read_sector,
}

pub length-bytes : (m : Memory) (p n : ℕ) → length (bytes m p n) ≡ n
unfolding bytes
length-bytes m p zero = refl
length-bytes m p (suc n) = omega (arith, length-bytes m (p + 1) n)

pub bytes-append : (m : Memory) (p a b : ℕ) → bytes m p (a + b) ≡ bytes m p a ++ bytes m (p + a) b
unfolding bytes
bytes-append m p zero b =
    let e : zero + b ≡ b = omega arith in let e' : p + zero ≡ p = omega arith in rw (e, e')
bytes-append m p (suc a) b =
    let e : suc a + b ≡ suc (a + b) = omega arith in
    let e' : p + suc a ≡ p + 1 + a = omega arith in rw (e, e', bytes-append m (p + 1) a b)

pub bytes_same :
    (m m' : Memory) (p p' n : ℕ)
    → ((i : ℕ) → i < n → m (p + i) ≡ m' (p' + i))
    → bytes m p n ≡ bytes m' p' n
unfolding bytes
bytes_same m m' p p' zero h = refl
bytes_same m m' p p' (suc n) h =
    let a : p + 0 ≡ p = omega arith in
    let b : p' + 0 ≡ p' = omega arith in
    let first : m p ≡ m' p' = rw (← ap m a) (h 0 (omega arith) ∙ ap m' b) in
    let rest = bytes_same m m' (p + 1) (p' + 1) n (λ i l.
      let c : p + 1 + i ≡ p + suc i = omega arith in
      let d : p' + 1 + i ≡ p' + suc i = omega arith in rw (c, d) (h (suc i) (omega arith))) in
    rw (first, rest)

-- The bytes that have been copied stand behind those that were there.
pub bytes-memcpy :
    (to m : Memory) (size p n : ℕ)
    → bytes (memcpy to size m p n) 0 (size + n) ≡ bytes to 0 size ++ bytes m p n
bytes-memcpy to m size p n =
    let old : bytes (memcpy to size m p n) 0 size ≡ bytes to 0 size =
      bytes_same _ to 0 0 size (λ i l. before i l) in
    let new : bytes (memcpy to size m p n) (0 + size) n ≡ bytes m p n =
      bytes_same _ m (0 + size) p n (λ i l. behind i l) in
    rw (bytes-append (memcpy to size m p n) 0 size n, old, new)
  where
    before : (i : ℕ) → i < size → memcpy to size m p n (0 + i) ≡ to (0 + i)
    before i l = let e : 0 + i ≡ i = omega arith in rw e (unfold memcpy in ground arith)

    behind : (i : ℕ) → i < n → memcpy to size m p n (0 + size + i) ≡ m (p + i)
    behind i l =
        let e : 0 + size + i ≡ size + i = omega arith in
        let d : size + i - size ≡ i = omega arith in rw e (unfold memcpy in ground (arith, d))

pub bytes-zero : (m : Memory) (p : ℕ) → bytes m p 0 ≡ []
unfolding bytes
bytes-zero m p = refl

-- what lies in memory from `o` on
abbrev pub from : Memory → ℕ → Memory
from m o i = m (o + i)

module _ (m : Memory) (o : ℕ) where
  pub bytes_from : (p n : ℕ) → bytes (from m o) p n ≡ bytes m (o + p) n
  bytes_from p n =
      bytes_same (from m o) m p (o + p) n
        (λ i l. let e : o + (p + i) ≡ o + p + i = omega arith in ap m e)

  packet_info-from : (p : ℕ) → packet_info (from m o) p ≡ packet_info m (o + p)
  unfolding packet_info
  packet_info-from p = let e : o + (p + 1) ≡ o + p + 1 = omega arith in rw e refl

  packet_infos-from :
      (left i p : ℕ) (packet : ℕ → PacketInfo)
      → packet_infos left i p (from m o) packet ≡ packet_infos left i (o + p) m packet
  unfolding packet_infos
  packet_infos-from zero i p packet = refl
  packet_infos-from (suc left) i p packet =
      let e : o + (p + 2) ≡ o + p + 2 = omega arith in
      rw (packet_info-from p, ← e)
        (packet_infos-from left (i + 1) (p + 2) (update packet i (packet_info m (o + p))))

  timecode-from : (p : ℕ) → timecode_at (from m o) p ≡ timecode_at m (o + p)
  unfolding timecode_at
  timecode-from p =
      let e : o + (p + 1) ≡ o + p + 1 = omega arith in
      let d : o + (p + 2) ≡ o + p + 2 = omega arith in rw (e, d) refl

  frame_infos-from :
      (dst : Bool) (left i p : ℕ) (frame : ℕ → FrameInfo)
      → frame_infos dst left i p (from m o) frame ≡ frame_infos dst left i (o + p) m frame
  unfolding frame_infos
  frame_infos-from dst zero i p frame = refl
  frame_infos-from dst (suc left) i p frame =
      let n : ℕ = if dst then 4 else 3 in
      let e : o + (p + n) ≡ o + p + n = omega arith in
      let d : o + (p + 3) ≡ o + p + 3 = omega arith in
      frame_infos-from dst left (i + 1) (p + n) _ ∙ rw (timecode-from p, e, d) refl

  pub read_sector-from :
      (p : ℕ) (s : AudioSector) → read_sector (from m o) p s ≡ read_sector m (o + p) s
  unfolding read_sector
  read_sector-from p s =
      let n : ℕ = m (o + p) / 2 ^ 5 % 2 ^ 3 in
      let e : o + (p + 1) ≡ o + p + 1 = omega arith in
      let d : o + (p + 1 + 2 * n) ≡ o + p + 1 + 2 * n = omega arith in
      rw
        (
          packet_infos-from n 0 (p + 1) s.packet,
          frame_infos-from (m (o + p) % 2 == 1) (m (o + p) / 2 ^ 2 % 2 ^ 3) 0 (p + 1 + 2 * n)
              s.frame,
          e,
          d,
        )
        refl
