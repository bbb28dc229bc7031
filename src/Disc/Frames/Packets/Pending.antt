-- ===== src/Disc/Frames/Packets/Pending.antt =====
-- What becomes of a frame that has been started, from the packets that follow.
use sacd_extract.Common.{
  ℕ, zero, suc, ◌+◌, ◌*◌, ◌≤◌, ◌≡◌, refl, arith, Bool, true, false, ◌&&◌, ◌||◌, List, [], ◌∷◌, ◌++◌,
  ltb, leb, ◌==◌, if◌then◌else◌, length, length-append, inl, inr, Bool-cases,
}
use mathlib.Core.List.{append-nil, append_assoc}
use sacd_extract.Common.Int.{ℤ, sub_ℕ, pos, ◌-ℤ◌}
use sacd_extract.Dst.Stream.{Memory}
use sacd_extract.Disc.Sector.{bytes}
use sacd_extract.Disc.Sector.Bytes.{length-bytes, bytes-memcpy, bytes-zero}
use sacd_extract.Disc.Frames.{
  Frame, AudioFrame, max_dst_size, frame_size64, is_zero, is_complete, append_packet,
}
use sacd_extract.Disc.Frames.Packets.{Start, concat, is_whole}

-- Each packet fits into the buffer when it comes.
pub fits : ℕ → List (List ℕ) → Bool
fits size [] = true
fits size (x ∷ xs) = leb (size + length x) max_dst_size && fits (size + length x) xs

pub count_down : ℤ → ℕ → ℤ
count_down z zero = z
count_down z (suc n) = count_down (z -ℤ pos 1) n

pub ends_whole : AudioFrame → List (List ℕ) → Bool
ends_whole f xs =
    let size = f.size + length (concat xs) in
    fits f.size xs
    && ltb 0 size
    && (if f.dst_encoded
        then is_zero (count_down f.sector_count (length xs))
        else size == f.channel_count * frame_size64)

-- the frame that the payloads `xs` complete
pub close : AudioFrame → List (List ℕ) → List Frame
close f xs =
    if ends_whole f xs then (f.timecode, bytes f.contents 0 f.size ++ concat xs) ∷ [] else []

ends_whole-append :
    (m : Memory) (p len : ℕ) (f : AudioFrame) (xs : List (List ℕ))
    → leb (f.size + len) max_dst_size ≡ true
    → ends_whole (append_packet m p len f) xs ≡ ends_whole f (bytes m p len ∷ xs)
unfolding ends_whole append_packet concat fits count_down
ends_whole-append m p len f xs room =
    let n = length-bytes m p len in
    let sum : f.size + length (bytes m p len ++ concat xs) ≡ f.size + len + length (concat xs) =
      omega (arith, length-append (bytes m p len) (concat xs), n) in
    elim (Bool-cases f.dst_encoded) [
      | inl dst ↦ rw (sum, n, room, dst) refl
      | inr plain ↦ rw (sum, n, room, plain) refl
    ]

pub close-append :
    (m : Memory) (p len : ℕ) (f : AudioFrame) (xs : List (List ℕ))
    → leb (f.size + len) max_dst_size ≡ true
    → close (append_packet m p len f) xs ≡ close f (bytes m p len ∷ xs)
unfolding close concat append_packet
close-append m p len f xs room =
    let copied = bytes-memcpy f.contents m f.size p len in
    rw (ends_whole-append m p len f xs room, copied, append_assoc) refl

pub close-overflow :
    (m : Memory) (p len : ℕ) (f : AudioFrame) (xs : List (List ℕ))
    → leb (f.size + len) max_dst_size ≡ false
    → close f (bytes m p len ∷ xs) ≡ []
unfolding close ends_whole fits
close-overflow m p len f xs full = rw (length-bytes m p len, full) refl

or_false : (b : Bool) → (b || false) ≡ b
or_false true = refl
or_false false = refl

pub close-nil :
    (f : AudioFrame)
    → close f []
      ≡ (if ltb 0 f.size && is_complete f then (f.timecode, bytes f.contents 0 f.size) ∷ [] else [])
unfolding close ends_whole is_complete fits concat count_down
close-nil f =
    let zero_more : f.size + 0 ≡ f.size = omega arith in
    elim (Bool-cases f.dst_encoded) [
      | inl dst ↦ rw (dst, zero_more, append-nil, or_false) refl
      | inr plain ↦ rw (plain, zero_more, append-nil) refl
    ]

sub_one : (a b : ℕ) → sub_ℕ a b -ℤ pos 1 ≡ sub_ℕ a (b + 1)
unfolding ◌-ℤ◌
sub_one a b = ground arith

count_down-sub : (n a b : ℕ) → is_zero (count_down (sub_ℕ a b) n) ≡ (b + n == a)
unfolding count_down
count_down-sub zero a b = let e : b + 0 ≡ b = omega arith in rw e (ground arith)
count_down-sub (suc n) a b =
    let e : b + suc n ≡ b + 1 + n = omega arith in rw (sub_one a b, e) (count_down-sub n a (b + 1))

count_down-pos : (s n : ℕ) → is_zero (count_down (pos s) n) ≡ (n == s)
count_down-pos s n =
    let e : pos s ≡ sub_ℕ s 0 = ground arith in
    let z : 0 + n ≡ n = omega arith in rw (e, count_down-sub n s 0, z) refl

fits-all :
    (size : ℕ) (xs : List (List ℕ))
    → size ≤ max_dst_size
    → fits size xs ≡ leb (size + length (concat xs)) max_dst_size
unfolding fits concat
fits-all size [] h = ground arith
fits-all size (x ∷ xs) h =
    ground (arith, fits-all (size + length x) xs, length-append x (concat xs))

-- what a frame is that starts with these payloads
pub close-start :
    (s : Start) (f : AudioFrame) (xs : List (List ℕ))
    → f.size ≡ 0
    → f.dst_encoded ≡ s.dst
    → f.sector_count ≡ pos s.sectors
    → f.channel_count ≡ s.channels
    → f.timecode ≡ s.time
    → close f xs ≡ (if is_whole s xs then (s.time, concat xs) ∷ [] else [])
unfolding close ends_whole is_whole
close-start s f xs size dst sectors channels time =
    let sum : 0 + length (concat xs) ≡ length (concat xs) = omega arith in
    rw
      (
        size,
        dst,
        sectors,
        channels,
        time,
        bytes-zero f.contents 0,
        fits-all 0 xs (omega arith),
        sum,
        count_down-pos s.sectors (length xs),
      )
      refl
