-- ===== src/Dst/Stream/Fill.antt =====
-- `FillBuffer` puts a frame under the bit reader.
use sacd_extract.Common.{
  ℕ, zero, suc, ◌+◌, ◌≤◌, ◌<◌, ◌≡◌, ◌≢◌, Option, some, none, if◌then◌else◌, arith, update, ltb,
}
use sacd_extract.Dst.Stream.{
  Memory, StrData, reset_reading_index, create_buffer, copy_bytes, fill_buffer,
}
use sacd_extract.Dst.Stream.Cursor.{at}

copy_bytes_lem :
    (left cnt : ℕ) (buf block : Memory) (i : ℕ)
    → copy_bytes left cnt buf block i
      ≡ (if ltb i cnt then block i else if ltb i (cnt + left) then buf i else block i)
unfolding copy_bytes
copy_bytes_lem zero cnt buf block i = ground arith
copy_bytes_lem (suc left) cnt buf block i =
    ground (arith, copy_bytes_lem left (cnt + 1) buf (update block cnt (buf cnt)) i)

-- Where the allocation succeeds the reader stands at the first bit of a copy of the frame, and the
-- bytes behind the copy are those of the block. Where it fails the frame is written through NULL,
-- unless it is empty.
pub fill_buffer_lem :
    (malloc : ℕ → Option Memory) (sd : StrData) (buf : Memory) (size : ℕ)
    → ((block : Memory)
        → malloc size ≡ some block
        → (m : Memory) × (fill_buffer malloc sd buf size ≡ some (at m size 0))
          × ((i : ℕ) → i < size → m i ≡ buf i)
          × ((i : ℕ) → size ≤ i → m i ≡ block i))
      × (malloc size ≡ none → size ≢ 0 → fill_buffer malloc sd buf size ≡ none)
unfolding fill_buffer create_buffer reset_reading_index
fill_buffer_lem malloc sd buf size = (
  (λ block e. (
    copy_bytes size 0 buf block,
    ground arith,
    (λ i h. ground (arith, copy_bytes_lem size 0 buf block i)),
    (λ i h. ground (arith, copy_bytes_lem size 0 buf block i)),
  )),
  (λ e h. ground arith),
)
