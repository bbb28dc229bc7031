-- ===== src/Dst/Stream.antt =====
-- src/libdstdec/dst_data.c: the bit reader of the DST decoder over the buffer that holds one frame.
pub mod Cursor
pub mod Reads
pub mod Getbits
pub mod Fill
mod Tests
use sacd_extract.Common.{
  ℕ, zero, suc, ◌+◌, ◌-◌, ◌*◌, ◌/◌, ◌%◌, ◌^◌, min, bit_and, bit_or, Bool, true, false, Option, none,
  some, List, [], ◌∷◌, ltb, leb, ◌==◌, if◌then◌else◌, get_or, update,
}
use sacd_extract.Common.Int.{ℤ, pos, negsuc, leb_ℤ, ◌-ℤ◌}

-- What lies in memory from a buffer's address on, byte by byte, behind the buffer's end too.
abbrev pub Memory : Type 0
Memory = ℕ → ℕ

-- `StrData`. The pointer is `none` where it is NULL. `ByteCounter` does not wrap: it exceeds
-- `TotalBytes` only by the number of reads that failed.
pub record StrData : Type 0 where
  pub p_dst_data : Option Memory
  pub total_bytes : ℕ
  pub byte_counter : ℕ
  pub bit_position : ℕ
  pub data_byte : ℕ

-- The return values 0 and -1 (EOF).
pub data Code : Type 0 where
  done eof : Code

-- What a read leaves: the return value, what went through the out pointer, and the reader.
-- `fault` is a read through NULL, or a loop of the model that ran out of fuel.
pub data Reply (A : Type 0) : Type 0 where
  ret : Code → A → StrData → Reply A
  fault : Reply A

unfoldable pub reset_reading_index : StrData → StrData
reset_reading_index sd = record sd { bit_position = 0; byte_counter = 0; data_byte = 0 }

-- `malloc` returns what it finds in the new block, or NULL.
unfoldable pub create_buffer : (ℕ → Option Memory) → StrData → ℕ → Code × StrData
create_buffer malloc sd size = elim (malloc size) [
  | none ↦ (eof, reset_reading_index (record sd { p_dst_data = none; total_bytes = 0 }))
  | some block ↦
      (done, reset_reading_index (record sd { p_dst_data = some block; total_bytes = size }))
]

-- It forgets the size, keeps the block, and reports -1 where there is one.
pub delete_buffer : StrData → Code × StrData
delete_buffer sd =
    let cleared = reset_reading_index (record sd { total_bytes = 0 }) in
    elim sd.p_dst_data [ none ↦ (done, cleared) | some block ↦ (eof, cleared) ]

-- for (cnt = 0; cnt < Size; cnt++): the bytes `cnt` to `cnt + left - 1` are still to be copied.
unfoldable pub copy_bytes : ℕ → ℕ → Memory → Memory → Memory
copy_bytes zero cnt buf block = block
copy_bytes (suc left) cnt buf block = copy_bytes left (cnt + 1) buf (update block cnt (buf cnt))

-- The return value of CreateBuffer is not looked at. `none` is a write through NULL.
unfoldable pub fill_buffer : (ℕ → Option Memory) → StrData → Memory → ℕ → Option StrData
fill_buffer malloc sd buf size =
    let made = (create_buffer malloc sd size).1 in
    elim made.p_dst_data [
      | none ↦ if size == 0 then some (reset_reading_index made) else none
      | some block ↦
          some
            (reset_reading_index (record made { p_dst_data = some (copy_bytes size 0 buf block) }))
    ]

unfoldable pub get_in_bitcount : StrData → ℕ
get_in_bitcount sd = sd.byte_counter * 8 - sd.bit_position

-- The next byte, where no bit of the last one is left.
pub data Refill : Type 0 where
  ready : StrData → Refill
  at_eof : StrData → Refill
  null_read : Refill

pub refill : StrData → Refill
refill sd =
    if sd.bit_position == 0
    then elim sd.p_dst_data [
      | none ↦ null_read
      | some m ↦
          let next = record sd {
            data_byte = m sd.byte_counter;
            byte_counter = sd.byte_counter + 1;
          } in
          if ltb sd.total_bytes (sd.byte_counter + 1)
          then at_eof next
          else ready (record next { bit_position = 8 })
    ]
    else ready sd

abbrev pub masks : List ℕ
masks = 0 ∷ 1 ∷ 3 ∷ 7 ∷ 0xf ∷ 0x1f ∷ 0x3f ∷ 0x7f ∷ 0xff ∷ []

-- `chunk`, which lies `shift` places up, moved to where `rest` more bits fit below it.
pub align : ℕ → ℕ → ℕ → ℕ
align chunk rest shift =
    if leb rest shift then chunk / 2 ^ (shift - rest) else chunk * 2 ^ (rest - shift)

-- One round of the loop behind the refill: what `outword` becomes, and the reader.
pub take_bits : StrData → ℕ → ℕ → ℕ → ℕ × StrData
take_bits sd outword out_bitptr thisbits =
    let shift = sd.bit_position - thisbits in
    let chunk = bit_and sd.data_byte (get_or masks thisbits 0 * 2 ^ shift) in
    (bit_or outword (align chunk (out_bitptr - thisbits) shift), record sd { bit_position = shift })

-- while (out_bitptr > 0): each round takes one bit at least.
pub getbits_loop : ℕ → StrData → ℕ → ℕ → Reply ℕ
getbits_loop zero sd outword out_bitptr = if out_bitptr == 0 then ret done outword sd else fault
getbits_loop (suc fuel) sd outword out_bitptr =
    if out_bitptr == 0 then ret done outword sd else elim (refill sd) [
      | ready full ↦
          let thisbits = min full.bit_position out_bitptr in
          let (outword', sd') = take_bits full outword out_bitptr thisbits in
          getbits_loop fuel sd' outword' (out_bitptr - thisbits)
      | at_eof sd' ↦ ret eof outword sd'
      | null_read ↦ fault
    ]

-- The path for a single bit leaves `*outword` alone at the end of the file.
pub getbit : StrData → ℕ → Reply ℕ
getbit sd outword = elim (refill sd) [
  | ready full ↦
      let shift = full.bit_position - 1 in
      ret done (bit_and (full.data_byte / 2 ^ shift) 1) (record full { bit_position = shift })
  | at_eof sd' ↦ ret eof outword sd'
  | null_read ↦ fault
]

pub getbits : StrData → ℕ → ℕ → Reply ℕ
getbits sd outword out_bitptr =
    if out_bitptr == 1 then getbit sd outword else getbits_loop out_bitptr sd 0 out_bitptr
