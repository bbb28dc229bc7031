-- ===== src/Dst/Arith.antt =====
-- The arithmetic decoder: the LT_AC functions of src/libdstdec/dst_fram.c and the one function of
-- src/libdstdec/dst_ac.c that does the work of three of them.
pub mod Code
pub mod Interval
pub mod Start
pub mod Flush
pub mod Reference
mod Tests
use sacd_extract.Common.{
  ℕ, zero, suc, ◌+◌, ◌-◌, ◌*◌, ◌/◌, ◌%◌, ◌^◌, bit_and, bit_or, Bool, true, false, ◌&&◌, Option,
  none, some, ltb, leb, ◌==◌, if◌then◌else◌,
}
use sacd_extract.Common.Int.{ℤ, pos, negsuc, sub_ℕ, pos_part, neg_part}
use sacd_extract.Dst.Stream.{Memory}

abbrev pub pbits : ℕ
pbits = 8

abbrev pub abits : ℕ
abits = 12

abbrev pub one : ℕ
one = 2 ^ abits

abbrev pub half : ℕ
half = 2 ^ (abits - 1)

-- AC_QSTEP
abbrev pub ac_qstep : ℕ
ac_qstep = 3

abbrev pub u32 : ℕ → ℕ
u32 x = x % 2 ^ 32

pub record AcData : Type 0 where
  pub init : ℕ
  pub c : ℕ
  pub a : ℕ
  pub cbptr : ℕ

-- AC->C <<= 1; if (AC->cbptr < fs) AC->C |= cb[AC->cbptr];
pub shift_in : Memory → ℕ → ℕ → ℕ → ℕ
shift_in cb fs cbptr c = if ltb cbptr fs then bit_or (u32 (2 * c)) (cb cbptr) else u32 (2 * c)

-- for (...; AC->cbptr <= ABITS; AC->cbptr++), with the rounds that are left
pub init_loop : ℕ → Memory → ℕ → AcData → AcData
init_loop zero cb fs ac = ac
init_loop (suc left) cb fs ac =
    init_loop left cb fs (record ac { c = shift_in cb fs ac.cbptr ac.c; cbptr = ac.cbptr + 1 })

pub lt_ac_decode_bit_init : Memory → ℕ → AcData
lt_ac_decode_bit_init cb fs =
    init_loop abits cb fs (record { init = 0; c = 0; a = one - 1; cbptr = 1 })

-- while (AC->A < HALF): `none` where the fuel runs out.
pub renormalise : ℕ → Memory → ℕ → AcData → Option AcData
renormalise zero cb fs ac = if ltb ac.a half then none else some ac
renormalise (suc fuel) cb fs ac =
    let rest =
      renormalise fuel cb fs (record ac {
        a = u32 (2 * ac.a);
        c = shift_in cb fs ac.cbptr ac.c;
        cbptr = ac.cbptr + 1;
      }) in
    if ltb ac.a half then rest else some ac

-- the part of A that belongs to a 0 bit: A * p with "partial rounding"
pub share : ℕ → ℕ → ℕ
share a p = u32 (bit_or (a / 2 ^ pbits) (bit_and (a / 2 ^ (pbits - 1)) 1) * p)

-- A register of 12 bits that is not 0 reaches HALF in 11 rounds.
abbrev pub rounds : ℕ
rounds = 12

-- The bit decoded and the new state; `p`, out of 256, is the part of the interval that a 0 bit has.
pub lt_ac_decode_bit_decode : AcData → ℕ → Memory → ℕ → Option (ℕ × AcData)
lt_ac_decode_bit_decode ac p cb fs =
    let ap = share ac.a p in
    let h = u32 (ac.a + 2 ^ 32 - ap) in
    if leb h ac.c
    then (elim (renormalise rounds cb fs (record ac { c = ac.c - h; a = ap })) [
      | none ↦ none
      | some ac' ↦ some (0, ac')
    ])
    else (elim (renormalise rounds cb fs (record ac { a = h })) [
      | none ↦ none
      | some ac' ↦ some (1, ac')
    ])

-- while ((AC->cbptr < fs) && (*b == 1)), with the rounds that are left: `b` and `cbptr`
pub flush_loop : ℕ → Memory → ℕ → ℕ → ℕ → ℕ × ℕ
flush_loop zero cb fs b cbptr = (b, cbptr)
flush_loop (suc left) cb fs b cbptr =
    let b' = if cb cbptr == 0 then b else 1 in
    let rest = flush_loop left cb fs b' (cbptr + 1) in
    if ltb cbptr fs && b == 1 then rest else (b, cbptr)

-- At most `fs - cbptr` rounds are made.
pub lt_ac_decode_bit_flush : AcData → Memory → ℕ → ℕ × AcData
lt_ac_decode_bit_flush ac cb fs =
    if ltb (ac.cbptr + 7) fs
    then (0, record ac { init = 1 })
    else let (b, cbptr') = flush_loop (fs - ac.cbptr) cb fs 1 ac.cbptr in
      (b, record ac { init = 1; cbptr = cbptr' })

-- PtableLen - 1 is -1 for an empty table.
pub lt_ac_get_ptable_index : ℤ → ℕ → ℤ
lt_ac_get_ptable_index predic_val ptable_len =
    let j = (pos_part predic_val + neg_part predic_val) / 2 ^ ac_qstep in
    if leb ptable_len j then sub_ℕ ptable_len 1 else pos j

-- DST_ACDecodeBit of dst_ac.c: it restarts by itself where a flush came before.
pub dst_ac_decode_bit : AcData → ℕ → Memory → ℕ → ℕ → Option (ℕ × AcData)
dst_ac_decode_bit ac p cb fs flush =
    let ready =
      if ac.init == 1
      then init_loop abits cb fs (record { init = 0; c = 0; a = one - 1; cbptr = 1 })
      else ac in
    if flush == 0
    then (let ap = share ready.a p in
        let h = u32 (ready.a + 2 ^ 32 - ap) in
        if leb h ready.c
        then (elim (renormalise rounds cb fs (record ready { c = ready.c - h; a = ap })) [
          | none ↦ none
          | some ac' ↦ some (0, ac')
        ])
        else (elim (renormalise rounds cb fs (record ready { a = h })) [
          | none ↦ none
          | some ac' ↦ some (1, ac')
        ]))
    else some (
        if ltb (ready.cbptr + 7) fs
        then (0, record ready { init = 1 })
        else let (b, cbptr') = flush_loop (fs - ready.cbptr) cb fs 1 ready.cbptr in
          (b, record ready { init = 1; cbptr = cbptr' }))
