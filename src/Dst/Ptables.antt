-- ===== src/Dst/Ptables.antt =====
-- ReadProbabilityTables of src/libdstdec/unpack_dst.c.
pub mod Range
mod Tests
use sacd_extract.Common.{
  ℕ, zero, suc, ◌+◌, ◌-◌, ◌*◌, ◌^◌, ltb, leb, ◌==◌, ◌||◌, if◌then◌else◌, update, Bool, true, false,
}
use sacd_extract.Common.Int.{ℤ, pos, negsuc, ltb_ℤ, pos_part}
use sacd_extract.Dst.Unpack.{
  Unpack, ◌>>=◌, give, fail, never, read_bits, invalid_ptable_coding, invalid_ptable_range,
}
use sacd_extract.Dst.Rice.{rice_decode}
use sacd_extract.Dst.Coded.{
  CodedTable, rice_methods, tap_loop, correct, size_ricemethod, size_ricem,
}

abbrev pub ac_bits : ℕ
ac_bits = 8

abbrev pub ac_hisbits : ℕ
ac_hisbits = 6

abbrev pub ac_hismax : ℕ
ac_hismax = 2 ^ ac_hisbits

-- P_one[nr], with `v` at `i`
abbrev pub Row : Type 0
Row = ℕ → ℕ

-- for (EntryNr = ...) { read AC_BITS - 1 bits; P_one[PtableNr][EntryNr]++; }, with the entries that
-- are left
pub plain_loop : ℕ → ℕ → Row → Unpack Row
plain_loop zero entry_nr row = give row
plain_loop (suc left) entry_nr row =
    read_bits (ac_bits - 1) >>= λ v. plain_loop left (entry_nr + 1) (update row entry_nr (v + 1))

-- for (EntryNr = CPredOrder[bestmethod]; ...), with the entries that are left
pub coded_loop : CodedTable → ℕ → ℕ → ℕ → ℕ → Row → Unpack Row
coded_loop cp bestmethod m zero entry_nr row = give row
coded_loop cp bestmethod m (suc left) entry_nr row =
    let x =
      tap_loop (cp.c_pred_order bestmethod) (cp.c_pred_coef bestmethod) (λ i. pos (row i)) entry_nr
        0 (pos 0) in
    let rest = rice_decode m >>= λ r.
    let c = correct r x in
    let next = coded_loop cp bestmethod m left (entry_nr + 1) (update row entry_nr (pos_part c)) in
    if ltb_ℤ c (pos 1) || ltb_ℤ (pos (2 ^ (ac_bits - 1))) c
    then fail invalid_ptable_range
    else next in
    if ltb ac_hismax entry_nr then fail invalid_ptable_range else rest

-- A table that is coded. `never` is a read behind the end of CPredOrder, which has one cell for each
-- of the three methods.
pub coded_table : CodedTable → ℕ → Row → Unpack Row
coded_table cp ptable_len row = read_bits size_ricemethod >>= λ bestmethod.
    let order = cp.c_pred_order bestmethod in
    if leb rice_methods bestmethod
    then never
    else if leb ptable_len order
    then fail invalid_ptable_coding
    else (plain_loop order 0 row >>= λ row'.
        read_bits size_ricem >>= λ m. coded_loop cp bestmethod m (ptable_len - order) order row')

-- one table of more than one entry
pub long_table : CodedTable → ℕ → Row → Unpack Row
long_table cp ptable_len row = read_bits 1 >>= λ coded.
    if coded == 0 then plain_loop ptable_len 0 row else coded_table cp ptable_len row

-- PtableLen and P_one
pub record Ptables : Type 0 where
  pub ptable_len : ℕ → ℕ
  pub p_one : ℕ → Row

-- the body of the loop over the tables
unfoldable pub read_ptable : CodedTable → ℕ → Ptables → Unpack Ptables
read_ptable cp ptable_nr pt = read_bits ac_hisbits >>= λ v.
    let len = v + 1 in
    let row =
      if ltb 1 len
      then long_table cp len (pt.p_one ptable_nr)
      else give (update (pt.p_one ptable_nr) 0 128) in
    row >>= λ row'. give (record {
      ptable_len = update pt.ptable_len ptable_nr len;
      p_one = λ t. if ptable_nr == t then row' else pt.p_one t;
    })

-- for (PtableNr = 0; PtableNr < FH->NrOfPtables; PtableNr++), with the tables that are left. What is
-- kept of Coded, BestMethod and m is not read again.
unfoldable pub read_probability_tables : CodedTable → ℕ → ℕ → Ptables → Unpack Ptables
read_probability_tables cp zero ptable_nr pt = give pt
read_probability_tables cp (suc left) ptable_nr pt =
    read_ptable cp ptable_nr pt >>= read_probability_tables cp left (ptable_nr + 1)
