-- ===== src/Dst/Ptables/Tests.antt =====
-- A frame that holds one probability table of two entries.
use sacd_extract.Common.{
  ℕ, ◌+◌, ◌≤◌, ◌<◌, ◌≡◌, inl, refl, arith, get_or, [], ◌∷◌, update, ◌==◌, if◌then◌else◌,
}
use sacd_extract.Common.Int.{pos}
use sacd_extract.Dst.Stream.{Memory}
use sacd_extract.Dst.Stream.Cursor.{at, word_at}
use sacd_extract.Dst.Unpack.{ok, read_bits}
use sacd_extract.Dst.Unpack.Steps.{read_bits_held}
use sacd_extract.Dst.Unpack.Reader.{IsReader}
use sacd_extract.Dst.Coded.{CodedTable, ptable, ccp_calc_init}
use sacd_extract.Dst.Ptables.{Ptables, read_probability_tables, read_ptable, long_table, plain_loop}
use sacd_extract.Dst.Ptables.Range.{IsTable, read_probability_tables-IsTable}

-- 000001 0 0000011 1100011
abbrev frame : Memory
frame i = get_or (0x04 ∷ 0x0f ∷ 0x18 ∷ []) i 0

abbrev cp : CodedTable
cp = ccp_calc_init ptable (record {
  c_pred_order = λ i. 0;
  c_pred_coef = λ method i. pos 0;
  coded = λ i. 0;
  best_method = λ i. pos 0;
  m = λ i method. 0;
})

abbrev no_tables : Ptables
no_tables = record { ptable_len = λ t. 0; p_one = λ t i. 0 }

abbrev one_table : Ptables
one_table = record {
  ptable_len = update (λ t. 0) 0 2;
  p_one = λ t. if 0 == t then update (update (λ i. 0) 0 4) 1 100 else λ i. 0;
}

table_read : read_probability_tables cp 1 0 no_tables (at frame 3 0) ≡ ok one_table (at frame 3 21)
unfolding read_probability_tables read_ptable long_table plain_loop
table_read = rw (len_bits, coded_bit, first_entry, second_entry)
  where
    len_bits : read_bits 6 (at frame 3 0) ≡ ok 1 (at frame 3 6)
    len_bits = rw (read_bits_held frame 3 0 6 (omega arith) (omega arith)) (unfold word_at in refl)

    coded_bit : read_bits 1 (at frame 3 6) ≡ ok 0 (at frame 3 7)
    coded_bit = rw (read_bits_held frame 3 6 1 (omega arith) (omega arith)) (unfold word_at in refl)

    first_entry : read_bits 7 (at frame 3 7) ≡ ok 3 (at frame 3 14)
    first_entry =
        rw (read_bits_held frame 3 7 7 (omega arith) (omega arith)) (unfold word_at in refl)

    second_entry : read_bits 7 (at frame 3 14) ≡ ok 99 (at frame 3 21)
    second_entry =
        rw (read_bits_held frame 3 14 7 (omega arith) (omega arith)) (unfold word_at in refl)

start-IsReader : IsReader frame 3 (at frame 3 0)
start-IsReader = (0, refl, inl (omega arith))

read_probability_tables-IsTable_example :
    ((j : ℕ) → 0 ≤ j → j < 0 + 1 → IsTable frame 3 one_table j)
    × ((j : ℕ) → j < 0 → IsTable frame 3 no_tables j → IsTable frame 3 one_table j)
    × IsReader frame 3 (at frame 3 21)
read_probability_tables-IsTable_example =
    read_probability_tables-IsTable frame 3 cp 1 0 no_tables (at frame 3 0) one_table
      (at frame 3 21) start-IsReader table_read
