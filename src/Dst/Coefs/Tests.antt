-- ===== src/Dst/Coefs/Tests.antt =====
-- A frame that holds one filter of two coefficients.
use sacd_extract.Common.{
  ℕ, ◌+◌, ◌≤◌, ◌<◌, ◌≡◌, inl, refl, arith, get_or, [], ◌∷◌, update, ◌==◌, if◌then◌else◌,
}
use sacd_extract.Common.Int.{ℤ, pos}
use sacd_extract.Dst.Stream.{Memory}
use sacd_extract.Dst.Stream.Cursor.{at, word_at}
use sacd_extract.Dst.Unpack.{ok, read_bits, read_short}
use sacd_extract.Dst.Unpack.Steps.{read_bits_held}
use sacd_extract.Dst.Unpack.Reader.{IsReader}
use sacd_extract.Dst.Unpack.Short.{read_short_held}
use sacd_extract.Dst.Coded.{CodedTable, filter, ccp_calc_init}
use sacd_extract.Dst.Coefs.{Filters, clear_rest, read_filters, read_filter, plain_coef_loop}
use sacd_extract.Dst.Coefs.Range.{IsFilter}
use sacd_extract.Dst.Coefs.Accepted.{read_filters-IsFilter}

-- 0000001 0 000000101 111111110
abbrev frame : Memory
frame i = get_or (0x02 ∷ 0x02 ∷ 0xff ∷ 0x00 ∷ []) i 0

abbrev cf : CodedTable
cf = ccp_calc_init filter (record {
  c_pred_order = λ i. 0;
  c_pred_coef = λ method i. pos 0;
  coded = λ i. 0;
  best_method = λ i. pos 0;
  m = λ i method. 0;
})

first : (v : ℤ) × (read_short 9 (at frame 4 8) ≡ ok v (at frame 4 17))
first = read_short_held frame 4 8 9 (omega arith) (omega arith) (omega arith)

second : (v : ℤ) × (read_short 9 (at frame 4 17) ≡ ok v (at frame 4 26))
second = read_short_held frame 4 17 9 (omega arith) (omega arith) (omega arith)

abbrev no_filters : Filters
no_filters = record { pred_order = λ f. 0; i_coef_a = λ f i. pos 0 }

abbrev one_filter : Filters
one_filter = record {
  pred_order = update (λ f. 0) 0 2;
  i_coef_a = λ f.
      if 0 == f then clear_rest 2 (update (update (λ i. pos 0) 0 first.0) 1 second.0) else λ i.
      pos 0;
}

filter_read : read_filters cf 1 0 no_filters (at frame 4 0) ≡ ok one_filter (at frame 4 26)
unfolding read_filters read_filter plain_coef_loop
filter_read = rw (order_bits, coded_bit, first.1, second.1)
  where
    order_bits : read_bits 7 (at frame 4 0) ≡ ok 1 (at frame 4 7)
    order_bits =
        rw (read_bits_held frame 4 0 7 (omega arith) (omega arith)) (unfold word_at in refl)

    coded_bit : read_bits 1 (at frame 4 7) ≡ ok 0 (at frame 4 8)
    coded_bit = rw (read_bits_held frame 4 7 1 (omega arith) (omega arith)) (unfold word_at in refl)

start-IsReader : IsReader frame 4 (at frame 4 0)
start-IsReader = (0, refl, inl (omega arith))

read_filters-IsFilter_example :
    ((j : ℕ) → 0 ≤ j → j < 0 + 1 → IsFilter one_filter j)
    × ((j : ℕ) → j < 0 → IsFilter no_filters j → IsFilter one_filter j)
    × IsReader frame 4 (at frame 4 26)
read_filters-IsFilter_example =
    read_filters-IsFilter frame 4 cf 1 0 no_filters (at frame 4 0) one_filter (at frame 4 26)
      start-IsReader filter_read
