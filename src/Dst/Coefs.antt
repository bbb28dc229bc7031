-- ===== src/Dst/Coefs.antt =====
-- ReadFilterCoefSets of src/libdstdec/unpack_dst.c.
pub mod Range
pub mod Accepted
mod Tests
use sacd_extract.Common.{ℕ, zero, suc, ◌+◌, ◌-◌, ◌^◌, ltb, leb, ◌==◌, ◌||◌, if◌then◌else◌, update}
use sacd_extract.Common.Int.{ℤ, pos, negsuc, ltb_ℤ, leb_ℤ}
use sacd_extract.Dst.Unpack.{
  Unpack, ◌>>=◌, give, fail, never, read_bits, read_short, invalid_coefficient_coding,
  invalid_coefficient_range,
}
use sacd_extract.Dst.Rice.{rice_decode}
use sacd_extract.Dst.Coded.{
  CodedTable, rice_methods, tap_loop, correct, size_ricemethod, size_ricem,
}
use sacd_extract.Dst.Segments.{Segment, cell}

abbrev pub size_codedpredorder : ℕ
size_codedpredorder = 7

abbrev pub size_predcoef : ℕ
size_predcoef = 9

-- ICoefA[FilterNr]
abbrev pub Coefs : Type 0
Coefs = ℕ → ℤ

-- for (CoefNr = ...) FIO_BitGetShortSigned(SD, SIZE_PREDCOEF, ...), with the coefficients that are
-- left
unfoldable pub plain_coef_loop : ℕ → ℕ → Coefs → Unpack Coefs
plain_coef_loop zero coef_nr coefs = give coefs
plain_coef_loop (suc left) coef_nr coefs =
    read_short size_predcoef >>= λ v. plain_coef_loop left (coef_nr + 1) (update coefs coef_nr v)

-- for (CoefNr = CPredOrder[bestmethod]; ...), with the coefficients that are left
pub rice_loop : CodedTable → ℕ → ℕ → ℕ → ℕ → Coefs → Unpack Coefs
rice_loop cf bestmethod m zero coef_nr coefs = give coefs
rice_loop cf bestmethod m (suc left) coef_nr coefs =
    let x =
      tap_loop (cf.c_pred_order bestmethod) (cf.c_pred_coef bestmethod) coefs coef_nr 0 (pos 0) in
    rice_decode m >>= λ r.
    let c = correct r x in
    let next = rice_loop cf bestmethod m left (coef_nr + 1) (update coefs coef_nr c) in
    if ltb_ℤ c (negsuc (2 ^ (size_predcoef - 1) - 1)) || leb_ℤ (pos (2 ^ (size_predcoef - 1))) c
    then fail invalid_coefficient_range
    else next

-- A filter that is coded. `never` is a read behind the end of CPredOrder.
pub coded_filter : CodedTable → ℕ → Coefs → Unpack Coefs
coded_filter cf pred_order coefs = read_bits size_ricemethod >>= λ bestmethod.
    let order = cf.c_pred_order bestmethod in
    if leb rice_methods bestmethod
    then never
    else if leb pred_order order
    then fail invalid_coefficient_coding
    else (plain_coef_loop order 0 coefs >>= λ coefs'.
        read_bits size_ricem >>= λ m. rice_loop cf bestmethod m (pred_order - order) order coefs')

-- memset(&ICoefA[FilterNr][CoefNr], 0, ...), from the order on
pub clear_rest : ℕ → Coefs → Coefs
clear_rest pred_order coefs i =
    if leb pred_order i
    then (if ltb i (2 ^ size_codedpredorder) then pos 0 else coefs i)
    else coefs i

-- PredOrder and ICoefA
pub record Filters : Type 0 where
  pub pred_order : ℕ → ℕ
  pub i_coef_a : ℕ → Coefs

-- the body of the loop over the filters
unfoldable pub read_filter : CodedTable → ℕ → Filters → Unpack Filters
read_filter cf filter_nr fl = read_bits size_codedpredorder >>= λ v. read_bits 1 >>= λ coded.
    let order = v + 1 in
    let coefs = fl.i_coef_a filter_nr in
    (if coded == 0 then plain_coef_loop order 0 coefs else coded_filter cf order coefs)
    >>= λ coefs'. give (record {
      pred_order = update fl.pred_order filter_nr order;
      i_coef_a = λ f. if filter_nr == f then clear_rest order coefs' else fl.i_coef_a f;
    })

-- for (FilterNr = 0; FilterNr < FH->NrOfFilters; FilterNr++), with the filters that are left
unfoldable pub read_filters : CodedTable → ℕ → ℕ → Filters → Unpack Filters
read_filters cf zero filter_nr fl = give fl
read_filters cf (suc left) filter_nr fl =
    read_filter cf filter_nr fl >>= read_filters cf left (filter_nr + 1)

-- NrOfHalfBits[ChNr] = PredOrder[FSeg.Table4Segment[ChNr][0]] for every channel
pub half_bits : ℕ → Segment → (ℕ → ℕ) → (ℕ → ℕ) → ℕ → ℕ
half_bits nr_of_channels f_seg pred_order before ch_nr =
    if ltb ch_nr nr_of_channels
    then pred_order (f_seg.table4segment (cell ch_nr 0))
    else before ch_nr
