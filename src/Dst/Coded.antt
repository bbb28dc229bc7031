-- ===== src/Dst/Coded.antt =====
-- src/libdstdec/types.h and ccp_calc.c: the tables that predict filter coefficients and
-- probabilities, and the prediction that ReadFilterCoefSets and ReadProbabilityTables share.
use sacd_extract.Common.{ℕ, zero, suc, ◌+◌, ◌-◌, ◌/◌, List, [], ◌∷◌, get_or, if◌then◌else◌}
use sacd_extract.Common.Int.{ℤ, pos, negsuc, ◌+ℤ◌, ◌-ℤ◌, ◌*ℤ◌, leb_ℤ, pos_part, neg_part}

-- `enum TTable`
pub data TTable : Type 0 where
  filter ptable : TTable

-- The parts of `CodedTable` that the decoder reads or writes behind its set-up.
pub record CodedTable : Type 0 where
  pub c_pred_order : ℕ → ℕ
  pub c_pred_coef : ℕ → ℕ → ℤ
  pub coded : ℕ → ℕ
  pub best_method : ℕ → ℤ
  pub m : ℕ → ℕ → ℕ

-- NROFFRICEMETHODS and NROFPRICEMETHODS
abbrev pub rice_methods : ℕ
rice_methods = 3

abbrev pub size_ricemethod : ℕ
size_ricemethod = 2

abbrev pub size_ricem : ℕ
size_ricem = 3

abbrev pub filter_coefs : List (List ℤ)
filter_coefs =
    (negsuc 7 ∷ pos 0 ∷ pos 0 ∷ [])
    ∷ (negsuc 15 ∷ pos 8 ∷ pos 0 ∷ [])
    ∷ (negsuc 8 ∷ negsuc 4 ∷ pos 6 ∷ [])
    ∷ []

abbrev pub ptable_coefs : List (List ℤ)
ptable_coefs =
    (negsuc 7 ∷ pos 0 ∷ pos 0 ∷ [])
    ∷ (negsuc 15 ∷ pos 8 ∷ pos 0 ∷ [])
    ∷ (negsuc 23 ∷ pos 24 ∷ negsuc 7 ∷ [])
    ∷ []

-- The first three methods have the orders 1, 2 and 3; the cells behind them stay as they were.
pub ccp_calc_init : TTable → CodedTable → CodedTable
ccp_calc_init table_type ct =
    let coefs : List (List ℤ) = elim table_type [ filter ↦ filter_coefs | ptable ↦ ptable_coefs ] in
    record ct {
      c_pred_order = λ i. get_or (1 ∷ 2 ∷ 3 ∷ []) i (ct.c_pred_order i);
      c_pred_coef = λ method i. get_or (get_or coefs method []) i (ct.c_pred_coef method i);
    }

-- for (TapNr = 0, x = 0; ...) x += CPredCoef[bestmethod][TapNr] * row[nr - TapNr - 1];
pub tap_loop : ℕ → (ℕ → ℤ) → (ℕ → ℤ) → ℕ → ℕ → ℤ → ℤ
tap_loop zero coefs row nr tap_nr x = x
tap_loop (suc left) coefs row nr tap_nr x =
    tap_loop left coefs row nr (tap_nr + 1) (x +ℤ coefs tap_nr *ℤ row (nr - tap_nr - 1))

-- if (x >= 0) c = r - (x+4)/8; else c = r + (-x+3)/8;
pub correct : ℤ → ℤ → ℤ
correct r x =
    if leb_ℤ (pos 0) x then r -ℤ pos ((pos_part x + 4) / 8) else r +ℤ pos ((neg_part x + 3) / 8)
