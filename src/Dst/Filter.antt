-- ===== src/Dst/Filter.antt =====
-- src/libdstdec/dst_fram.c: the prediction filters, as tables for eight bits of the past at a time
-- (LT_InitCoefTablesI, LT_InitStatus, LT_RUN_FILTER_I and the update of the status).
pub mod Patterns
pub mod History
pub mod Fir
use sacd_extract.Common.{
  ℕ, zero, suc, ◌+◌, ◌-◌, ◌*◌, ◌/◌, ◌%◌, ◌^◌, bit_and, bit_or, ltb, ◌==◌, ◌&&◌, if◌then◌else◌,
}
use sacd_extract.Common.Int.{ℤ, pos, negsuc, sub_ℕ, ◌+ℤ◌, ◌*ℤ◌}
use sacd_extract.Dst.Fio.{signed}
use sacd_extract.Dst.Header.{FrameHeader}

-- The 16 bits of an integer.
abbrev pub pattern16 : ℤ → ℕ
pattern16 (pos n) = n % 2 ^ 16
pattern16 (negsuc n) = 2 ^ 16 - 1 - n % 2 ^ 16

-- (int16_t)
pub int16 : ℤ → ℤ
int16 z = signed 16 (pattern16 z)

-- for (j = 0; j < k; j++), with the rounds that are left; the coefficients of the table start at
-- `base`.
pub coef_loop : ℕ → (ℕ → ℤ) → ℕ → ℕ → ℕ → ℤ → ℤ
coef_loop zero coefs base i j cvalue = cvalue
coef_loop (suc left) coefs base i j cvalue =
    coef_loop left coefs base i (j + 1)
      (cvalue +ℤ sub_ℕ (bit_and (i / 2 ^ j) 1 * 2) 1 *ℤ coefs (base + j))

-- k, which is 0 where the difference is negative
pub table_size : ℕ → ℕ → ℕ
table_size filter_length table_nr = let k = filter_length - table_nr * 8 in if ltb 8 k then 8 else k

-- ICoefI[FilterNr][TableNr][i], written over what stood there before
pub lt_init_coef_tables_i : FrameHeader → (ℕ → ℕ → ℕ → ℤ) → ℕ → ℕ → ℕ → ℤ
lt_init_coef_tables_i fh before filter_nr table_nr i =
    if ltb filter_nr fh.nr_of_filters && ltb table_nr 16 && ltb i 256
    then int16 (
        coef_loop (table_size (fh.pred_order filter_nr) table_nr) (fh.i_coef_a filter_nr)
          (table_nr * 8) i 0 (pos 0))
    else before filter_nr table_nr i

-- The 16 status bytes of a channel, as the four words that the update sees.
pub record Status : Type 0 where
  pub st0 : ℕ
  pub st1 : ℕ
  pub st2 : ℕ
  pub st3 : ℕ

pub status_word : Status → ℕ → ℕ
status_word st i =
    if i == 0 then st.st0 else if i == 1 then st.st1 else if i == 2 then st.st2 else st.st3

-- ChannelStatus[t], on a little-endian machine
pub status_byte : Status → ℕ → ℕ
status_byte st t = status_word st (t / 4) / 2 ^ (8 * (t % 4)) % 256

-- 0xaa in every byte
pub lt_init_status : ℕ → (ℕ → Status) → ℕ → Status
lt_init_status nr_of_channels before ch_nr =
    if ltb ch_nr nr_of_channels
    then record { st0 = 0xaaaaaaaa; st1 = 0xaaaaaaaa; st2 = 0xaaaaaaaa; st3 = 0xaaaaaaaa }
    else before ch_nr

-- Predict += FilterTable[t][ChannelStatus[t]]; for the tables that are left
pub filter_loop : ℕ → (ℕ → ℕ → ℤ) → Status → ℕ → ℤ → ℤ
filter_loop zero table st t predict = predict
filter_loop (suc left) table st t predict =
    filter_loop left table st (t + 1) (int16 (predict +ℤ table t (status_byte st t)))

-- LT_RUN_FILTER_I
pub lt_run_filter_i : (ℕ → ℕ → ℤ) → Status → ℤ
lt_run_filter_i table st = filter_loop 15 table st 1 (table 0 (status_byte st 0))

-- (st[i] << 1) | b
abbrev shift_word : ℕ → ℕ → ℕ
shift_word w b = bit_or (2 * w % 2 ^ 32) b

-- Update filter
pub update_filter : Status → ℕ → Status
update_filter st bit_val = record {
  st0 = shift_word st.st0 bit_val;
  st1 = shift_word st.st1 (bit_and (st.st0 / 2 ^ 31) 1);
  st2 = shift_word st.st2 (bit_and (st.st1 / 2 ^ 31) 1);
  st3 = shift_word st.st3 (bit_and (st.st2 / 2 ^ 31) 1);
}
