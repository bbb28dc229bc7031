-- ===== src/Dst/Filter/History.antt =====
-- The status of a channel holds its last 128 bits.
use sacd_extract.Common.{
  ℕ, zero, suc, ◌+◌, ◌*◌, ◌/◌, ◌%◌, ◌^◌, ◌<◌, ◌≡◌, refl, ap, ◌∙◌, arith, bit_and, lt→ltb,
  same_below_lem,
}
use native.Mathlib.Decide.{dec_lt}
use sacd_extract.Common.Bits.{bit_and-one, mod_bit, div-two_pow-add, bit_or-add, div-two-pow_suc}
use sacd_extract.Dst.Filter.{
  Status, status_word, status_byte, lt_init_status, shift_word, update_filter,
}

-- the bit that came in `n` bits before the last one
pub past : Status → ℕ → ℕ
past st n = status_word st (n / 32) / 2 ^ (n % 32) % 2

-- The bits of a channel so far, the last one first.
abbrev pub History : Type 0
History = ℕ → ℕ

abbrev pub IsHistory : Status → History → Type 0
IsHistory st h = (n : ℕ) → n < 128 → past st n ≡ h n

abbrev pub add_bit : ℕ → History → History
add_bit b h zero = b
add_bit b h (suc n) = h n

-- what a frame starts from
abbrev pub alternating : History
alternating n = n % 2

byte_bit : (w a j : ℕ) → j < 8 → w / 2 ^ a % 256 / 2 ^ j % 2 ≡ w / 2 ^ (a + j) % 2
byte_bit w a j h = mod_bit j 8 (w / 2 ^ a) h ∙ ap (λ (x : ℕ). x % 2) (div-two_pow-add w a j)

pub status_byte-past :
    (st : Status) (t j : ℕ) → j < 8 → bit_and (status_byte st t / 2 ^ j) 1 ≡ past st (t * 8 + j)
unfolding status_byte past
status_byte-past st t j h =
    let q : (t * 8 + j) / 32 ≡ t / 4 = omega arith in
    let r : (t * 8 + j) % 32 ≡ 8 * (t % 4) + j = omega arith in
    rw (q, r, bit_and-one (status_word st (t / 4) / 2 ^ (8 * (t % 4)) % 256 / 2 ^ j))
      (byte_bit (status_word st (t / 4)) (8 * (t % 4)) j h)

shift_word_lem : (w b : ℕ) → b < 2 → shift_word w b ≡ 2 * (w % 2 ^ 31) + b
shift_word_lem w b h =
    let e : 2 * w % 2 ^ 32 ≡ (w % 2 ^ 31) * 2 ^ 1 = omega arith in
    rw (e, bit_or-add 1 (w % 2 ^ 31) b h) (omega arith)

new_bit : (w b : ℕ) → b < 2 → shift_word w b % 2 ≡ b
new_bit w b h = omega (arith, shift_word_lem w b h)

shifted_bit : (w b n : ℕ) → b < 2 → n < 31 → shift_word w b / 2 ^ suc n % 2 ≡ w / 2 ^ n % 2
shifted_bit w b n h k =
    let e : shift_word w b / 2 ≡ w % 2 ^ 31 = omega (arith, shift_word_lem w b h) in
    rw (div-two-pow_suc (shift_word w b) n, e) (mod_bit n 31 w k)

past-update_zero : (st : Status) (b : ℕ) → b < 2 → past (update_filter st b) 0 ≡ b
unfolding past update_filter status_word
past-update_zero st b h = ground (arith, new_bit st.st0 b h)

word-update :
    (st : Status) (b q : ℕ)
    → q < 4
    → b < 2
    → (c : ℕ) × (c < 2) × (status_word (update_filter st b) q ≡ shift_word (status_word st q) c)
unfolding update_filter status_word
word-update st b zero h k = (b, k, refl)
word-update st b (suc zero) h k =
    (bit_and (st.st0 / 2 ^ 31) 1, omega (arith, bit_and-one (st.st0 / 2 ^ 31)), refl)
word-update st b (suc (suc zero)) h k =
    (bit_and (st.st1 / 2 ^ 31) 1, omega (arith, bit_and-one (st.st1 / 2 ^ 31)), refl)
word-update st b (suc (suc (suc zero))) h k =
    (bit_and (st.st2 / 2 ^ 31) 1, omega (arith, bit_and-one (st.st2 / 2 ^ 31)), refl)
word-update st b (suc (suc (suc (suc q)))) h k = absurd (omega arith)

carried :
    (st : Status) (b q : ℕ)
    → q < 3
    → status_word (update_filter st b) (suc q) % 2 ≡ status_word st q / 2 ^ 31 % 2
unfolding update_filter status_word
carried st b zero h =
    new_bit st.st1 (bit_and (st.st0 / 2 ^ 31) 1) (omega (arith, bit_and-one (st.st0 / 2 ^ 31)))
    ∙ bit_and-one (st.st0 / 2 ^ 31)
carried st b (suc zero) h =
    new_bit st.st2 (bit_and (st.st1 / 2 ^ 31) 1) (omega (arith, bit_and-one (st.st1 / 2 ^ 31)))
    ∙ bit_and-one (st.st1 / 2 ^ 31)
carried st b (suc (suc zero)) h =
    new_bit st.st3 (bit_and (st.st2 / 2 ^ 31) 1) (omega (arith, bit_and-one (st.st2 / 2 ^ 31)))
    ∙ bit_and-one (st.st2 / 2 ^ 31)
carried st b (suc (suc (suc q))) h = absurd (omega arith)

past-update_suc :
    (st : Status) (b n : ℕ) → b < 2 → n < 127 → past (update_filter st b) (suc n) ≡ past st n
unfolding past
past-update_suc st b n h k = elim (dec_lt (n % 32) 31) [
  | yes below ↦
      let q : suc n / 32 ≡ n / 32 = omega arith in
      let r : suc n % 32 ≡ suc (n % 32) = omega arith in
      let (c, less, e) = word-update st b (n / 32) (omega arith) h in
      rw (q, r, e) (shifted_bit (status_word st (n / 32)) c (n % 32) less below)
  | no above ↦
      let q : suc n / 32 ≡ suc (n / 32) = omega arith in
      let r : suc n % 32 ≡ 0 = omega arith in
      let r' : n % 32 ≡ 31 = omega arith in
      rw (q, r, r') (ground (arith, carried st b (n / 32) (omega arith)))
]

-- The update of the status of a channel adds a bit to its history: the new bit is the last one, and
-- the 127 bits before it are one place further back, across the four words.
pub update_filter-IsHistory :
    (st : Status) (b : ℕ) (h : History)
    → b < 2
    → IsHistory st h
    → IsHistory (update_filter st b) (add_bit b h)
update_filter-IsHistory st b h l i zero k = past-update_zero st b l
update_filter-IsHistory st b h l i (suc n) k =
    past-update_suc st b n l (omega arith) ∙ i n (omega arith)

start_word : (r : ℕ) → r < 32 → 0xaaaaaaaa / 2 ^ r % 2 ≡ r % 2
start_word = same_below_lem 32 (λ r. 0xaaaaaaaa / 2 ^ r % 2) (λ r. r % 2) refl

start_bit :
    (n : ℕ)
    → n < 128
    → past (record { st0 = 0xaaaaaaaa; st1 = 0xaaaaaaaa; st2 = 0xaaaaaaaa; st3 = 0xaaaaaaaa }) n
      ≡ alternating n
unfolding past status_word
start_bit n k = ground (arith, start_word (n % 32) (omega arith))

-- Every channel starts with the history 0, 1, 0, 1, ...
pub lt_init_status-IsHistory :
    (nr_of_channels : ℕ) (before : ℕ → Status) (ch_nr : ℕ)
    → ch_nr < nr_of_channels
    → IsHistory (lt_init_status nr_of_channels before ch_nr) alternating
unfolding lt_init_status
lt_init_status-IsHistory nr before ch h n k = rw (lt→ltb _ _ h) (start_bit n k)
