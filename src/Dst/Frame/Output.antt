-- ===== src/Dst/Frame/Output.antt =====
-- What the bytes of MuxedDSD hold while a frame is decoded.
use sacd_extract.Common.{
  ℕ, suc, ◌+◌, ◌-◌, ◌*◌, ◌/◌, ◌%◌, ◌^◌, max, bit_or, ◌≤◌, ◌<◌, ◌≡◌, ◌≢◌, refl, ap, sym, ◌∙◌, arith,
  true, false, ltb, ◌==◌, ==_iff, if◌then◌else◌, update, Bool-cases, inl, inr, same_below_lem,
  lt→ltb, le→ltb,
}
use native.Mathlib.Nat.{mul-le-mul, suc-mul, zero-div}
use native.Mathlib.Decide.{dec_lt}
use sacd_extract.Common.Bits.{bit_or_bit}
use sacd_extract.Dst.Stream.{Memory}
use sacd_extract.Dst.Arith.{AcData}
use sacd_extract.Dst.Filter.{Status, lt_init_status}
use sacd_extract.Dst.Filter.History.{
  History, IsHistory, add_bit, alternating, update_filter-IsHistory, lt_init_status-IsHistory,
}
use sacd_extract.Dst.Frame.{Work, write_bit, set_bytes}

-- bit `k` of channel `c`: bit 7 - k % 8 of the byte that the channels have in turn
pub out_bit : ℕ → Memory → ℕ → ℕ → ℕ
out_bit n m c k = m (k / 8 * n + c) / 2 ^ (7 - k % 8) % 2

row_below : (n q r q' r' : ℕ) → r < n → q < q' → q * n + r < q' * n + r'
row_below n q r q' r' h k =
    let same : n ≤ n = omega arith in
    let more : suc q * n ≤ q' * n = mul-le-mul k same in ground (arith, more, suc-mul q n)

place_unique : (n q r q' r' : ℕ) → r < n → r' < n → q * n + r ≡ q' * n + r' → (q ≡ q') × (r ≡ r')
place_unique n q r q' r' h h' e = elim (dec_lt q q') [
  | yes less ↦ absurd (omega (arith, row_below n q r q' r' h less))
  | no more ↦ elim (dec_lt q' q) [
    | yes less ↦ absurd (omega (arith, row_below n q' r' q r h' less))
    | no same ↦ let at : q ≡ q' = omega arith in (at, omega (arith, ap (λ (x : ℕ). x * n) at))
  ]
]

abbrev shifted_bit : ℕ → ℕ → ℕ → ℕ
shifted_bit b s j = b * 2 ^ s % 2 ^ 8 / 2 ^ j % 2

abbrev bit_there : ℕ → ℕ → ℕ → ℕ
bit_there b s j = if s == j then b else 0

cong3 : (f : ℕ → ℕ → ℕ → ℕ) {b b' s s' j j' : ℕ} → b ≡ b' → s ≡ s' → j ≡ j' → f b s j ≡ f b' s' j'
cong3 f e1 e2 e3 = rw (e1, e2, e3)

one_bit :
    (b s j : ℕ) → b < 2 → s < 8 → j < 8 → b * 2 ^ s % 2 ^ 8 / 2 ^ j % 2 ≡ (if s == j then b else 0)
one_bit b s j h k l =
    let x : ℕ = b * 64 + s * 8 + j in
    let e1 : x / 64 ≡ b = omega arith in
    let e2 : x / 8 % 8 ≡ s = omega arith in
    let e3 : x % 8 ≡ j = omega arith in
    let run : shifted_bit (x / 64) (x / 8 % 8) (x % 8) ≡ bit_there (x / 64) (x / 8 % 8) (x % 8) =
      same_below_lem 128 (λ x. shifted_bit (x / 64) (x / 8 % 8) (x % 8))
        (λ x. bit_there (x / 64) (x / 8 % 8) (x % 8)) refl x (omega arith) in
    sym (cong3 shifted_bit e1 e2 e3) ∙ run ∙ cong3 bit_there e1 e2 e3

module _ (n : ℕ) (m : Memory) (ch b bit : ℕ) (in_range : ch < n) (is_bit : bit < 2) where
  abbrev place : ℕ
  place = b / 8 * n + ch

  abbrev written_dsd : Memory
  written_dsd = update m place (bit_or (m place) (bit * 2 ^ (7 - b % 8) % 2 ^ 8))

  out_bit_here : out_bit n written_dsd ch b ≡ max (out_bit n m ch b) bit
  unfolding out_bit
  out_bit_here =
      let at : (place == place) ≡ true = (==_iff place place).1 refl in
      rw at (
        bit_or_bit (7 - b % 8) (m place) (bit * 2 ^ (7 - b % 8) % 2 ^ 8)
        ∙ ground (arith, one_bit bit (7 - b % 8) (7 - b % 8) is_bit (omega arith) (omega arith)))

  out_bit_else : (c k : ℕ) → c < n → (k ≡ b → c ≢ ch) → out_bit n written_dsd c k ≡ out_bit n m c k
  unfolding out_bit
  out_bit_else c k l other = elim (Bool-cases (place == k / 8 * n + c)) [
    | inr off ↦ rw off
    | inl at ↦
        let (row, column) =
          place_unique n (b / 8) ch (k / 8) c in_range l ((==_iff place (k / 8 * n + c)).0 at) in
        let differ : b % 8 ≢ k % 8 = λ e. other (omega arith) (sym column) in
        rw at (
          bit_or_bit (7 - k % 8) (m place) (bit * 2 ^ (7 - b % 8) % 2 ^ 8)
          ∙ ground (
            arith,
            one_bit bit (7 - b % 8) (7 - k % 8) is_bit (omega arith) (omega arith),
            ap (λ (i : ℕ). m i / 2 ^ (7 - k % 8) % 2) ((==_iff place (k / 8 * n + c)).0 at),
            differ,
          ))
  ]

-- The histories with the last bit of channel `ch`.
pub add_to : (ℕ → History) → ℕ → ℕ → ℕ → History
add_to hs ch bit c = if ch == c then add_bit bit (hs c) else hs c

-- how many bits of channel `c` there are where the loops stand at bit `b` and channel `ch`
abbrev pub done_bits : ℕ → ℕ → ℕ → ℕ
done_bits ch b c = if ltb c ch then b + 1 else b

-- The status of each of `n` channels holds its history, the bytes hold the bits so far, and the rest
-- of their `bits` bits are 0.
pub record IsLinked (n bits : ℕ) (w : Work) (hs : ℕ → History) (ch b : ℕ) : Type 0 where
  pub status : (c : ℕ) → c < n → IsHistory (w.status c) (hs c)
  pub output :
      (c k : ℕ)
      → c < n
      → k < done_bits ch b c
      → out_bit n w.muxed_dsd c k ≡ hs c (done_bits ch b c - 1 - k)
  pub clear : (c k : ℕ) → c < n → done_bits ch b c ≤ k → k < bits → out_bit n w.muxed_dsd c k ≡ 0

module _ {n bits : ℕ} {w : Work} {hs : ℕ → History} where
  pub relink : {ch ch' b : ℕ} → ch ≡ ch' → IsLinked n bits w hs ch b → IsLinked n bits w hs ch' b
  relink e l = rw (← e) l

  pub next_bit : {ch b b' : ℕ} → b ≡ b' → IsLinked n bits w hs ch b → IsLinked n bits w hs ch b'
  next_bit e l = rw (← e) l

  -- Behind the last channel the next bit begins.
  pub all_channels : {b : ℕ} → IsLinked n bits w hs n b → IsLinked n bits w hs 0 (b + 1)
  all_channels {b = b} l = record {
    status = l.status;
    output = λ c k h less.
        let e : done_bits 0 (b + 1) c ≡ done_bits n b c = ground arith in
        l.output c k h (omega (arith, e)) ∙ ap (λ (x : ℕ). hs c (x - 1 - k)) (sym e);
    clear = λ c k h more inside. l.clear c k h (ground arith) inside;
  }

pub frame_output :
    {n bits : ℕ} {w : Work} {hs : ℕ → History} {b : ℕ}
    → IsLinked n bits w hs 0 b
    → (c k : ℕ) → c < n
    → k < b
    → out_bit n w.muxed_dsd c k ≡ hs c (b - 1 - k)
frame_output {hs = hs} {b = b} l c k h less =
    let e : done_bits 0 b c ≡ b = ground arith in
    l.output c k h (omega (arith, e)) ∙ ap (λ (x : ℕ). hs c (x - 1 - k)) e

frame_rows : (n bits : ℕ) → bits % 8 ≡ 0 → bits * n / 8 ≡ bits / 8 * n
frame_rows n bits whole =
    let e : bits ≡ bits / 8 * 8 = omega arith in
    let f : bits / 8 * 8 * n ≡ bits / 8 * n * 8 = grind arith in
    let g : bits * n ≡ bits / 8 * n * 8 = ap (λ (x : ℕ). x * n) e ∙ f in omega (arith, g)

-- A frame starts with histories, and with bytes that are 0.
pub start-IsLinked :
    (n bits : ℕ) (ac : AcData) (before : ℕ → Status) (dsd : Memory)
    → bits % 8 ≡ 0
    → IsLinked n bits
        (record {
          ac = ac;
          status = lt_init_status n before;
          muxed_dsd = set_bytes (bits * n / 8) 0 dsd;
        })
        (λ c. alternating)
        0
        0
unfolding set_bytes out_bit
start-IsLinked n bits ac before dsd whole = record {
  status = λ c h. lt_init_status-IsHistory n before c h;
  output = λ c k h less. absurd (ground arith);
  clear = λ c k h more inside.
      let rows : bits * n / 8 ≡ bits / 8 * n = frame_rows n bits whole in
      let below : k / 8 * n + c < bits * n / 8 =
        omega (arith, rows, row_below n (k / 8) c (bits / 8) 0 h (omega arith)) in
      rw (lt→ltb (k / 8 * n + c) (bits * n / 8) below) (omega (arith, zero-div (2 ^ (7 - k % 8))));
}

module _ (n bits : ℕ) (w : Work) (hs : ℕ → History) (ch b bit : ℕ) (ac : AcData)
    (l : IsLinked n bits w hs ch b) (in_range : ch < n) (is_bit : bit < 2)
    (in_frame : b < bits) where
  abbrev w' : Work
  w' = write_bit n ch b bit ac w

  new_status : (c : ℕ) → c < n → IsHistory (w'.status c) (add_to hs ch bit c)
  unfolding write_bit add_to
  new_status c k = elim (Bool-cases (ch == c)) [
    | inl at ↦ rw at (update_filter-IsHistory (w.status c) bit (hs c) is_bit (l.status c k))
    | inr off ↦ rw off (l.status c k)
  ]

  same_bit :
      (c k : ℕ) → c < n → (k ≡ b → c ≢ ch) → out_bit n w'.muxed_dsd c k ≡ out_bit n w.muxed_dsd c k
  unfolding write_bit
  same_bit c k h other = out_bit_else n w.muxed_dsd ch b bit in_range is_bit c k h other

  before_end : done_bits ch b ch ≡ b
  before_end = rw (le→ltb ch ch (omega arith))

  own_output :
      (k : ℕ) → k < b + 1 → out_bit n w'.muxed_dsd ch k ≡ add_bit bit (hs ch) (b + 1 - 1 - k)
  own_output k less = elim (dec_lt k b) [
    | yes old ↦
        let e : b + 1 - 1 - k ≡ suc (b - 1 - k) = omega arith in
        let e' : done_bits ch b ch - 1 - k ≡ b - 1 - k = omega (arith, before_end) in
        rw e (
          same_bit ch k in_range (λ i. absurd (omega arith))
          ∙ l.output ch k in_range (omega (arith, before_end))
          ∙ ap (hs ch) e')
    | no new ↦
        let at : k ≡ b = omega arith in
        let e : b + 1 - 1 - b ≡ 0 = omega arith in
        rw (at, e)
          (own_bit ∙ omega (arith, l.clear ch b in_range (omega (arith, before_end)) in_frame))
  ]
    where
      own_bit : out_bit n w'.muxed_dsd ch b ≡ max (out_bit n w.muxed_dsd ch b) bit
      own_bit = unfold write_bit in out_bit_here n w.muxed_dsd ch b bit in_range is_bit

  new_output :
      (c k : ℕ)
      → c < n
      → k < done_bits (ch + 1) b c
      → out_bit n w'.muxed_dsd c k ≡ add_to hs ch bit c (done_bits (ch + 1) b c - 1 - k)
  new_output c k h less = elim (dec_lt ch c) [
    | yes later ↦ other_output (λ e. omega arith) (ground arith) (ground arith)
    | no here ↦ elim (dec_lt c ch) [
      | yes earlier ↦ other_output (λ e. omega arith) (ground arith) (ground arith)
      | no same ↦
          let at : c ≡ ch = omega arith in
          let e : done_bits (ch + 1) b ch ≡ b + 1 = rw (lt→ltb ch (ch + 1) (omega arith)) in
          let f : (ch == ch) ≡ true = (==_iff ch ch).1 refl in
          unfold add_to in rw (at, e, f) (own_output k (ground arith))
    ]
  ]
    where
      other_output :
          c ≢ ch
          → done_bits (ch + 1) b c ≡ done_bits ch b c
          → (ch == c) ≡ false
          → out_bit n w'.muxed_dsd c k ≡ add_to hs ch bit c (done_bits (ch + 1) b c - 1 - k)
      other_output off e f =
          unfold add_to in rw (e, f) (same_bit c k h (λ e'. off) ∙ l.output c k h (ground arith))

  new_clear :
      (c k : ℕ) → c < n → done_bits (ch + 1) b c ≤ k → k < bits → out_bit n w'.muxed_dsd c k ≡ 0
  new_clear c k h more inside =
      same_bit c k h (λ e e'. ground arith) ∙ l.clear c k h (ground arith) inside

  pub write_bit-IsLinked : IsLinked n bits w' (add_to hs ch bit) (ch + 1) b
  write_bit-IsLinked = record { status = new_status; output = new_output; clear = new_clear }
