-- ===== src/Dsf/Files/Fields.antt =====
-- Fields that have been put into memory are read again.
use sacd_extract.Common.{
  ℕ, zero, suc, ◌+◌, ◌*◌, ◌/◌, ◌%◌, ◌≤◌, ◌<◌, ◌≡◌, refl, ap₂, ◌∙◌, arith, true, false, List, [],
  ◌∷◌, ◌==◌, update,
}
use sacd_extract.Dst.Stream.{Memory}
use sacd_extract.Dsf.Files.{put_le, get_le, put_fields}

-- the number of values that `width` bytes have
abbrev pub values : ℕ → ℕ
values zero = 1
values (suc width) = 256 * values width

pub get_le_same :
    (m m' : Memory) (p width : ℕ)
    → ((i : ℕ) → p ≤ i → i < p + width → m i ≡ m' i)
    → get_le m p width ≡ get_le m' p width
unfolding get_le
get_le_same m m' p zero h = refl
get_le_same m m' p (suc width) h =
    ap₂ (λ (a b : ℕ). a + 256 * b) (h p (omega arith) (omega arith))
      (get_le_same m m' (p + 1) width (λ i l k. h i (omega arith) (omega arith)))

put_le-below : (m : Memory) (p width v i : ℕ) → i < p → put_le m p width v i ≡ m i
unfolding put_le
put_le-below m p zero v i h = refl
put_le-below m p (suc width) v i h =
    let off = put_le-below (update m p (v % 256)) (p + 1) width (v / 256) i (omega arith) in
    let other : (p == i) ≡ false = ground arith in off ∙ rw other refl

get-put_le :
    (m : Memory) (p width v : ℕ) → v < values width → get_le (put_le m p width v) p width ≡ v
unfolding get_le put_le
get-put_le m p zero v h = omega arith
get-put_le m p (suc width) v h =
    let first = put_le-below (update m p (v % 256)) (p + 1) width (v / 256) p (omega arith) in
    let own : (p == p) ≡ true = ground arith in
    let rest = get-put_le (update m p (v % 256)) (p + 1) width (v / 256) (omega arith) in
    rw (first, own, rest) (omega arith)

put_fields-below :
    (m : Memory) (p : ℕ) (fields : List (ℕ × ℕ)) (i : ℕ) → i < p → put_fields m p fields i ≡ m i
unfolding put_fields
put_fields-below m p [] i h = refl
put_fields-below m p ((width, v) ∷ fields) i h =
    put_fields-below (put_le m p width v) (p + width) fields i (omega arith)
    ∙ put_le-below m p width v i h

-- the field at the index `k`
abbrev pub field_at : List (ℕ × ℕ) → ℕ → ℕ × ℕ
field_at [] k = (0, 0)
field_at (f ∷ fields) zero = f
field_at (f ∷ fields) (suc k) = field_at fields k

-- how many bytes stand in front of it
abbrev pub offset : List (ℕ × ℕ) → ℕ → ℕ
offset [] k = 0
offset (f ∷ fields) zero = 0
offset (f ∷ fields) (suc k) = f.0 + offset fields k

-- A field is read at the place where those in front of it end.
pub get-put_fields :
    (fields : List (ℕ × ℕ)) (k : ℕ) (m : Memory) (p : ℕ)
    → (field_at fields k).1 < values (field_at fields k).0
    → get_le (put_fields m p fields) (p + offset fields k) (field_at fields k).0
      ≡ (field_at fields k).1
unfolding put_fields get_le
get-put_fields [] k m p h = refl
get-put_fields ((width, v) ∷ fields) zero m p h =
    let place : p + 0 ≡ p = omega arith in
    rw place (
      get_le_same _ (put_le m p width v) p width
        (λ i l k. put_fields-below (put_le m p width v) (p + width) fields i k)
      ∙ get-put_le m p width v h)
get-put_fields ((w, x) ∷ fields) (suc k) m p h =
    let place : p + (w + offset fields k) ≡ p + w + offset fields k = omega arith in
    rw place (get-put_fields fields k (put_le m p w x) (p + w) h)
