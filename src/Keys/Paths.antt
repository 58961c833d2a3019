-- ===== src/Keys/Paths.antt =====
-- crdtstore/keys.go: paths as lists of segments. What go-datastore documents of NewKey is a
-- hypothesis here, for the segments without dots and slashes that the builders make.
use redgeo.Base.{
  Bytes, IsByte, ascii, ℤ, pos, negsuc, length, take, length-append, All, ltb, ==_iff, Bool-cases,
  ℕ, zero, suc, ◌+◌, ◌/◌, ◌%◌, ◌<◌, ◌≡◌, refl, ◌≢◌, inl, inr, true, List, [], ◌∷◌, ◌++◌, map, arith,
}
use mathlib.Core.List.{append_assoc}
use redgeo.Txn.{has_prefix}
use redgeo.Keys.Base32.{enc_seg, enc_digits, digit_char}
use redgeo.Keys

abbrev pub path_of : List Bytes → Bytes
path_of [] = []
path_of (s ∷ segs) = b'/' ∷ s ++ path_of segs

abbrev pub IsPlain : Bytes → Type 0
IsPlain s = All (λ c. (c ≢ b'.') × (c ≢ b'/')) s

abbrev pub IsSegment : Bytes → Type 0
IsSegment s = (0 < length s) × IsPlain s

-- ds.NewKey cleans a path: it keeps one whose segments need no cleaning, and drops a last slash.
pub record Cleans (new_key : Bytes → Bytes) : Type 0 where
  pub kept : (segs : List Bytes) → All IsSegment segs → new_key (path_of segs) ≡ path_of segs
  pub slash :
      (segs : List Bytes)
      → All IsSegment segs
      → 0 < length segs
      → new_key (path_of segs ++ ascii "/") ≡ path_of segs

-- A key or a member that is not empty.
abbrev pub IsName : Bytes → Type 0
IsName s = All IsByte s × (0 < length s)

IsPlain-append : (xs ys : Bytes) → IsPlain xs → IsPlain ys → IsPlain (xs ++ ys)
IsPlain-append [] ys h k = k
IsPlain-append (x ∷ xs) ys h k = (h.0, IsPlain-append xs ys h.1 k)

digits-IsPlain : (ds : List ℕ) → IsPlain (map digit_char ds)
unfolding digit_char
digits-IsPlain [] = tt
digits-IsPlain (d ∷ ds) = ((ground arith, ground arith), digits-IsPlain ds)

enc_digits_long : (s : Bytes) → 0 < length s → 0 < length (map digit_char (enc_digits s))
unfolding enc_digits
enc_digits_long [] h = h
enc_digits_long (a ∷ []) h = omega arith
enc_digits_long (a ∷ b ∷ []) h = omega arith
enc_digits_long (a ∷ b ∷ c ∷ []) h = omega arith
enc_digits_long (a ∷ b ∷ c ∷ d ∷ []) h = omega arith
enc_digits_long (a ∷ b ∷ c ∷ d ∷ e ∷ bytes) h = omega arith

pub enc_seg-IsSegment : (s : Bytes) → 0 < length s → IsSegment (enc_seg s)
unfolding enc_seg
enc_seg-IsSegment s h = (enc_digits_long s h, digits-IsPlain (enc_digits s))

pub hex-IsPlain : (w v : ℕ) → IsPlain (Keys.hex w v)
unfolding Keys.hex Keys.hex_digit
hex-IsPlain zero v = tt
hex-IsPlain (suc w) v =
    IsPlain-append (Keys.hex w (v / 16)) _ (hex-IsPlain w (v / 16))
      ((ground arith, ground arith), tt)

decimal_from-IsPlain : (fuel n : ℕ) → IsPlain (Keys.decimal_from fuel n)
unfolding Keys.decimal_from
decimal_from-IsPlain zero n = tt
decimal_from-IsPlain (suc fuel) n = elim (Bool-cases (ltb n 10)) [
  | inl one ↦ rw one ((ground arith, ground arith), tt)
  | inr more ↦ rw more (
      IsPlain-append (Keys.decimal_from fuel (n / 10)) _ (decimal_from-IsPlain fuel (n / 10))
        ((ground arith, ground arith), tt))
]

decimal_from_long : (fuel n : ℕ) → 0 < length (Keys.decimal_from (suc fuel) n)
unfolding Keys.decimal_from
decimal_from_long fuel n = elim (Bool-cases (ltb n 10)) [
  | inl one ↦ rw one (omega arith)
  | inr more ↦
      rw more (omega (arith, length-append (Keys.decimal_from fuel (n / 10)) ((n % 10 + 48) ∷ [])))
]

pub decimal-IsSegment : (n : ℤ) → IsSegment (Keys.decimal n)
unfolding Keys.decimal
decimal-IsSegment (pos n) = (decimal_from_long 19 n, decimal_from-IsPlain 20 n)
decimal-IsSegment (negsuc n) =
    (omega arith, ((ground arith, ground arith), decimal_from-IsPlain 20 (suc n)))

pub cons_inj : {A : Type 0} {x y : A} {xs ys : List A} → x ∷ xs ≡ y ∷ ys → (x ≡ y) × (xs ≡ ys)
cons_inj e = (cc e, cc e)

-- What lies under a list of segments begins with them.
seg_split :
    (a b r t : Bytes)
    → IsPlain a
    → IsPlain b
    → has_prefix (b'/' ∷ []) (take 1 r) ≡ true
    → has_prefix (a ++ r) (b ++ b'/' ∷ t) ≡ true
    → (a ≡ b) × (has_prefix r (b'/' ∷ t) ≡ true)
unfolding has_prefix
seg_split [] [] r t h k first under = (refl, under)
seg_split [] (y ∷ b) [] t h k first under = absurd (cc under)
seg_split [] (y ∷ b) (c ∷ r) t h k first under = absurd (k.0.1 (ground arith))
seg_split (x ∷ a) [] r t h k first under = absurd (h.0.1 (ground arith))
seg_split (x ∷ a) (y ∷ b) r t h k first under =
    let (same, rest) = seg_split a b r t h.1 k.1 first (ground arith) in
    (cc (same, (==_iff x y).0 (ground arith)), rest)

path_first : (segs : List Bytes) → has_prefix (b'/' ∷ []) (take 1 (path_of segs)) ≡ true
unfolding has_prefix
path_first [] = refl
path_first (s ∷ segs) = refl

pub path_prefix :
    (xs ys : List Bytes)
    → All IsPlain xs
    → All IsPlain ys
    → has_prefix (path_of xs) (path_of ys ++ ascii "/") ≡ true
    → (rest : List Bytes) × (xs ≡ ys ++ rest)
unfolding has_prefix
path_prefix xs [] h k under = (xs, refl)
path_prefix [] (y ∷ ys) h k under = absurd (cc under)
path_prefix (x ∷ xs) (y ∷ []) h k under =
    let u : has_prefix (x ++ path_of xs) (y ++ ([] ++ ascii "/")) ≡ true =
      rw append_assoc at under in
    let (same, _) = seg_split x y (path_of xs) [] h.0 k.0 (path_first xs) u in (xs, cc same)
path_prefix (x ∷ xs) (y ∷ z ∷ ys) h k under =
    let u : has_prefix (x ++ path_of xs) (y ++ (path_of (z ∷ ys) ++ ascii "/")) ≡ true =
      rw append_assoc at under in
    let (same, next) =
      seg_split x y (path_of xs) (z ++ path_of ys ++ ascii "/") h.0 k.0 (path_first xs) u in
    let (rest, later) = path_prefix xs (z ∷ ys) h.1 k.1 next in (rest, cc (same, later))

-- Two lists of plain segments with one path are one.
seg_same :
    (a b r t : Bytes)
    → IsPlain a
    → IsPlain b
    → has_prefix (b'/' ∷ []) (take 1 r) ≡ true
    → has_prefix (b'/' ∷ []) (take 1 t) ≡ true
    → a ++ r ≡ b ++ t
    → (a ≡ b) × (r ≡ t)
unfolding has_prefix
seg_same [] [] r t h k first first' e = (refl, e)
seg_same [] (y ∷ b) [] t h k first first' e = absurd (cc e)
seg_same [] (y ∷ b) (c ∷ r) t h k first first' e = absurd (k.0.1 (ground (arith, cons_inj e)))
seg_same (x ∷ a) [] r [] h k first first' e = absurd (cc e)
seg_same (x ∷ a) [] r (c ∷ t) h k first first' e = absurd (h.0.1 (ground (arith, cons_inj e)))
seg_same (x ∷ a) (y ∷ b) r t h k first first' e =
    let (same, rest) = seg_same a b r t h.1 k.1 first first' (cons_inj e).1 in
    (cc (same, (cons_inj e).0), rest)

pub path_same :
    (xs ys : List Bytes) → All IsPlain xs → All IsPlain ys → path_of xs ≡ path_of ys → xs ≡ ys
path_same [] [] h k e = refl
path_same [] (y ∷ ys) h k e = absurd (cc e)
path_same (x ∷ xs) [] h k e = absurd (cc e)
path_same (x ∷ xs) (y ∷ ys) h k e =
    let (same, rest) =
      seg_same x y (path_of xs) (path_of ys) h.0 k.0 (path_first xs) (path_first ys)
        (cons_inj e).1 in
    cc (same, path_same xs ys h.1 k.1 rest)
