-- ===== src/Keys/Base32.antt =====
-- crdtstore/keys.go: encSeg and decSeg, on encoding/base32 with its standard alphabet and without
-- padding. Five bytes are eight digits; a number below is a group's 40 bits.
use redgeo.Base.{
  Bytes, IsByte, All, ltb, leb, ◌==◌, if◌then◌else◌, Bool-cases, ℕ, ◌+◌, ◌-◌, ◌*◌, ◌/◌, ◌%◌, ◌^◌,
  ◌<◌, ◌≡◌, refl, inl, inr, false, ◌&&◌, ◌||◌, Option, none, some, List, [], ◌∷◌, map, arith,
}
use mathlib.Core.Option

-- the alphabet, A to Z and 2 to 7
unfoldable pub digit_char : ℕ → ℕ
digit_char d = if ltb d 26 then d + 65 else d + 24

unfoldable pub char_digit : ℕ → Option ℕ
char_digit c =
    if leb 65 c && leb c 90
    then some (c - 65)
    else if leb 50 c && leb c 55
    then some (c - 24)
    else none

abbrev pub bits40 : ℕ → ℕ → ℕ → ℕ → ℕ → ℕ
bits40 a b c d e = a * 256 ^ 4 + b * 256 ^ 3 + c * 256 ^ 2 + d * 256 + e

abbrev pub digits40 : ℕ → ℕ → ℕ → ℕ → ℕ → ℕ → ℕ → ℕ → ℕ
digits40 p q r s t u v w =
    p * 32 ^ 7 + q * 32 ^ 6 + r * 32 ^ 5 + s * 32 ^ 4 + t * 32 ^ 3 + u * 32 ^ 2 + v * 32 + w

abbrev pub digit_at : ℕ → ℕ → ℕ
digit_at i v = v / 32 ^ (7 - i) % 32

abbrev pub byte_at : ℕ → ℕ → ℕ
byte_at i v = v / 256 ^ (4 - i) % 256

-- the digits of a last group of one to four bytes
unfoldable pub enc_digits : Bytes → List ℕ
enc_digits [] = []
enc_digits (a ∷ []) = let v = bits40 a 0 0 0 0 in digit_at 0 v ∷ digit_at 1 v ∷ []
enc_digits (a ∷ b ∷ []) =
    let v = bits40 a b 0 0 0 in digit_at 0 v ∷ digit_at 1 v ∷ digit_at 2 v ∷ digit_at 3 v ∷ []
enc_digits (a ∷ b ∷ c ∷ []) =
    let v = bits40 a b c 0 0 in
    digit_at 0 v ∷ digit_at 1 v ∷ digit_at 2 v ∷ digit_at 3 v ∷ digit_at 4 v ∷ []
enc_digits (a ∷ b ∷ c ∷ d ∷ []) =
    let v = bits40 a b c d 0 in
    digit_at 0 v
    ∷ digit_at 1 v
    ∷ digit_at 2 v
    ∷ digit_at 3 v
    ∷ digit_at 4 v
    ∷ digit_at 5 v
    ∷ digit_at 6 v
    ∷ []
enc_digits (a ∷ b ∷ c ∷ d ∷ e ∷ bytes) =
    let v = bits40 a b c d e in
    digit_at 0 v
    ∷ digit_at 1 v
    ∷ digit_at 2 v
    ∷ digit_at 3 v
    ∷ digit_at 4 v
    ∷ digit_at 5 v
    ∷ digit_at 6 v
    ∷ digit_at 7 v
    ∷ enc_digits bytes

-- encSeg
unfoldable pub enc_seg : Bytes → Bytes
unfolding enc_digits
enc_seg b = map digit_char (enc_digits b)

-- The bytes of the digits. A last group of one, three or six digits gives none, and no error.
unfoldable pub dec_digits : List ℕ → Bytes
dec_digits (p ∷ q ∷ r ∷ s ∷ t ∷ u ∷ v ∷ w ∷ digits) =
    let n = digits40 p q r s t u v w in
    byte_at 0 n ∷ byte_at 1 n ∷ byte_at 2 n ∷ byte_at 3 n ∷ byte_at 4 n ∷ dec_digits digits
dec_digits (p ∷ q ∷ r ∷ s ∷ t ∷ u ∷ v ∷ []) =
    let n = digits40 p q r s t u v 0 in byte_at 0 n ∷ byte_at 1 n ∷ byte_at 2 n ∷ byte_at 3 n ∷ []
dec_digits (p ∷ q ∷ r ∷ s ∷ t ∷ []) =
    let n = digits40 p q r s t 0 0 0 in byte_at 0 n ∷ byte_at 1 n ∷ byte_at 2 n ∷ []
dec_digits (p ∷ q ∷ r ∷ s ∷ []) = let n = digits40 p q r s 0 0 0 0 in byte_at 0 n ∷ byte_at 1 n ∷ []
dec_digits (p ∷ q ∷ []) = byte_at 0 (digits40 p q 0 0 0 0 0 0) ∷ []
dec_digits _ = []

-- Line ends are skipped; any other character outside the alphabet is an error.
unfoldable pub read_digits : Bytes → Option (List ℕ)
read_digits [] = some []
read_digits (c ∷ cs) =
    let rest = read_digits cs in
    if c == 10 || c == 13
    then rest
    else elim (char_digit c) [ none ↦ none | some d ↦ Option.map (◌∷◌ d) rest ]

-- decSeg
unfoldable pub dec_seg : Bytes → Option Bytes
unfolding read_digits dec_digits
dec_seg s = Option.map dec_digits (read_digits s)

digit_char_lem :
    (d : ℕ)
    → d < 32
    → ((digit_char d == 10 || digit_char d == 13) ≡ false) × (char_digit (digit_char d) ≡ some d)
unfolding char_digit digit_char
digit_char_lem d h = elim (Bool-cases (ltb d 26)) [
  | inl letter ↦ rw letter (ground arith, ground arith)
  | inr digit ↦ rw digit (ground arith, ground arith)
]

read_digits-map : (ds : List ℕ) → All (λ d. d < 32) ds → read_digits (map digit_char ds) ≡ some ds
unfolding read_digits
read_digits-map [] h = refl
read_digits-map (d ∷ ds) h =
    let (kept, digit) = digit_char_lem d h.0 in cc (kept, digit, read_digits-map ds h.1)

enc_digits-small : (b : Bytes) → All (λ d. d < 32) (enc_digits b)
unfolding enc_digits
enc_digits-small [] = tt
enc_digits-small (a ∷ []) = (omega arith, (omega arith, tt))
enc_digits-small (a ∷ b ∷ []) = (omega arith, (omega arith, (omega arith, (omega arith, tt))))
enc_digits-small (a ∷ b ∷ c ∷ []) =
    (omega arith, (omega arith, (omega arith, (omega arith, (omega arith, tt)))))
enc_digits-small (a ∷ b ∷ c ∷ d ∷ []) = (
  omega arith,
  (omega arith, (omega arith, (omega arith, (omega arith, (omega arith, (omega arith, tt)))))),
)
enc_digits-small (a ∷ b ∷ c ∷ d ∷ e ∷ bytes) = (
  omega arith,
  (
    omega arith,
    (
      omega arith,
      (
        omega arith,
        (omega arith, (omega arith, (omega arith, (omega arith, enc_digits-small bytes)))),
      ),
    ),
  ),
)

-- Eight digits are their number, and so are seven where the last is zero.
digits40_at :
    (v : ℕ)
    → v < 256 ^ 5
    → digits40
        (digit_at 0 v)
        (digit_at 1 v)
        (digit_at 2 v)
        (digit_at 3 v)
        (digit_at 4 v)
        (digit_at 5 v)
        (digit_at 6 v)
        (digit_at 7 v)
      ≡ v
digits40_at v h = omega arith

bytes40 :
    (a b c d e : ℕ)
    → a < 256
    → b < 256
    → c < 256
    → d < 256
    → e < 256
    → (bits40 a b c d e < 256 ^ 5)
      × (byte_at 0 (bits40 a b c d e) ≡ a)
      × (byte_at 1 (bits40 a b c d e) ≡ b)
      × (byte_at 2 (bits40 a b c d e) ≡ c)
      × (byte_at 3 (bits40 a b c d e) ≡ d)
      × (byte_at 4 (bits40 a b c d e) ≡ e)
bytes40 a b c d e ha hb hc hd he =
    (omega arith, omega arith, omega arith, omega arith, omega arith, omega arith)

digits40_seven :
    (v : ℕ)
    → v < 256 ^ 5
    → v % 256 ≡ 0
    → digits40
        (digit_at 0 v)
        (digit_at 1 v)
        (digit_at 2 v)
        (digit_at 3 v)
        (digit_at 4 v)
        (digit_at 5 v)
        (digit_at 6 v)
        0
      ≡ v
digits40_seven v h low = omega arith

-- Zeros below the digits of a last group do not change the bytes that they give.
dec_digits-enc_digits : (b : Bytes) → All IsByte b → dec_digits (enc_digits b) ≡ b
unfolding dec_digits enc_digits
dec_digits-enc_digits [] h = refl
dec_digits-enc_digits (a ∷ []) h = ground arith
dec_digits-enc_digits (a ∷ b ∷ []) h = ground arith
dec_digits-enc_digits (a ∷ b ∷ c ∷ []) h = ground arith
dec_digits-enc_digits (a ∷ b ∷ c ∷ d ∷ []) h =
    let (fits, p, q, r, t, u) = bytes40 a b c d 0 h.0 h.1.0 h.1.1.0 h.1.1.1.0 (omega arith) in
    rw (digits40_seven (bits40 a b c d 0) fits (omega arith)) (cc (p, q, r, t))
dec_digits-enc_digits (a ∷ b ∷ c ∷ d ∷ e ∷ bytes) h =
    let (fits, p, q, r, t, u) = bytes40 a b c d e h.0 h.1.0 h.1.1.0 h.1.1.1.0 h.1.1.1.1.0 in
    rw (digits40_at (bits40 a b c d e) fits)
      (cc (p, q, r, t, u, dec_digits-enc_digits bytes h.1.1.1.1.1))

-- A segment is read back, whatever its bytes.
pub dec_seg-enc_seg : (s : Bytes) → All IsByte s → dec_seg (enc_seg s) ≡ some s
unfolding dec_seg enc_seg
dec_seg-enc_seg s h =
    rw (read_digits-map (enc_digits s) (enc_digits-small s)) (rw (dec_digits-enc_digits s h) refl)
