-- ===== src/ListRepo/Position.antt =====
-- crdtstore/rlist.go: the position of a list element, a float64, and its key, which sorts as it does.
-- Floats are a parameter: their bits (math.Float64bits), their sign test and the sums that the code
-- takes.
use redgeo.Base.{
  Bytes, compare_bytes, compare_bytes-append, length, take, length-append, take-append, ltb, leb,
  if◌then◌else◌, Bool-cases, Option-cases, ℕ, zero, suc, ◌+◌, ◌-◌, ◌*◌, ◌/◌, ◌%◌, ◌^◌, ◌≤◌, ◌<◌,
  compare, Ordering, ◌≡◌, refl, sym, ap, ◌∙◌, inl, inr, Bool, true, false, ◌&&◌, Option, none, some,
  [], ◌∷◌, ◌++◌, arith, u64_mod,
}
use mathlib.Core.Option.{some_inj}
use native.Mathlib.Nat.{pow-suc}
use Prim.Native.Nat.Ordering.{lt, gt}
use redgeo.Keys.{hex, hex_digit}
use redgeo.Parser.Atoi.{is_digit}

pub record Floats (F : Type 0) : Type 0 where
  pub bits : F → ℕ
  pub of_bits : ℕ → F
  -- f >= 0
  pub is_nonneg : F → Bool
  pub zero_pos : F
  pub plus_one : F → F
  pub minus_one : F → F
  -- (a + b) / 2
  pub middle : F → F → F

-- strconv.ParseUint(_, 16, 64) of at most 16 digits
unfoldable pub hex_value : ℕ → Option ℕ
unfolding is_digit
hex_value c =
    if is_digit c
    then some (c - b'0')
    else if leb b'a' c && leb c b'f'
    then some (c - 87)
    else if leb b'A' c && leb c b'F'
    then some (c - 55)
    else none

unfoldable pub parse_hex : ℕ → Bytes → Option ℕ
unfolding hex_value
parse_hex acc [] = some acc
parse_hex acc (c ∷ cs) = elim (hex_value c) [ none ↦ none | some d ↦ parse_hex (acc * 16 + d) cs ]

-- bits | 1<<63 for one that is not negative, ^bits for a negative one
unfoldable pub ordered : Bool → ℕ → ℕ
ordered true b = if ltb b (2 ^ 63) then b + 2 ^ 63 else b
ordered false b = u64_mod - 1 - b

unfoldable pub unordered : ℕ → ℕ
unordered u = if ltb u (2 ^ 63) then u64_mod - 1 - u else u - 2 ^ 63

module _ {F : Type 0} (fl : Floats F) where
  unfoldable pub encode_pos : F → Bytes
  unfolding ordered
  encode_pos f = hex 16 (ordered (fl.is_nonneg f) (fl.bits f))

  unfoldable pub decode_pos : Bytes → Option F
  unfolding unordered parse_hex
  decode_pos s =
      if ltb (length s) 16
      then none
      else elim (parse_hex 0 (take 16 s)) [ none ↦ none | some u ↦ some (fl.of_bits (unordered u)) ]

-- What IEEE 754 and package math say of the bits of a float64 that is a number and not the negative
-- zero: the bits of those that are not negative are below 2^63, in their order.
pub record IsFloat64 {F : Type 0} (fl : Floats F) (cmp : F → F → Ordering) : Type 0 where
  pub of_bits_bits : (f : F) → fl.of_bits (fl.bits f) ≡ f
  pub nonneg_bits : (f : F) → fl.is_nonneg f ≡ true → fl.bits f < 2 ^ 63
  pub negative_bits : (f : F) → fl.is_nonneg f ≡ false → (2 ^ 63 ≤ fl.bits f) × (fl.bits f < 2 ^ 64)
  pub nonneg_order :
      (f g : F)
      → fl.is_nonneg f ≡ true
      → fl.is_nonneg g ≡ true
      → cmp f g ≡ compare (fl.bits f) (fl.bits g)
  pub negative_order :
      (f g : F)
      → fl.is_nonneg f ≡ false
      → fl.is_nonneg g ≡ false
      → cmp f g ≡ compare (fl.bits g) (fl.bits f)
  pub sign_order :
      (f g : F) → fl.is_nonneg f ≡ false → fl.is_nonneg g ≡ true → (cmp f g ≡ lt) × (cmp g f ≡ gt)

hex_value-digit : (d : ℕ) → d < 16 → hex_value (hex_digit d) ≡ some d
unfolding hex_value hex_digit is_digit
hex_value-digit d h = elim (Bool-cases (ltb d 10)) [
  | inl small ↦ rw small (ground arith)
  | inr letter ↦ rw letter (ground arith)
]

parse_hex-append :
    (acc : ℕ) (xs ys : Bytes) (n : ℕ)
    → parse_hex acc xs ≡ some n
    → parse_hex acc (xs ++ ys) ≡ parse_hex n ys
unfolding parse_hex
parse_hex-append acc [] ys n done = cc (some_inj.0 done)
parse_hex-append acc (c ∷ xs) ys n done = elim (Option-cases (hex_value c)) [
  | inl bad ↦ absurd (cc (bad, done))
  | inr (d, good) ↦ rw (good, parse_hex) (parse_hex-append (acc * 16 + d) xs ys n (cc (good, done)))
]

div16_lt : (w v : ℕ) → v < 16 ^ suc w → v / 16 < 16 ^ w
div16_lt w v h = let p : v < 16 ^ w * 16 = rw pow-suc at h in omega arith

parse_hex-one : (acc d : ℕ) → d < 16 → parse_hex acc (hex_digit d ∷ []) ≡ some (acc * 16 + d)
unfolding parse_hex
parse_hex-one acc d h = cc (hex_value-digit d h)

parse_hex-hex : (w v : ℕ) → v < 16 ^ w → parse_hex 0 (hex w v) ≡ some v
unfolding hex parse_hex
parse_hex-hex zero v h = ap some (omega (arith, h))
parse_hex-hex (suc w) v h =
    parse_hex-append 0 (hex w (v / 16)) (hex_digit (v % 16) ∷ []) (v / 16)
      (parse_hex-hex w (v / 16) (div16_lt w v h))
    ∙ (parse_hex-one (v / 16) (v % 16) (omega arith) ∙ ap some (omega arith))

length-hex : (w v : ℕ) → length (hex w v) ≡ w
unfolding hex
length-hex zero v = refl
length-hex (suc w) v =
    omega (arith, length-hex w (v / 16), length-append (hex w (v / 16)) (hex_digit (v % 16) ∷ []))

compare-digit : (d e : ℕ) → d < 16 → e < 16 → compare (hex_digit d) (hex_digit e) ≡ compare d e
unfolding hex_digit
compare-digit d e h k = elim (Bool-cases (ltb d 10)) [
  | inl small ↦ rw small (elim (Bool-cases (ltb e 10)) [
    | inl small' ↦ rw small' (ground arith)
    | inr letter' ↦ rw letter' (ground arith)
  ])
  | inr letter ↦ rw letter (elim (Bool-cases (ltb e 10)) [
    | inl small' ↦ rw small' (ground arith)
    | inr letter' ↦ rw letter' (ground arith)
  ])
]

-- Of numbers that fit, the hexadecimal texts compare as the numbers do.
pub compare_bytes-hex :
    (w a b : ℕ) → a < 16 ^ w → b < 16 ^ w → compare_bytes (hex w a) (hex w b) ≡ compare a b
unfolding hex compare_bytes
compare_bytes-hex zero a b h k = ground arith
compare_bytes-hex (suc w) a b h k =
    rw
      (
        compare_bytes-append (hex w (a / 16)) (hex w (b / 16)) (hex_digit (a % 16))
            (hex_digit (b % 16)) (length-hex w (a / 16) ∙ sym (length-hex w (b / 16))),
        compare_bytes-hex w (a / 16) (b / 16) (div16_lt w a h) (div16_lt w b k),
        compare-digit (a % 16) (b % 16) (omega arith) (omega arith),
      )
      (ground arith)

module _ {F : Type 0} (fl : Floats F) {cmp : F → F → Ordering} (float : IsFloat64 fl cmp) where
  ordered_fits : (f : F) → ordered (fl.is_nonneg f) (fl.bits f) < 16 ^ 16
  unfolding ordered
  ordered_fits f = elim (Bool-cases (fl.is_nonneg f)) [
    | inl plus ↦ let b = float.nonneg_bits f plus in rw plus (ground (arith, b))
    | inr minus ↦ rw minus (omega arith)
  ]

  unordered-ordered : (f : F) → unordered (ordered (fl.is_nonneg f) (fl.bits f)) ≡ fl.bits f
  unfolding ordered unordered
  unordered-ordered f = elim (Bool-cases (fl.is_nonneg f)) [
    | inl plus ↦ let b = float.nonneg_bits f plus in rw plus (ground (arith, b))
    | inr minus ↦
        let (low, high) = float.negative_bits f minus in rw minus (ground (arith, low, high))
  ]

  ordered-order :
      (f g : F)
      → compare (ordered (fl.is_nonneg f) (fl.bits f)) (ordered (fl.is_nonneg g) (fl.bits g))
        ≡ cmp f g
  unfolding ordered
  ordered-order f g = elim (Bool-cases (fl.is_nonneg f)) [
    | inl plus ↦ elim (Bool-cases (fl.is_nonneg g)) [
      | inl plus' ↦
          rw (plus, plus', float.nonneg_order f g plus plus')
            (ground (arith, float.nonneg_bits f plus, float.nonneg_bits g plus'))
      | inr minus' ↦
          rw (plus, minus', (float.sign_order g f minus' plus).1)
            (ground (arith, float.nonneg_bits f plus, float.negative_bits g minus'))
    ]
    | inr minus ↦ elim (Bool-cases (fl.is_nonneg g)) [
      | inl plus' ↦
          rw (minus, plus', (float.sign_order f g minus plus').0)
            (ground (arith, float.negative_bits f minus, float.nonneg_bits g plus'))
      | inr minus' ↦
          rw (minus, minus', float.negative_order f g minus minus')
            (ground (arith, float.negative_bits f minus, float.negative_bits g minus'))
    ]
  ]

  -- The position of an element is read back from its key, whatever follows it there.
  pub decode_pos-encode_pos :
      (f : F) (rest : Bytes) → decode_pos fl (encode_pos fl f ++ rest) ≡ some f
  unfolding decode_pos encode_pos
  decode_pos-encode_pos f rest =
      let u = ordered (fl.is_nonneg f) (fl.bits f) in
      let long : ltb (length (hex 16 u ++ rest)) 16 ≡ false =
        ground (arith, length-append (hex 16 u) rest, length-hex 16 u) in
      rw
        (
          long,
          take-append 16 (hex 16 u) rest (length-hex 16 u),
          parse_hex-hex 16 u (ordered_fits f),
          unordered-ordered f,
          float.of_bits_bits f,
        )
        refl

  -- The codes of two positions compare, byte by byte, as the positions do, where the floats compare as
  -- the sign and magnitude of their IEEE 754 bits.
  pub compare_bytes-encode_pos :
      (f g : F) → compare_bytes (encode_pos fl f) (encode_pos fl g) ≡ cmp f g
  unfolding encode_pos
  compare_bytes-encode_pos f g =
      compare_bytes-hex 16 (ordered (fl.is_nonneg f) (fl.bits f))
        (ordered (fl.is_nonneg g) (fl.bits g)) (ordered_fits f) (ordered_fits g)
      ∙ ordered-order f g
