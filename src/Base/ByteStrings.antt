-- ===== src/Base/ByteStrings.antt =====
-- Byte strings as lists of numbers: comparison, equality, big-endian integers (encoding/binary).
use redgeo.Base.Tests.{
  ℕ, zero, suc, ◌+◌, ◌*◌, ◌/◌, ◌%◌, ◌^◌, ◌<◌, ◌≡◌, refl, sym, ◌∙◌, Bool, true, false, ◌↔◌, List, [],
  ◌∷◌, ◌++◌, arith, compare, Ordering,
}
use redgeo.Base.Order.{IsOrder, then_by}
use redgeo.Base.Lists.{length, length-append, All, All-append_one}
use Prim.Native.Nat.Ordering.{lt, eq, gt}
use native.Mathlib.Nat.{pow-suc}
use Prim.Native.String.{String}
use Prim.Native.Char.{code}

abbrev pub Bytes : Type 0
Bytes = List ℕ

abbrev pub IsByte : ℕ → Type 0
IsByte b = b < 256

-- Go's order of strings: byte by byte, a proper prefix first.
unfoldable pub compare_bytes : Bytes → Bytes → Ordering
compare_bytes [] [] = eq
compare_bytes [] (y ∷ ys) = lt
compare_bytes (x ∷ xs) [] = gt
compare_bytes (x ∷ xs) (y ∷ ys) = then_by (compare x y) (compare_bytes xs ys)

compare_bytes_self : (a : Bytes) → compare_bytes a a ≡ eq
unfolding compare_bytes
compare_bytes_self [] = refl
compare_bytes_self (x ∷ xs) = ground (arith, compare_bytes_self xs)

compare_bytes-same : (a b : Bytes) → compare_bytes a b ≡ eq → a ≡ b
unfolding compare_bytes
compare_bytes-same [] [] h = refl
compare_bytes-same [] (y ∷ ys) h = ground arith
compare_bytes-same (x ∷ xs) [] h = ground arith
compare_bytes-same (x ∷ xs) (y ∷ ys) h = ground (arith, compare_bytes-same xs ys)

compare_bytes-flip_gt : (a b : Bytes) → compare_bytes a b ≡ gt → compare_bytes b a ≡ lt
unfolding compare_bytes
compare_bytes-flip_gt [] [] h = ground arith
compare_bytes-flip_gt [] (y ∷ ys) h = ground arith
compare_bytes-flip_gt (x ∷ xs) [] h = refl
compare_bytes-flip_gt (x ∷ xs) (y ∷ ys) h = ground (arith, compare_bytes-flip_gt xs ys)

compare_bytes-flip_lt : (a b : Bytes) → compare_bytes a b ≡ lt → compare_bytes b a ≡ gt
unfolding compare_bytes
compare_bytes-flip_lt [] [] h = ground arith
compare_bytes-flip_lt [] (y ∷ ys) h = refl
compare_bytes-flip_lt (x ∷ xs) [] h = ground arith
compare_bytes-flip_lt (x ∷ xs) (y ∷ ys) h = ground (arith, compare_bytes-flip_lt xs ys)

compare_bytes-chain :
    (a b c : Bytes) → compare_bytes a b ≡ lt → compare_bytes b c ≡ lt → compare_bytes a c ≡ lt
unfolding compare_bytes
compare_bytes-chain [] [] c h k = ground arith
compare_bytes-chain [] (y ∷ ys) [] h k = ground arith
compare_bytes-chain [] (y ∷ ys) (z ∷ zs) h k = refl
compare_bytes-chain (x ∷ xs) [] c h k = ground arith
compare_bytes-chain (x ∷ xs) (y ∷ ys) [] h k = ground arith
compare_bytes-chain (x ∷ xs) (y ∷ ys) (z ∷ zs) h k = ground (arith, compare_bytes-chain xs ys zs)

pub Bytes-IsOrder : IsOrder compare_bytes
Bytes-IsOrder = record {
  self = compare_bytes_self;
  same = compare_bytes-same;
  flip_gt = compare_bytes-flip_gt;
  flip_lt = compare_bytes-flip_lt;
  chain = compare_bytes-chain;
}

-- a == b
unfoldable pub bytes_eq : Bytes → Bytes → Bool
bytes_eq a b = elim (compare_bytes a b) [ Ordering.eq ↦ true | _ ↦ false ]

pub bytes_eq_iff : (a b : Bytes) → (bytes_eq a b ≡ true) ↔ (a ≡ b)
unfolding bytes_eq
bytes_eq_iff a b =
    (λ h. compare_bytes-same a b (ground arith), λ e. ground (arith, compare_bytes_self a))

-- The `w` low bytes of `v`, the highest first.
unfoldable pub be : ℕ → ℕ → Bytes
be zero v = []
be (suc w) v = be w (v / 256) ++ v % 256 ∷ []

unfoldable pub un_be : ℕ → Bytes → ℕ
un_be acc [] = acc
un_be acc (b ∷ bs) = un_be (acc * 256 + b) bs

un_be-append : (acc : ℕ) (xs : Bytes) (b : ℕ) → un_be acc (xs ++ b ∷ []) ≡ un_be acc xs * 256 + b
unfolding un_be
un_be-append acc [] b = refl
un_be-append acc (x ∷ xs) b = un_be-append (acc * 256 + x) xs b

pub length-be : (w v : ℕ) → length (be w v) ≡ w
unfolding be
length-be zero v = refl
length-be (suc w) v =
    omega (arith, length-be w (v / 256), length-append (be w (v / 256)) (v % 256 ∷ []))

pub be-IsByte : (w v : ℕ) → All IsByte (be w v)
unfolding be
be-IsByte zero v = tt
be-IsByte (suc w) v =
    All-append_one IsByte (be w (v / 256)) (v % 256) (be-IsByte w (v / 256)) (omega arith)

div-lt-pow : (w v : ℕ) → v < 256 ^ suc w → v / 256 < 256 ^ w
div-lt-pow w v h = let p : v < 256 ^ w * 256 = rw pow-suc at h in omega arith

-- A number that fits is read back.
pub un_be-be : (w v : ℕ) → v < 256 ^ w → un_be 0 (be w v) ≡ v
unfolding be un_be
un_be-be zero v h = omega arith
un_be-be (suc w) v h =
    let fits : v / 256 < 256 ^ w = div-lt-pow w v h in
    rw un_be-append (omega (arith, un_be-be w (v / 256) fits))

compare-div-mod :
    (a b : ℕ) → compare a b ≡ then_by (compare (a / 256) (b / 256)) (compare (a % 256) (b % 256))
compare-div-mod a b = ground arith

pub compare_bytes-append :
    (xs ys : Bytes) (a b : ℕ)
    → length xs ≡ length ys
    → compare_bytes (xs ++ a ∷ []) (ys ++ b ∷ []) ≡ then_by (compare_bytes xs ys) (compare a b)
unfolding compare_bytes
compare_bytes-append [] [] a b h = ground arith
compare_bytes-append [] (y ∷ ys) a b h = absurd (omega arith)
compare_bytes-append (x ∷ xs) [] a b h = absurd (omega arith)
compare_bytes-append (x ∷ xs) (y ∷ ys) a b h = ground (arith, compare_bytes-append xs ys a b)

-- Of numbers that fit, the byte strings compare as the numbers do.
pub compare_bytes-be :
    (w a b : ℕ) → a < 256 ^ w → b < 256 ^ w → compare_bytes (be w a) (be w b) ≡ compare a b
unfolding be compare_bytes
compare_bytes-be zero a b h k = ground arith
compare_bytes-be (suc w) a b h k =
    rw
      (
        compare_bytes-append (be w (a / 256)) (be w (b / 256)) (a % 256) (b % 256)
            (length-be w (a / 256) ∙ sym (length-be w (b / 256))),
        compare_bytes-be w (a / 256) (b / 256) (div-lt-pow w a h) (div-lt-pow w b k),
      )
      (sym (compare-div-mod a b))

-- Two byte strings of one length decide before what follows them.
pub compare_bytes-append_same_length :
    (xs ys us vs : Bytes)
    → length xs ≡ length ys
    → compare_bytes (xs ++ us) (ys ++ vs) ≡ then_by (compare_bytes xs ys) (compare_bytes us vs)
unfolding compare_bytes
compare_bytes-append_same_length [] [] us vs h = refl
compare_bytes-append_same_length [] (y ∷ ys) us vs h = absurd (omega arith)
compare_bytes-append_same_length (x ∷ xs) [] us vs h = absurd (omega arith)
compare_bytes-append_same_length (x ∷ xs) (y ∷ ys) us vs h =
    ground (arith, compare_bytes-append_same_length xs ys us vs)

-- The bytes of an ASCII text.
abbrev pub ascii : String → Bytes
ascii String.[] = []
ascii (String.◌∷◌ c s) = code c ∷ ascii s
