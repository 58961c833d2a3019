-- ===== src/Bitops/Position.antt =====
-- BITPOS: the search that skips whole bytes finds the first bit.
use redgeo.Base.{
  Bytes, get_or, leb, ◌==◌, Bool-cases, ℕ, zero, suc, ◌+◌, ◌-◌, ◌/◌, ◌%◌, ◌^◌, ◌≤◌, ◌<◌, ◌≡◌, refl,
  inl, inr, Bool, true, false, not, ◌&&◌, Option, none, some, arith,
}
use redgeo.Bitops.{bit_set, same_bit, skip_byte, bit_pos_from, bit_pos_range}
use Prim.Native.Nat.{bit_and}
use mathlib.Core.Path.{subst}
use native.Mathlib.Decide.{dec_le}

-- What a search from `off` to `eb` may answer.
abbrev pub IsFirst : Bytes → Bool → ℕ → ℕ → Option ℕ → Type 0
IsFirst d bit off eb none = (q : ℕ) → off ≤ q → q ≤ eb → same_bit (bit_set d q) bit ≡ false
IsFirst d bit off eb (some p) =
    (off ≤ p)
    × (p ≤ eb)
    × (same_bit (bit_set d p) bit ≡ true)
    × ((q : ℕ) → off ≤ q → q < p → same_bit (bit_set d q) bit ≡ false)

-- A test that answers true of the `n` places from `from` on, tried one by one.
holds_from : (ℕ → Bool) → ℕ → ℕ → Bool
holds_from test from zero = true
holds_from test from (suc left) = test from && holds_from test (from + 1) left

holds_from-at :
    (test : ℕ → Bool) (from left j : ℕ)
    → holds_from test from left ≡ true
    → from ≤ j
    → j < from + left
    → test j ≡ true
unfolding holds_from
holds_from-at test from zero j tried low high = absurd (omega arith)
holds_from-at test from (suc left) j tried low high = elim (Bool-cases (from == j)) [
  | inl here ↦ let at : j ≡ from = ground arith in rw at (ground arith)
  | inr later ↦ holds_from-at test (from + 1) left j (ground arith) (ground arith) (omega arith)
]

abbrev no_bit_at : Bool → ℕ → Bool
no_bit_at bit j = not (same_bit (not (bit_and (skip_byte bit) (128 / 2 ^ j) == 0)) bit)

no_bit_table : (bit : Bool) → holds_from (no_bit_at bit) 0 8 ≡ true
unfolding holds_from
no_bit_table true = refl
no_bit_table false = refl

no_bit :
    (bit : Bool) (j : ℕ)
    → j < 8
    → same_bit (not (bit_and (skip_byte bit) (128 / 2 ^ j) == 0)) bit ≡ false
no_bit bit j h =
    let t : no_bit_at bit j ≡ true =
      holds_from-at (no_bit_at bit) 0 8 j (no_bit_table bit) (omega arith) (omega arith) in
    not_true t
  where
    not_true : {b : Bool} → not b ≡ true → b ≡ false
    not_true h = ground arith

skipped :
    (d : Bytes) (bit : Bool) (off q : ℕ)
    → off % 8 ≡ 0
    → get_or d (off / 8) 0 ≡ skip_byte bit
    → off ≤ q
    → q < off + 8
    → same_bit (bit_set d q) bit ≡ false
unfolding bit_set
skipped d bit off q h k a b =
    let e : q / 8 ≡ off / 8 = omega arith in rw (e, k) (no_bit bit (q % 8) (omega arith))

-- A search that starts `k` bits further on, past bits that are not wanted.
widen :
    (d : Bytes) (bit : Bool) (off k eb : ℕ) (o : Option ℕ)
    → IsFirst d bit (off + k) eb o
    → ((q : ℕ) → off ≤ q → q < off + k → same_bit (bit_set d q) bit ≡ false)
    → IsFirst d bit off eb o
widen d bit off k eb none f n =
    λ q a b. elim (dec_le (off + k) q) [ yes p ↦ f q p b | no p ↦ n q a (omega arith) ]
widen d bit off k eb (some p) (a, b, is, before) n = (
  omega arith,
  b,
  is,
  λ q c e. elim (dec_le (off + k) q) [ yes p ↦ before q p e | no p ↦ n q c (omega arith) ],
)

bit_pos_from-IsFirst :
    (fuel : ℕ) (d : Bytes) (bit : Bool) (off eb : ℕ)
    → eb + 1 - off ≤ fuel
    → IsFirst d bit off eb (bit_pos_from fuel d bit off eb)
unfolding bit_pos_from
bit_pos_from-IsFirst zero d bit off eb h = λ q a b. absurd (omega arith)
bit_pos_from-IsFirst (suc fuel) d bit off eb h = elim (Bool-cases (leb off eb)) [
  | inr over ↦
      let r : none ≡ bit_pos_from (suc fuel) d bit off eb = ground arith in
      subst (IsFirst d bit off eb) r (λ q a b. absurd (ground arith))
  | inl inside ↦
      elim (Bool-cases
        (off % 8 == 0 && leb (off + 7) eb && get_or d (off / 8) 0 == skip_byte bit)) [
          | inl skip ↦
              let r : bit_pos_from fuel d bit (off + 8) eb ≡ bit_pos_from (suc fuel) d bit off eb =
                ground arith in
              subst (IsFirst d bit off eb) r (
                widen d bit off 8 eb (bit_pos_from fuel d bit (off + 8) eb)
                  (bit_pos_from-IsFirst fuel d bit (off + 8) eb (ground arith))
                  (λ q a b. skipped d bit off q (ground arith) (ground arith) a b))
          | inr look ↦ elim (Bool-cases (same_bit (bit_set d off) bit)) [
            | inl found ↦
                let r : some off ≡ bit_pos_from (suc fuel) d bit off eb = ground arith in
                subst (IsFirst d bit off eb) r
                  (omega arith, ground arith, found, λ q a b. absurd (omega arith))
            | inr missed ↦
                let r : bit_pos_from fuel d bit (off + 1) eb
                    ≡ bit_pos_from (suc fuel) d bit off eb =
                  ground arith in
                subst (IsFirst d bit off eb) r (
                  widen d bit off 1 eb (bit_pos_from fuel d bit (off + 1) eb)
                    (bit_pos_from-IsFirst fuel d bit (off + 1) eb (ground arith))
                    (λ q a b. let e : q ≡ off = omega arith in rw e missed))
          ]
        ]
]

-- bitPosRange gives the first bit of the range that is as wanted, and -1 exactly if there is none:
-- skipping whole bytes loses nothing.
pub bit_pos_range-IsFirst :
    (d : Bytes) (bit : Bool) (sb eb : ℕ) → IsFirst d bit sb eb (bit_pos_range d bit sb eb)
unfolding bit_pos_range
bit_pos_range-IsFirst d bit sb eb = bit_pos_from-IsFirst (eb + 1 - sb) d bit sb eb (omega arith)
