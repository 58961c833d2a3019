-- ===== src/Bitops/Digits.antt =====
-- bitop's operators on bytes, digit by digit.
use Prim.Native.Nat.{
  min, max, differ, digits, bitwise, bit_and, bit_or, bit_xor, bit_and-bitwise, bit_or-bitwise,
  bit_xor-bitwise,
}
use native.Mathlib.Nat.{pow-suc}
use redgeo.Base.{ℕ, zero, suc, ◌+◌, ◌-◌, ◌*◌, ◌/◌, ◌%◌, ◌^◌, ◌≤◌, ◌<◌, ◌≡◌, refl, ap, ◌∙◌, arith}

-- the binary digit of `b` with weight `2 ^ k`
unfoldable pub digit : ℕ → ℕ → ℕ
digit zero b = b % 2
digit (suc k) b = digit k (b / 2)

module _ (past : ℕ → ℕ) (f : ℕ → ℕ → ℕ) where
  digits-enough :
      (fuel fuel' x y : ℕ) → x ≤ fuel → x ≤ fuel' → digits past f fuel x y ≡ digits past f fuel' x y
  digits-enough zero zero x y le le' = refl
  digits-enough (suc fuel) zero (suc x) y le le' = absurd (omega arith)
  digits-enough zero (suc fuel') (suc x) y le le' = absurd (omega arith)
  digits-enough zero (suc fuel') zero y le le' = refl
  digits-enough (suc fuel) zero zero y le le' = refl
  digits-enough (suc fuel) (suc fuel') zero y le le' = refl
  digits-enough (suc fuel) (suc fuel') (suc x) y le le' =
      rw (digits-enough fuel fuel' (suc x / 2) (y / 2) (omega arith) (omega arith))

  bitwise-halves :
      (x y : ℕ)
      → bitwise past f (suc x) y ≡ bitwise past f (suc x / 2) (y / 2) * 2 + f (suc x % 2) (y % 2)
  bitwise-halves x y =
      let h : suc x / 2 ≤ suc x / 2 = omega arith in
      omega (arith, digits-enough x (suc x / 2) (suc x / 2) (y / 2) (omega arith) h)

and-halves : (x y : ℕ) → bit_and x y ≡ bit_and (x / 2) (y / 2) * 2 + min (x % 2) (y % 2)
and-halves zero y = simp bit_and-bitwise (omega arith)
and-halves (suc x) y = simp bit_and-bitwise (bitwise-halves (λ b. 0) min x y)

or-halves : (x y : ℕ) → bit_or x y ≡ bit_or (x / 2) (y / 2) * 2 + max (x % 2) (y % 2)
or-halves zero y = simp bit_or-bitwise (omega arith)
or-halves (suc x) y = simp bit_or-bitwise (bitwise-halves (λ b. b) max x y)

xor-halves : (x y : ℕ) → bit_xor x y ≡ bit_xor (x / 2) (y / 2) * 2 + differ (x % 2) (y % 2)
xor-halves zero y = simp bit_xor-bitwise (omega arith)
xor-halves (suc x) y = simp bit_xor-bitwise (bitwise-halves (λ b. b) differ x y)

pub digit-le : (k b : ℕ) → digit k b ≤ 1
unfolding digit
digit-le zero b = omega arith
digit-le (suc k) b = digit-le k (b / 2)

module _ (op f : ℕ → ℕ → ℕ)
    (halves : (x y : ℕ) → op x y ≡ op (x / 2) (y / 2) * 2 + f (x % 2) (y % 2))
    (bit : (x y : ℕ) → x < 2 → y < 2 → f x y < 2) where
  low : (x y : ℕ) → op x y % 2 ≡ f (x % 2) (y % 2)
  low x y = omega (arith, halves x y, bit (x % 2) (y % 2) (omega arith) (omega arith))

  rest : (x y : ℕ) → op x y / 2 ≡ op (x / 2) (y / 2)
  rest x y = omega (arith, halves x y, bit (x % 2) (y % 2) (omega arith) (omega arith))

  digit-op : (k x y : ℕ) → digit k (op x y) ≡ f (digit k x) (digit k y)
  unfolding digit
  digit-op zero x y = low x y
  digit-op (suc k) x y = ap (digit k) (rest x y) ∙ digit-op k (x / 2) (y / 2)

bits :
    (f : ℕ → ℕ → ℕ)
    → f 0 0 < 2
    → f 0 1 < 2
    → f 1 0 < 2
    → f 1 1 < 2
    → (x y : ℕ) → x < 2
    → y < 2
    → f x y < 2
bits f a b c d zero zero h h' = a
bits f a b c d zero (suc zero) h h' = b
bits f a b c d (suc zero) zero h h' = c
bits f a b c d (suc zero) (suc zero) h h' = d
bits f a b c d (suc (suc x)) y h h' = absurd (omega arith)
bits f a b c d x (suc (suc y)) h h' = absurd (omega arith)

pub digit-and : (k x y : ℕ) → digit k (bit_and x y) ≡ min (digit k x) (digit k y)
digit-and =
    digit-op bit_and min and-halves
      (bits min (omega arith) (omega arith) (omega arith) (omega arith))

pub digit-or : (k x y : ℕ) → digit k (bit_or x y) ≡ max (digit k x) (digit k y)
digit-or =
    digit-op bit_or max or-halves (bits max (omega arith) (omega arith) (omega arith) (omega arith))

pub digit-xor : (k x y : ℕ) → digit k (bit_xor x y) ≡ differ (digit k x) (digit k y)
digit-xor =
    digit-op bit_xor differ xor-halves
      (bits differ (omega arith) (omega arith) (omega arith) (omega arith))

pub digit-complement : (n k b : ℕ) → b < 2 ^ n → k < n → digit k (2 ^ n - 1 - b) ≡ 1 - digit k b
unfolding digit
digit-complement zero k b h h' = absurd (omega arith)
digit-complement (suc n) zero b h h' = omega (arith, pow-suc 2 n)
digit-complement (suc n) (suc k) b h h' =
    let half : (2 ^ suc n - 1 - b) / 2 ≡ 2 ^ n - 1 - b / 2 = omega (arith, pow-suc 2 n) in
    ap (digit k) half ∙ digit-complement n k (b / 2) (omega (arith, pow-suc 2 n)) (omega arith)
