-- ===== src/Base/Lists.antt =====
-- Lists measured and indexed by native numbers, predicates on lists, association lists.
use redgeo.Base.Tests.{
  ℕ, zero, suc, ◌+◌, ◌-◌, ◌≡◌, refl, ap, Option, none, some, List, [], ◌∷◌, ◌++◌, arith,
}
use Prim.Native.Nat.{min}

module _ {ℓ} {A : Type ℓ} where
  abbrev pub length : List A → ℕ
  length [] = 0
  length (x ∷ xs) = suc (length xs)

  abbrev pub get_elem? : List A → ℕ → Option A
  get_elem? [] i = none
  get_elem? (x ∷ xs) zero = some x
  get_elem? (x ∷ xs) (suc i) = get_elem? xs i

  abbrev pub get_or : List A → ℕ → A → A
  get_or [] i d = d
  get_or (x ∷ xs) zero d = x
  get_or (x ∷ xs) (suc i) d = get_or xs i d

  abbrev pub take : ℕ → List A → List A
  take zero xs = []
  take (suc n) [] = []
  take (suc n) (x ∷ xs) = x ∷ take n xs

  abbrev pub drop : ℕ → List A → List A
  drop zero xs = xs
  drop (suc n) [] = []
  drop (suc n) (x ∷ xs) = drop n xs

  pub length-append : (xs ys : List A) → length (xs ++ ys) ≡ length xs + length ys
  length-append [] ys = omega arith
  length-append (x ∷ xs) ys = omega (arith, length-append xs ys)

  pub length-take : (n : ℕ) (xs : List A) → length (take n xs) ≡ min n (length xs)
  length-take zero xs = omega arith
  length-take (suc n) [] = omega arith
  length-take (suc n) (x ∷ xs) = omega (arith, length-take n xs)

  pub length-drop : (n : ℕ) (xs : List A) → length (drop n xs) ≡ length xs - n
  length-drop zero xs = omega arith
  length-drop (suc n) [] = omega arith
  length-drop (suc n) (x ∷ xs) = omega (arith, length-drop n xs)

-- A predicate that holds of every item.
abbrev pub All {ℓ κ} : {A : Type ℓ} → (A → Type κ) → List A → Type κ
All holds [] = Unit
All holds (a ∷ rest) = holds a × All holds rest

pub All-append_one {ℓ κ} :
    {A : Type ℓ} (holds : A → Type κ) (front : List A) (a : A)
    → All holds front
    → holds a
    → All holds (front ++ a ∷ [])
All-append_one holds [] a before last = (last, tt)
All-append_one holds (b ∷ front) a before last =
    (before.0, All-append_one holds front a before.1 last)

pub All-map {ℓ κ} :
    {A : Type ℓ} (P Q : A → Type κ) → ((a : A) → P a → Q a) → (xs : List A) → All P xs → All Q xs
All-map P Q f [] h = tt
All-map P Q f (x ∷ xs) h = (f x h.0, All-map P Q f xs h.1)

module _ {ℓ} {A : Type ℓ} where
  pub take-append : (n : ℕ) (xs ys : List A) → length xs ≡ n → take n (xs ++ ys) ≡ xs
  take-append zero [] ys h = refl
  take-append zero (x ∷ xs) ys h = absurd (omega arith)
  take-append (suc n) [] ys h = absurd (omega arith)
  take-append (suc n) (x ∷ xs) ys h = ap (◌∷◌ x) (take-append n xs ys (omega arith))

  pub drop-append : (n : ℕ) (xs ys : List A) → length xs ≡ n → drop n (xs ++ ys) ≡ ys
  drop-append zero [] ys h = refl
  drop-append zero (x ∷ xs) ys h = absurd (omega arith)
  drop-append (suc n) [] ys h = absurd (omega arith)
  drop-append (suc n) (x ∷ xs) ys h = drop-append n xs ys (omega arith)

  pub get_or-append :
      (n : ℕ) (xs : List A) (a : A) (ys : List A) (d : A)
      → length xs ≡ n
      → get_or (xs ++ a ∷ ys) n d ≡ a
  get_or-append zero [] a ys d h = refl
  get_or-append zero (x ∷ xs) a ys d h = absurd (omega arith)
  get_or-append (suc n) [] a ys d h = absurd (omega arith)
  get_or-append (suc n) (x ∷ xs) a ys d h = get_or-append n xs a ys d (omega arith)

  pub drop-append_cons :
      (n : ℕ) (xs : List A) (a : A) (ys : List A) → length xs ≡ n → drop (suc n) (xs ++ a ∷ ys) ≡ ys
  drop-append_cons zero [] a ys h = refl
  drop-append_cons zero (x ∷ xs) a ys h = absurd (omega arith)
  drop-append_cons (suc n) [] a ys h = absurd (omega arith)
  drop-append_cons (suc n) (x ∷ xs) a ys h = drop-append_cons n xs a ys (omega arith)
