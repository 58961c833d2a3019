-- ===== src/Base/Maps.antt =====
-- Go maps as association lists: each key stands once. Generic in the key's equality test.
use redgeo.Base.Tests.{
  ℕ, ◌==◌, ==_iff, Bool, Bool-cases, true, if◌then◌else◌, List, [], ◌∷◌, Option, none, some, arith,
  ◌≡◌, refl, ◌↔◌, ◌⊎◌, inl, inr,
}
use redgeo.Base.ByteStrings.{Bytes, bytes_eq, bytes_eq_iff}

pub record Key {ℓ} (K : Type ℓ) : Type ℓ where
  pub same_key : K → K → Bool
  pub same_key_iff : (j k : K) → (same_key j k ≡ true) ↔ (j ≡ k)

instance abbrev pub bytes_key : Key Bytes
bytes_key = record { same_key = bytes_eq; same_key_iff = bytes_eq_iff }

instance abbrev pub nat_key : Key ℕ
nat_key = record { same_key = ◌==◌; same_key_iff = ==_iff }

abbrev pub Map {ℓ} : Type ℓ → Type ℓ → Type ℓ
Map K V = List (K × V)

pub data Never {ℓ} : Type ℓ where

-- To be an item of a list.
abbrev pub In {ℓ} : {A : Type ℓ} → A → List A → Type ℓ
In a [] = Never
In a (x ∷ xs) = (a ≡ x) ⊎ In a xs

module _ {ℓ} {K V : Type ℓ} ⦃e : Key K⦄ where
  -- m[k]
  unfoldable pub lookup : K → Map K V → Option V
  lookup k [] = none
  lookup k ((j, v) ∷ m) = if e.same_key j k then some v else lookup k m

  -- delete(m, k)
  unfoldable pub remove : K → Map K V → Map K V
  remove k [] = []
  remove k ((j, v) ∷ m) = let rest = remove k m in if e.same_key j k then rest else (j, v) ∷ rest

  -- m[k] = v
  unfoldable pub insert : K → V → Map K V → Map K V
  unfolding remove
  insert k v m = (k, v) ∷ remove k m

  pub lookup-nil : (k : K) → lookup k (let m : Map K V = [] in m) ≡ none
  unfolding lookup
  lookup-nil k = refl

  pub lookup-remove :
      (k j : K) (m : Map K V)
      → lookup j (remove k m) ≡ (if e.same_key k j then none else lookup j m)
  unfolding lookup remove
  lookup-remove k j [] = ground arith
  lookup-remove k j ((i, v) ∷ m) =
      ground
        (arith, lookup-remove k j m, e.same_key_iff i k, e.same_key_iff i j, e.same_key_iff k j)

  pub lookup-insert :
      (k j : K) (v : V) (m : Map K V)
      → lookup j (insert k v m) ≡ (if e.same_key k j then some v else lookup j m)
  unfolding lookup insert
  lookup-insert k j v m = rw (lookup-remove k j m) (ground arith)

  -- No key stands twice.
  abbrev pub Distinct : Map K V → Type ℓ
  Distinct [] = Unit
  Distinct ((k, v) ∷ m) = (lookup k m ≡ none) × Distinct m

  pub remove-Distinct : (k : K) (m : Map K V) → Distinct m → Distinct (remove k m)
  unfolding remove
  remove-Distinct k [] d = tt
  remove-Distinct k ((j, v) ∷ m) d = elim (Bool-cases (e.same_key j k)) [
    | inl same ↦ rw same (remove-Distinct k m d.1)
    | inr other ↦ rw other (rw (lookup-remove k j m) (ground arith), remove-Distinct k m d.1)
  ]

  pub insert-Distinct : (k : K) (v : V) (m : Map K V) → Distinct m → Distinct (insert k v m)
  unfolding insert
  insert-Distinct k v m d =
      (rw (lookup-remove k k m) (ground (arith, e.same_key_iff k k)), remove-Distinct k m d)

  -- With distinct keys, to be an entry and to be found are one.
  pub lookup-In : (k : K) (v : V) (m : Map K V) → lookup k m ≡ some v → In (k, v) m
  unfolding lookup
  lookup-In k v [] h = absurd (cc)
  lookup-In k v ((j, w) ∷ m) h = elim (Bool-cases (e.same_key j k)) [
    | inl same ↦ inl (ground (arith, e.same_key_iff j k))
    | inr other ↦ inr (lookup-In k v m (ground arith))
  ]

  pub In-lookup : (k : K) (v : V) (m : Map K V) → Distinct m → In (k, v) m → lookup k m ≡ some v
  unfolding lookup
  In-lookup k v [] d h = elim h [ ]
  In-lookup k v ((j, w) ∷ m) d (inl h) = ground (arith, e.same_key_iff j k)
  In-lookup k v ((j, w) ∷ m) d (inr h) = ground (arith, e.same_key_iff j k, In-lookup k v m d.1 h)
