-- ===== src/Base/Sorting.antt =====
-- Sets of strings as lists: membership, deletion and sort.Strings.
use redgeo.Base.Tests.{
  suc, Bool, false, not, ◌||◌, ◌&&◌, List, [], ◌∷◌, ◌≡◌, refl, ap, ◌∙◌, inl, inr, if◌then◌else◌,
  arith, Ordering,
}
use redgeo.Base.Order.{Ordering-cases}
use redgeo.Base.Lists.{All, length}
use redgeo.Base.ByteStrings.{Bytes, compare_bytes, bytes_eq, bytes_eq_iff}

-- slices.Contains
unfoldable pub contains : List Bytes → Bytes → Bool
contains [] v = false
contains (x ∷ xs) v = bytes_eq x v || contains xs v

-- sort.Strings
unfoldable pub insert_sorted : Bytes → List Bytes → List Bytes
insert_sorted x [] = x ∷ []
insert_sorted x (y ∷ ys) =
    let rest = insert_sorted x ys in
    elim (compare_bytes x y) [ Ordering.gt ↦ y ∷ rest | _ ↦ x ∷ y ∷ ys ]

unfoldable pub sort : List Bytes → List Bytes
unfolding insert_sorted
sort [] = []
sort (x ∷ xs) = insert_sorted x (sort xs)

-- delete(set, x)
unfoldable pub without : Bytes → List Bytes → List Bytes
without x [] = []
without x (y ∷ ys) = let rest = without x ys in if bytes_eq y x then rest else y ∷ rest

pub insert_sorted-contains :
    (x y : Bytes) (xs : List Bytes) → contains (insert_sorted x xs) y ≡ contains (x ∷ xs) y
unfolding insert_sorted contains
insert_sorted-contains x y [] = refl
insert_sorted-contains x y (z ∷ zs) = ground (arith, insert_sorted-contains x y zs)

pub sort-contains : (xs : List Bytes) (y : Bytes) → contains (sort xs) y ≡ contains xs y
unfolding sort contains
sort-contains [] y = refl
sort-contains (x ∷ xs) y = insert_sorted-contains x y (sort xs) ∙ rw (sort-contains xs y) refl

insert_sorted-All :
    (P : Bytes → Type 0) (x : Bytes) (xs : List Bytes) → P x → All P xs → All P (insert_sorted x xs)
unfolding insert_sorted
insert_sorted-All P x [] p h = (p, tt)
insert_sorted-All P x (y ∷ ys) p h = elim (Ordering-cases (compare_bytes x y)) [
  | inl less ↦ rw (less, All) (p, h)
  | inr (inl same) ↦ rw (same, All) (p, h)
  | inr (inr more) ↦ rw (more, All) (h.0, insert_sorted-All P x ys p h.1)
]

pub sort-All : (P : Bytes → Type 0) (xs : List Bytes) → All P xs → All P (sort xs)
unfolding sort
sort-All P [] h = tt
sort-All P (x ∷ xs) h = insert_sorted-All P x (sort xs) h.0 (sort-All P xs h.1)

insert_sorted-length : (x : Bytes) (xs : List Bytes) → length (insert_sorted x xs) ≡ suc (length xs)
unfolding insert_sorted
insert_sorted-length x [] = refl
insert_sorted-length x (y ∷ ys) = ground (arith, insert_sorted-length x ys)

pub sort-length : (xs : List Bytes) → length (sort xs) ≡ length xs
unfolding sort
sort-length [] = refl
sort-length (x ∷ xs) = insert_sorted-length x (sort xs) ∙ ap suc (sort-length xs)

pub contains-without :
    (x y : Bytes) (set : List Bytes)
    → contains (without x set) y ≡ (contains set y && not (bytes_eq x y))
unfolding contains without
contains-without x y [] = refl
contains-without x y (z ∷ set) =
    ground (arith, contains-without x y set, bytes_eq_iff z x, bytes_eq_iff x y, bytes_eq_iff z y)
