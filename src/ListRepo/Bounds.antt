-- ===== src/ListRepo/Bounds.antt =====
-- crdtstore/rlist.go: the ranges of LRANGE and LTRIM by the indexes of the elements.
use redgeo.Base.{
  ℤ, pos_part, ◌+ℤ◌, ◌-ℤ◌, ltz, lez, pos, negsuc, length, take, drop, ltb, leb, ◌==◌, if◌then◌else◌,
  Bool-cases, ℕ, zero, suc, ◌+◌, ◌-◌, ◌≤◌, ◌<◌, ◌≡◌, refl, sym, ap, ◌∙◌, inl, inr, Bool, true,
  false, ◌&&◌, List, [], ◌∷◌, arith,
}
use redgeo.ListRepo.{range_bounds, abs_index, slice}

module _ {ℓ} {A : Type ℓ} where
  -- The items with an index from lo to hi, and the others.
  unfoldable pub kept : ℤ → ℤ → ℕ → List A → List A
  kept lo hi i [] = []
  kept lo hi i (e ∷ es) =
      let rest = kept lo hi (i + 1) es in
      if lez lo (pos i) && lez (pos i) hi then e ∷ rest else rest

  unfoldable pub trimmed : ℤ → ℤ → ℕ → List A → List A
  trimmed lo hi i [] = []
  trimmed lo hi i (e ∷ es) =
      let rest = trimmed lo hi (i + 1) es in
      if lez lo (pos i) && lez (pos i) hi then rest else e ∷ rest

  pub length-kept :
      (lo hi : ℤ) (i : ℕ) (es : List A)
      → length (kept lo hi i es) + length (trimmed lo hi i es) ≡ length es
  unfolding kept trimmed
  length-kept lo hi i [] = refl
  length-kept lo hi i (e ∷ es) = ground (arith, length-kept lo hi (i + 1) es)

  -- past the end of the range, and within it
  kept-past : (lo hi : ℤ) (i : ℕ) (es : List A) → ltz hi (pos i) ≡ true → kept lo hi i es ≡ []
  unfolding kept
  kept-past lo hi i [] past = refl
  kept-past lo hi i (e ∷ es) past = ground (arith, kept-past lo hi (i + 1) es)

  take-nil : (n : ℕ) → take n (let none_left : List A = [] in none_left) ≡ []
  take-nil zero = refl
  take-nil (suc n) = refl

  drop-nil : (n : ℕ) → drop n (let none_left : List A = [] in none_left) ≡ []
  drop-nil zero = refl
  drop-nil (suc n) = refl

  kept-within :
      (lo hi i : ℕ) (es : List A)
      → lo ≤ i
      → i ≤ hi + 1
      → kept (pos lo) (pos hi) i es ≡ take (hi + 1 - i) es
  unfolding kept
  kept-within lo hi i [] above below = sym (take-nil (hi + 1 - i))
  kept-within lo hi i (e ∷ es) above below = elim (Bool-cases (leb i hi)) [
    | inl inside ↦
        let one_more : hi + 1 - i ≡ suc (hi + 1 - (i + 1)) = ground arith in
        let reach : lez (pos lo) (pos i) && lez (pos i) (pos hi) ≡ true = ground arith in
        rw (reach, one_more)
          (ap (◌∷◌ e) (kept-within lo hi (i + 1) es (omega (arith, above)) (ground arith)))
    | inr outside ↦
        let none_left : hi + 1 - i ≡ 0 = ground arith in
        let reach : lez (pos lo) (pos i) && lez (pos i) (pos hi) ≡ false = ground arith in
        rw (reach, none_left) (kept-past (pos lo) (pos hi) (i + 1) es (ground arith))
  ]

  kept-empty : (lo hi i : ℕ) (es : List A) → hi < lo → kept (pos lo) (pos hi) i es ≡ []
  unfolding kept
  kept-empty lo hi i [] less = refl
  kept-empty lo hi i (e ∷ es) less = ground (arith, kept-empty lo hi (i + 1) es)

  kept-before :
      (lo hi i : ℕ) (es : List A)
      → i ≤ lo
      → lo ≤ hi
      → kept (pos lo) (pos hi) i es ≡ take (hi + 1 - lo) (drop (lo - i) es)
  unfolding kept
  kept-before lo hi i [] above below = rw (drop-nil (lo - i), take-nil (hi + 1 - lo)) refl
  kept-before lo hi i (e ∷ es) above below = elim (Bool-cases (ltb i lo)) [
    | inl early ↦
        let one_more : lo - i ≡ suc (lo - (i + 1)) = ground arith in
        let reach : lez (pos lo) (pos i) && lez (pos i) (pos hi) ≡ false = ground arith in
        rw (reach, one_more) (kept-before lo hi (i + 1) es (ground arith) below)
    | inr there ↦
        let same : lo ≡ i = ground arith in
        let no_more : lo - i ≡ 0 = omega (arith, same) in
        rw no_more (
          kept-within lo hi i (e ∷ es) (omega (arith, same)) (omega (arith, same, below))
          ∙ ap (λ k. take (hi + 1 - k) (e ∷ es)) (sym same))
  ]

  -- The items with an index in the range are the slice.
  pub kept-slice : (lo : ℕ) (hi : ℤ) (es : List A) → kept (pos lo) hi 0 es ≡ slice (pos lo) hi es
  unfolding slice
  kept-slice lo (negsuc hi) es = kept-past (pos lo) (negsuc hi) 0 es (ground arith)
  kept-slice lo (pos hi) es = elim (Bool-cases (ltb hi lo)) [
    | inl empty ↦ rw empty (kept-empty lo hi 0 es (ground arith))
    | inr full ↦ rw full (
        kept-before lo hi 0 es (omega arith) (ground arith)
        ∙ ap (λ k. take (hi + 1 - lo) (drop k es)) (let e : lo - 0 ≡ lo = omega arith in e))
  ]

nonneg : (z : ℤ) → ltz z (pos 0) ≡ false → z ≡ pos (pos_part z)
nonneg (pos n) h = refl
nonneg (negsuc n) h = ground arith

-- The lower bound of a range is not negative.
pub lower_bound :
    (start stop : ℤ) (n : ℕ)
    → (range_bounds start stop n).0 ≡ pos (pos_part (range_bounds start stop n).0)
unfolding range_bounds
lower_bound start stop n = elim (Bool-cases (n == 0)) [
  | inl empty ↦ rw empty refl
  | inr more ↦ rw more (elim (Bool-cases (ltz (abs_index start n) (pos 0))) [
    | inl low ↦ rw low refl
    | inr high ↦ rw high (nonneg (abs_index start n) high)
  ])
]

-- The index that a start or a stop means in a list of `n` items: a negative one counts from the end.
unfoldable pub index_in : ℕ → ℤ → ℤ
index_in n (pos i) = pos i
index_in n (negsuc i) = if ltb i n then pos (n - (i + 1)) else negsuc (i - n)

abs_index-index_in : (n : ℕ) (x : ℤ) → abs_index x n ≡ index_in n x
unfolding abs_index index_in ◌+ℤ◌
abs_index-index_in n (pos i) = ground arith
abs_index-index_in n (negsuc i) = ground arith

low_enough : (z : ℤ) (i : ℕ) → lez (if ltz z (pos 0) then pos 0 else z) (pos i) ≡ lez z (pos i)
low_enough (pos a) i = ground arith
low_enough (negsuc a) i = ground arith

high_enough :
    (z : ℤ) (n i : ℕ)
    → i < n
    → lez (pos i) (if lez (pos n) z then pos n -ℤ pos 1 else z) ≡ lez (pos i) z
unfolding ◌-ℤ◌ ◌+ℤ◌
high_enough (pos a) n i h = ground (arith, h)
high_enough (negsuc a) n i h = ground (arith, h)

abbrev pub within : ℤ → ℤ → ℕ → Bool
within lo hi i = lez lo (pos i) && lez (pos i) hi

range_bounds-index_in :
    (start stop : ℤ) (n i : ℕ)
    → i < n
    → within (range_bounds start stop n).0 (range_bounds start stop n).1 i
      ≡ within (index_in n start) (index_in n stop) i
unfolding range_bounds
range_bounds-index_in start stop n i h =
    let some_left : (n == 0) ≡ false = ground (arith, h) in
    rw (some_left, abs_index-index_in n start, abs_index-index_in n stop) rw
      (low_enough (index_in n start) i, high_enough (index_in n stop) n i h) refl

module _ {ℓ} {A : Type ℓ} where
  same_parts :
      (lo hi lo' hi' : ℤ) (i : ℕ) (es : List A)
      → ((j : ℕ) → j < i + length es → within lo hi j ≡ within lo' hi' j)
      → (kept lo hi i es ≡ kept lo' hi' i es) × (trimmed lo hi i es ≡ trimmed lo' hi' i es)
  unfolding kept trimmed
  same_parts lo hi lo' hi' i [] same = (refl, refl)
  same_parts lo hi lo' hi' i (e ∷ es) same =
      let (k, t) = same_parts lo hi lo' hi' (i + 1) es (λ j h. same j (omega (arith, h))) in
      let here = same i (omega arith) in (rw (here, k) refl, rw (here, t) refl)

  -- The bounds of a range split a list as the indexes do that its start and its stop mean.
  pub range_bounds-parts :
      (start stop : ℤ) (es : List A)
      → (kept (range_bounds start stop (length es)).0 (range_bounds start stop (length es)).1 0 es
          ≡ kept (index_in (length es) start) (index_in (length es) stop) 0 es)
        × (trimmed
              (range_bounds start stop (length es)).0
              (range_bounds start stop (length es)).1
              0
              es
            ≡ trimmed (index_in (length es) start) (index_in (length es) stop) 0 es)
  range_bounds-parts start stop es =
      same_parts (range_bounds start stop (length es)).0 (range_bounds start stop (length es)).1
        (index_in (length es) start) (index_in (length es) stop) 0 es
        (λ j h. range_bounds-index_in start stop (length es) j (omega (arith, h)))
