-- ===== src/Scan/Paging.antt =====
-- One page of a scan: what it takes, and where the next one goes on.
use redgeo.Base.{
  Bytes, length, drop, leb, if◌then◌else◌, Bool-cases, ℕ, suc, ◌+◌, ◌-◌, ◌≤◌, ◌<◌, ◌≡◌, refl, sym,
  ap, ◌∙◌, ◌≢◌, ◌⊎◌, inl, inr, true, false, some, List, [], ◌∷◌, ◌++◌, arith,
}
use mathlib.Core.Option.{some_inj}
use mathlib.Core.Path.{subst}
use redgeo.Scan.{Query, keeps, page_from, last_of}

-- The indexes, from `i` on, of the names that pass the pattern.
unfoldable pub all_from : Query → ℕ → List Bytes → List ℕ
all_from q i [] = []
all_from q i (n ∷ names) =
    let rest = all_from q (i + 1) names in if keeps q n then i ∷ rest else rest

last_of-cons :
    (i l : ℕ) (more : List ℕ)
    → last_of (i ∷ more) ≡ some l
    → ((more ≡ []) × (i ≡ l)) ⊎ (last_of more ≡ some l)
unfolding last_of
last_of-cons i l [] h = inl (refl, some_inj.0 h)
last_of-cons i l (j ∷ more) h = inr h

-- The first names of those that are left are dropped one by one.
drop-after :
    (i l : ℕ) (n : Bytes) (names : List Bytes)
    → i + 1 ≤ l
    → drop (l + 1 - i) (n ∷ names) ≡ drop (l + 1 - (i + 1)) names
drop-after i l n names h =
    let one_more : l + 1 - i ≡ suc (l + 1 - (i + 1)) = omega (arith, h) in
    ap (λ k. drop k (n ∷ names)) one_more

-- What is to be shown of a page that begins at `i` and ends at `l`.
abbrev pub GoesOn : Query → ℕ → ℕ → List Bytes → List ℕ → Type 0
GoesOn q i l names page =
    (i ≤ l)
    × (l < i + length names)
    × (page ++ all_from q (l + 1) (drop (l + 1 - i) names) ≡ all_from q i names)

skip-GoesOn :
    (q : Query) (i l : ℕ) (n : Bytes) (names : List Bytes) (page : List ℕ)
    → keeps q n ≡ false
    → GoesOn q (i + 1) l names page
    → GoesOn q i l (n ∷ names) page
unfolding all_from
skip-GoesOn q i l n names page skip (low, high, all) =
    (omega (arith, low), omega (arith, high), rw (drop-after i l n names low) (rw skip all))

take-GoesOn :
    (q : Query) (i l : ℕ) (n : Bytes) (names : List Bytes) (page : List ℕ)
    → keeps q n ≡ true
    → GoesOn q (i + 1) l names page
    → GoesOn q i l (n ∷ names) (i ∷ page)
unfolding all_from
take-GoesOn q i l n names page keep (low, high, all) = (
  omega (arith, low),
  omega (arith, high),
  rw (drop-after i l n names low) (rw keep (ap (◌∷◌ i) all)),
)

here-GoesOn :
    (q : Query) (i l : ℕ) (n : Bytes) (names : List Bytes)
    → keeps q n ≡ true
    → i ≡ l
    → GoesOn q i l (n ∷ names) (i ∷ [])
unfolding all_from
here-GoesOn q i l n names keep same =
    let one : l + 1 - i ≡ 1 = omega (arith, same) in
    (omega (arith, same), omega (arith, same), rw one (rw keep (rw (sym same) refl)))

module _ (q : Query) (count taken i : ℕ) (n : Bytes) (names : List Bytes) where
  page_from-skip :
      keeps q n ≡ false
      → page_from q count taken i (n ∷ names) ≡ page_from q count taken (i + 1) names
  unfolding page_from
  page_from-skip skip = rw skip refl

  page_from-end :
      keeps q n ≡ true
      → leb count (taken + 1) ≡ true
      → page_from q count taken i (n ∷ names) ≡ i ∷ []
  unfolding page_from
  page_from-end keep last = rw keep (rw last refl)

  page_from-take :
      keeps q n ≡ true
      → leb count (taken + 1) ≡ false
      → page_from q count taken i (n ∷ names) ≡ i ∷ page_from q count (taken + 1) (i + 1) names
  unfolding page_from
  page_from-take keep room = rw keep (rw room refl)

nothing_last : (q : Query) (count taken i l : ℕ) → last_of (page_from q count taken i []) ≢ some l
unfolding page_from last_of
nothing_last q count taken i l h = ground (arith, h)

only_last : (i l : ℕ) → last_of (i ∷ []) ≡ some l → i ≡ l
unfolding last_of
only_last i l h = some_inj.0 h

-- A page with a last match at `l`, followed by the matches after `l`, is all the matches.
pub page_from-last :
    (q : Query) (count taken i l : ℕ) (names : List Bytes)
    → last_of (page_from q count taken i names) ≡ some l
    → count ≤ taken + length (page_from q count taken i names)
    → GoesOn q i l names (page_from q count taken i names)
page_from-last q count taken i l [] h full = absurd (nothing_last q count taken i l h)
page_from-last q count taken i l (n ∷ names) h full = elim (Bool-cases (keeps q n)) [
  | inr skip ↦
      let is = page_from-skip q count taken i n names skip in
      subst (GoesOn q i l (n ∷ names)) (sym is) (
        skip-GoesOn q i l n names (page_from q count taken (i + 1) names) skip (
          page_from-last q count taken (i + 1) l names (sym (ap last_of is) ∙ h)
            (subst (λ p. count ≤ taken + length p) is full)))
  | inl keep ↦ elim (Bool-cases (leb count (taken + 1))) [
    | inl last ↦
        let is = page_from-end q count taken i n names keep last in
        subst (GoesOn q i l (n ∷ names)) (sym is)
          (here-GoesOn q i l n names keep (only_last i l (sym (ap last_of is) ∙ h)))
    | inr room ↦
        let is = page_from-take q count taken i n names keep room in
        let fits : count ≤ taken + 1 + length (page_from q count (taken + 1) (i + 1) names) =
          omega (arith, subst (λ p. count ≤ taken + length p) is full) in
        subst (GoesOn q i l (n ∷ names)) (sym is)
          (elim (last_of-cons i l (page_from q count (taken + 1) (i + 1) names)
            (sym (ap last_of is) ∙ h)) [
              | inl (none_left, same) ↦
                  absurd
                    (ground (arith, room, subst (λ p. count ≤ taken + 1 + length p) none_left fits))
              | inr later ↦
                  take-GoesOn q i l n names (page_from q count (taken + 1) (i + 1) names) keep
                    (page_from-last q count (taken + 1) (i + 1) l names later fits)
            ])
  ]
]

-- A page that is not full is all the matches.
pub page_from-short :
    (q : Query) (count taken i : ℕ) (names : List Bytes)
    → taken + length (page_from q count taken i names) < count
    → page_from q count taken i names ≡ all_from q i names
unfolding page_from all_from
page_from-short q count taken i [] h = refl
page_from-short q count taken i (n ∷ names) h = elim (Bool-cases (keeps q n)) [
  | inl keep ↦ ground (arith, h, page_from-short q count (taken + 1) (i + 1) names)
  | inr skip ↦ rw skip (page_from-short q count taken (i + 1) names (ground (arith, h, skip)))
]
