-- ===== src/Watermark/Cut.antt =====
-- The cut is safe, and the high-water marks only rise.
use redgeo.Base.{
  Bytes, bytes_eq, bytes_eq_iff, All, Map, lookup, lookup-insert, Ordering-cases, AtMost,
  AtMost-refl, AtMost-trans, if◌then◌else◌, Option-cases, ◌≡◌, refl, sym, ◌∙◌, ◌≢◌, inl, inr, true,
  false, Option, none, some, List, [], ◌∷◌, arith, bytes_key,
}
use mathlib.Core.Path.{subst}
use redgeo.Hlc.{Stamp, less, compare_stamp}
use redgeo.Hlc.Order.{compare_stamp-IsOrder}
use redgeo.Watermark.{Watermark, observe, cut_from, safe_cut}

-- A replica has been seen at the cut or past it.
abbrev pub HasPassed : Map Bytes Stamp → Stamp → Bytes → Type 0
HasPassed high cut r = (s : Stamp) × (lookup r high ≡ some s) × AtMost compare_stamp cut s

-- The smaller of two stamps, as the loop keeps it.
abbrev least : Stamp → Stamp → Stamp
least s c = elim (less s c) [ true ↦ s | false ↦ c ]

least-le : (s c : Stamp) → AtMost compare_stamp (least s c) c × AtMost compare_stamp (least s c) s
unfolding less
least-le s c =
    let refl_at = AtMost-refl compare_stamp compare_stamp-IsOrder in
    elim (Ordering-cases (compare_stamp s c)) [
      | inl h ↦ rw (h, least) (inl h, refl_at s)
      | inr (inl h) ↦
          let e : s ≡ c = compare_stamp-IsOrder.same s c h in
          rw (h, least) (refl_at c, subst (λ x. AtMost compare_stamp x s) e (refl_at s))
      | inr (inr h) ↦ rw (h, least) (refl_at c, inl (compare_stamp-IsOrder.flip_gt s c h))
    ]

cut_from_next :
    (high : Map Bytes Stamp) (c s : Stamp) (r : Bytes) (rs : List Bytes)
    → lookup r high ≡ some s
    → cut_from high (some c) (r ∷ rs) ≡ cut_from high (some (least s c)) rs
unfolding cut_from
cut_from_next high c s r rs h = ground arith

cut_from_unknown :
    (high : Map Bytes Stamp) (c : Option Stamp) (r : Bytes) (rs : List Bytes)
    → lookup r high ≡ none
    → cut_from high c (r ∷ rs) ≡ none
unfolding cut_from
cut_from_unknown high c r rs h = ground arith

cut_from_below :
    (high : Map Bytes Stamp) (c : Stamp) (rs : List Bytes) (cut : Stamp)
    → cut_from high (some c) rs ≡ some (some cut)
    → AtMost compare_stamp cut c × All (HasPassed high cut) rs
unfolding cut_from
cut_from_below high c [] cut h =
    let e : c ≡ cut = ground arith in
    (
      subst (λ x. AtMost compare_stamp x c) e (AtMost-refl compare_stamp compare_stamp-IsOrder c),
      tt,
    )
cut_from_below high c (r ∷ rs) cut h = elim (Option-cases (lookup r high)) [
  | inl e ↦ absurd (ground (arith, cut_from_unknown high (some c) r rs e))
  | inr (s, e) ↦
      let (below, rest) =
        cut_from_below high (least s c) rs cut (sym (cut_from_next high c s r rs e) ∙ h) in
      let (le_c, le_s) = least-le s c in
      let trans = AtMost-trans compare_stamp compare_stamp-IsOrder cut (least s c) in
      (trans c below le_c, ((s, e, trans s below le_s), rest))
]

-- SafeCut gives a cut only if replicas are expected, and only one that every expected replica has
-- been seen at or past.
pub safe_cut_passed :
    (w : Watermark) (cut : Stamp)
    → safe_cut w ≡ some cut
    → (w.expected ≢ []) × All (HasPassed w.high cut) w.expected
unfolding safe_cut cut_from
safe_cut_passed w cut h = go w.expected refl
  where
    go : (rs : List Bytes) → w.expected ≡ rs → (rs ≢ []) × All (HasPassed w.high cut) rs
    go [] e = absurd (ground arith)
    go (r ∷ rs) e = elim (Option-cases (lookup r w.high)) [
      | inl u ↦ absurd (ground arith)
      | inr (s, u) ↦
          let k : cut_from w.high (some s) rs ≡ some (some cut) = ground arith in
          let (below, rest) = cut_from_below w.high s rs cut k in (λ p. cc p, ((s, u, below), rest))
    ]

-- A replica has been observed.
abbrev pub IsKnown : Map Bytes Stamp → Bytes → Type 0
IsKnown high r = (s : Stamp) × (lookup r high ≡ some s)

cut_from_known :
    (high : Map Bytes Stamp) (c : Stamp) (rs : List Bytes)
    → All (IsKnown high) rs
    → (cut : Stamp) × (cut_from high (some c) rs ≡ some (some cut))
unfolding cut_from
cut_from_known high c [] h = (c, refl)
cut_from_known high c (r ∷ rs) h =
    let (s, e) = h.0 in
    let (cut, k) = cut_from_known high (least s c) rs h.1 in
    (cut, cut_from_next high c s r rs e ∙ k)

-- SafeCut refuses only on incomplete information: where replicas are expected and all of them have
-- been observed, it gives a cut.
pub safe_cut_given :
    (w : Watermark)
    → w.expected ≢ []
    → All (IsKnown w.high) w.expected
    → (cut : Stamp) × (safe_cut w ≡ some cut)
unfolding safe_cut cut_from
safe_cut_given w h known = go w.expected refl h known
  where
    go :
        (rs : List Bytes)
        → w.expected ≡ rs
        → rs ≢ []
        → All (IsKnown w.high) rs
        → (cut : Stamp) × (safe_cut w ≡ some cut)
    go [] e h known = absurd (h refl)
    go (r ∷ rs) e h known =
        let (s, p) = known.0 in
        let (cut, k) = cut_from_known w.high s rs known.1 in (cut, ground arith)

-- Observe keeps the highest stamp of each replica: of the observed one, the larger of what was held
-- and what is seen; of the others, what was held.
pub observe_highest :
    (r q : Bytes) (s : Stamp) (w : Watermark)
    → lookup q (observe r s w).high ≡ (
        if bytes_eq r q
        then elim (lookup r w.high) [
          | none ↦ some s
          | some cur ↦ if less cur s then some s else some cur
        ]
        else lookup q w.high)
unfolding observe
observe_highest r q s w = ground (arith, lookup-insert r q s w.high, bytes_eq_iff r q)
