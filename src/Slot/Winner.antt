-- ===== src/Slot/Winner.antt =====
-- The read rule: the winner is the largest candidate, and does not depend on the order in which
-- the candidates are visited.
use redgeo.Base.{
  Bytes, compare_bytes, Bytes-IsOrder, bytes_eq, bytes_eq_iff, In, lookup, remove, insert,
  lookup-nil, lookup-insert, Distinct, insert-Distinct, lookup-In, In-lookup, Ordering-cases, lex,
  lex-IsOrder, AtMost, AtMost-refl, AtMost-trans, AtMost-antisymm, AtMost-of_not_lt, IsOrder, ◌==◌,
  if◌then◌else◌, Bool-cases, Ordering, ◌≡◌, refl, sym, ap, ◌∙◌, ◌≢◌, ◌⊎◌, inl, inr, none, some, [],
  ◌∷◌, arith, bytes_key,
}
use redgeo.Hlc.{Stamp, compare_stamp}
use redgeo.Hlc.Order.{compare_stamp-IsOrder}
use redgeo.Slot.{Slot, Cands, challenge, winner_from, winner, live_value, live_of, tag_deleted}
use mathlib.Core.Path.{subst}
use Prim.Native.Nat.Ordering.{lt, eq, gt}

-- Candidates are ordered by stamp, and by replica at equal stamps.
abbrev pub rank : Bytes × Slot → Stamp × Bytes
rank c = (c.1.stamp, c.0)

abbrev pub compare_rank : Stamp × Bytes → Stamp × Bytes → Ordering
compare_rank = lex compare_stamp compare_bytes

rank-IsOrder : IsOrder compare_rank
rank-IsOrder = lex-IsOrder compare_stamp compare_bytes compare_stamp-IsOrder Bytes-IsOrder

-- A candidate that no other one beats.
pub record IsBest (cands : Cands) (w : Bytes × Slot) : Type 0 where
  pub among : lookup w.0 cands ≡ some w.1
  pub largest :
      (r : Bytes) (s : Slot) → lookup r cands ≡ some s → AtMost compare_rank (rank (r, s)) (rank w)

challenge-lt :
    (w c : Bytes × Slot) → compare_rank (rank w) (rank c) ≡ lt → challenge (some w) c.0 c.1 ≡ some c
unfolding challenge
challenge-lt w c h = ground (arith, Bytes-IsOrder.flip_lt w.0 c.0)

challenge-not_lt :
    (w c : Bytes × Slot) → compare_rank (rank w) (rank c) ≢ lt → challenge (some w) c.0 c.1 ≡ some w
unfolding challenge
challenge-not_lt w c h = ground (arith, Bytes-IsOrder.flip_gt c.0 w.0)

-- One round keeps the larger of the two.
challenge_max :
    (w c : Bytes × Slot)
    → (v : Bytes × Slot) × (challenge (some w) c.0 c.1 ≡ some v)
      × ((v ≡ w) ⊎ (v ≡ c))
      × AtMost compare_rank (rank w) (rank v)
      × AtMost compare_rank (rank c) (rank v)
challenge_max w c = elim (Ordering-cases (compare_rank (rank w) (rank c))) [
  | inl h ↦ (c, challenge-lt w c h, inr refl, inl h, AtMost-refl compare_rank rank-IsOrder (rank c))
  | inr h ↦
      let n : compare_rank (rank w) (rank c) ≢ lt = not_lt h in
      (
        w,
        challenge-not_lt w c n,
        inl refl,
        AtMost-refl compare_rank rank-IsOrder (rank w),
        AtMost-of_not_lt compare_rank rank-IsOrder (rank w) (rank c) n,
      )
]
  where
    not_lt : {o : Ordering} → (o ≡ eq) ⊎ (o ≡ gt) → o ≢ lt
    not_lt h p = ground arith

-- The loop ends with a candidate that is at least the first one and all that follow.
winner_from_max :
    (w : Bytes × Slot) (cands : Cands)
    → (v : Bytes × Slot) × (winner_from (some w) cands ≡ some v)
      × ((v ≡ w) ⊎ In v cands)
      × AtMost compare_rank (rank w) (rank v)
      × ((c : Bytes × Slot) → In c cands → AtMost compare_rank (rank c) (rank v))
unfolding winner_from
winner_from_max w [] =
    (w, refl, inl refl, AtMost-refl compare_rank rank-IsOrder (rank w), λ c h. elim h [ ])
winner_from_max w (c ∷ cands) =
    let (u, is_u, from, w_u, c_u) = challenge_max w c in
    let (v, is_v, from', u_v, rest) = winner_from_max u cands in
    (
      v,
      rw is_u is_v,
      origin from from',
      AtMost-trans compare_rank rank-IsOrder (rank w) (rank u) (rank v) w_u u_v,
      λ d. elim [
        | inl e ↦ rw e (AtMost-trans compare_rank rank-IsOrder (rank c) (rank u) (rank v) c_u u_v)
        | inr h ↦ rest d h
      ],
    )
  where
    origin :
        {u v : Bytes × Slot} → (u ≡ w) ⊎ (u ≡ c) → (v ≡ u) ⊎ In v cands → (v ≡ w) ⊎ In v (c ∷ cands)
    origin p (inr h) = inr (inr h)
    origin (inl p) (inl q) = inl (q ∙ p)
    origin (inr p) (inl q) = inr (inl (q ∙ p))

-- winner finds a candidate whenever there is one, and it is the best.
winner-IsBest :
    (c : Bytes × Slot) (cands : Cands)
    → Distinct (c ∷ cands)
    → (w : Bytes × Slot) × (winner (c ∷ cands) ≡ some w) × IsBest (c ∷ cands) w
unfolding winner winner_from challenge
winner-IsBest c cands d =
    let (v, is_v, from, c_v, rest) = winner_from_max c cands in
    (
      v,
      is_v,
      record {
        among = In-lookup v.0 v.1 (c ∷ cands) d (place from);
        largest = λ r s h. bound v r s c_v rest (lookup-In r s (c ∷ cands) h);
      },
    )
  where
    place : {v : Bytes × Slot} → (v ≡ c) ⊎ In v cands → In v (c ∷ cands)
    place h = h

    bound :
        (v : Bytes × Slot) (r : Bytes) (s : Slot)
        → AtMost compare_rank (rank c) (rank v)
        → ((d : Bytes × Slot) → In d cands → AtMost compare_rank (rank d) (rank v))
        → In (r, s) (c ∷ cands)
        → AtMost compare_rank (rank (r, s)) (rank v)
    bound v r s p q (inl e) = subst (λ x. AtMost compare_rank (rank x) (rank v)) (sym e) p
    bound v r s p q (inr h) = q (r, s) h

IsBest-unique :
    (a b : Cands) (v w : Bytes × Slot)
    → ((r : Bytes) → lookup r a ≡ lookup r b)
    → IsBest a v
    → IsBest b w
    → v ≡ w
IsBest-unique a b v w same hv hw =
    let v_w : AtMost compare_rank (rank v) (rank w) =
      hw.largest v.0 v.1 (sym (same v.0) ∙ hv.among) in
    let w_v : AtMost compare_rank (rank w) (rank v) = hv.largest w.0 w.1 (same w.0 ∙ hw.among) in
    let e : rank v ≡ rank w = AtMost-antisymm compare_rank rank-IsOrder (rank v) (rank w) v_w w_v in
    let k : v.0 ≡ w.0 = ap (λ (p : Stamp × Bytes). p.1) e in
    let s : some v.1 ≡ some w.1 = sym hv.among ∙ same v.0 ∙ rw k hw.among in cc (k, s)

nothing_found : (b : Cands) → ((r : Bytes) → lookup r b ≡ none) → b ≡ []
unfolding lookup
nothing_found [] h = refl
nothing_found ((r, s) ∷ b) h = absurd (ground (arith, h r, bytes_eq_iff r r))

-- Two views of a register that hold the same slot for each replica have the same winner and the
-- same live value, in whatever orders their candidates are visited.
pub winner_any_order :
    (a b : Cands)
    → Distinct a
    → Distinct b
    → ((r : Bytes) → lookup r a ≡ lookup r b)
    → (winner a ≡ winner b) × (live_value a ≡ live_value b)
unfolding live_value
winner_any_order a b da db same =
    let e : winner a ≡ winner b = go a b da db same in (e, ap live_of e)
  where
    go :
        (a b : Cands)
        → Distinct a
        → Distinct b
        → ((r : Bytes) → lookup r a ≡ lookup r b)
        → winner a ≡ winner b
    go [] b da db same = rw (nothing_found b (λ r. sym (same r) ∙ lookup-nil r))
    go (c ∷ a) [] da db same = ap winner (nothing_found (c ∷ a) (λ r. same r ∙ lookup-nil r))
    go (c ∷ a) (d ∷ b) da db same =
        let (v, is_v, best_v) = winner-IsBest c a da in
        let (w, is_w, best_w) = winner-IsBest d b db in
        is_v ∙ ap some (IsBest-unique (c ∷ a) (d ∷ b) v w same best_v best_w) ∙ sym is_w

-- A slot stamped after every other candidate wins when its replica writes it: the register then
-- reads as that slot's value, or as absent if the slot is marked deleted.
pub winner-insert :
    (r : Bytes) (s : Slot) (cands : Cands)
    → Distinct cands
    → ((q : Bytes) (t : Slot) → lookup q cands ≡ some t → compare_stamp t.stamp s.stamp ≡ lt)
    → (winner (insert r s cands) ≡ some (r, s))
      × (live_value (insert r s cands) ≡ (if s.tag == tag_deleted then none else some s.value))
unfolding live_value insert
winner-insert r s cands d newest =
    let d' : Distinct (insert r s cands) = insert-Distinct r s cands d in
    let (v, is_v, best) = winner-IsBest (r, s) (remove r cands) d' in
    let e : v ≡ (r, s) = only v best in (is_v ∙ ap some e, ap live_of (is_v ∙ ap some e))
  where
    only : (v : Bytes × Slot) → IsBest (insert r s cands) v → v ≡ (r, s)
    only v best = elim (Bool-cases (bytes_eq r v.0)) [
      | inl same ↦ ground (arith, bytes_eq_iff r v.0, lookup-insert r v.0 s cands, best.among)
      | inr other ↦ absurd (
          ground (
            arith,
            bytes_eq_iff r r,
            lookup-insert r v.0 s cands,
            lookup-insert r r s cands,
            best.among,
            newest v.0 v.1,
            best.largest r s,
            compare_stamp-IsOrder.flip_lt v.1.stamp s.stamp,
          ))
    ]
