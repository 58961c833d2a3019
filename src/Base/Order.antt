-- ===== src/Base/Order.antt =====
-- Total comparisons: functions into `Ordering` with the laws of a linear order.
use redgeo.Base.Tests.{◌≡◌, ◌≢◌, sym, refl, ◌⊎◌, inl, inr, arith, compare, Ordering}
use Prim.Native.Nat.Ordering.{lt, eq, gt}

pub record IsOrder {ℓ} {A : Type ℓ} (cmp : A → A → Ordering) : Type ℓ where
  pub self : (a : A) → cmp a a ≡ eq
  pub same : (a b : A) → cmp a b ≡ eq → a ≡ b
  pub flip_gt : (a b : A) → cmp a b ≡ gt → cmp b a ≡ lt
  pub flip_lt : (a b : A) → cmp a b ≡ lt → cmp b a ≡ gt
  pub chain : (a b c : A) → cmp a b ≡ lt → cmp b c ≡ lt → cmp a c ≡ lt

-- The first comparison, and the second where the first finds no difference.
abbrev pub then_by : Ordering → Ordering → Ordering
then_by eq o = o
then_by lt o = lt
then_by gt o = gt

pub ℕ-IsOrder : IsOrder compare
ℕ-IsOrder = record {
  self = λ a. ground arith;
  same = λ a b h. ground arith;
  flip_gt = λ a b h. ground arith;
  flip_lt = λ a b h. ground arith;
  chain = λ a b c h k. ground arith;
}

pub Ordering-cases : (o : Ordering) → (o ≡ lt) ⊎ ((o ≡ eq) ⊎ (o ≡ gt))
Ordering-cases lt = inl refl
Ordering-cases eq = inr (inl refl)
Ordering-cases gt = inr (inr refl)

module _ {ℓ κ} {A : Type ℓ} {B : Type κ} (cmp : A → A → Ordering) (cmp' : B → B → Ordering) where
  -- The lexicographic order of pairs.
  abbrev pub lex : A × B → A × B → Ordering
  lex p q = then_by (cmp p.0 q.0) (cmp' p.1 q.1)

  lex-chain :
      IsOrder cmp → IsOrder cmp' → (a b c : A × B) → lex a b ≡ lt → lex b c ≡ lt → lex a c ≡ lt
  lex-chain h k a b c p q =
      grind (
        arith,
        h.chain a.0 b.0 c.0,
        k.chain a.1 b.1 c.1,
        h.same a.0 b.0,
        h.same b.0 c.0,
        h.self a.0,
      )

  pub lex-IsOrder : IsOrder cmp → IsOrder cmp' → IsOrder lex
  lex-IsOrder h k = record {
    self = λ a. grind (arith, h.self a.0, k.self a.1);
    same = λ a b e. grind (arith, h.same a.0 b.0, k.same a.1 b.1);
    flip_gt =
        λ a b e. grind (arith, h.flip_gt a.0 b.0, k.flip_gt a.1 b.1, h.same a.0 b.0, h.self a.0);
    flip_lt =
        λ a b e. grind (arith, h.flip_lt a.0 b.0, k.flip_lt a.1 b.1, h.same a.0 b.0, h.self a.0);
    chain = lex-chain h k;
  }

-- At most, for a comparison.
abbrev pub AtMost {ℓ} : {A : Type ℓ} → (A → A → Ordering) → A → A → Type 0
AtMost cmp a b = (cmp a b ≡ lt) ⊎ (cmp a b ≡ eq)

module _ {ℓ} {A : Type ℓ} (cmp : A → A → Ordering) (h : IsOrder cmp) where
  pub AtMost-refl : (a : A) → AtMost cmp a a
  AtMost-refl a = inr (h.self a)

  pub AtMost-trans : (a b c : A) → AtMost cmp a b → AtMost cmp b c → AtMost cmp a c
  AtMost-trans a b c (inl p) (inl q) = inl (h.chain a b c p q)
  AtMost-trans a b c (inl p) (inr q) = inl (rw (← h.same b c q) p)
  AtMost-trans a b c (inr p) q = rw (h.same a b p) q

  pub AtMost-antisymm : (a b : A) → AtMost cmp a b → AtMost cmp b a → a ≡ b
  AtMost-antisymm a b (inl p) (inl q) = absurd (cc (h.flip_lt a b p))
  AtMost-antisymm a b (inl p) (inr q) = sym (h.same b a q)
  AtMost-antisymm a b (inr p) q = h.same a b p

  pub AtMost-of_not_lt : (a b : A) → cmp a b ≢ lt → AtMost cmp b a
  AtMost-of_not_lt a b n = elim (Ordering-cases (cmp a b)) [
    | inl p ↦ absurd (n p)
    | inr (inl p) ↦ inr (rw (h.same a b p) (h.self b))
    | inr (inr p) ↦ inl (h.flip_gt a b p)
  ]
