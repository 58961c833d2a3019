-- ===== src/SetRepo/Combine.antt =====
-- crdtstore/rset.go: the loops of Diff, Inter and Union over lists of names.
use redgeo.Base.{
  Bytes, bytes_eq, bytes_eq_iff, All, contains, without, contains-without, if◌then◌else◌,
  Bool-cases, ◌≡◌, refl, ◌∙◌, inl, inr, Bool, true, false, not, ◌&&◌, ◌||◌, List, [], ◌∷◌, arith,
}
use redgeo.Keys.Paths.{IsName}
use redgeo.SetRepo.{as_set, minus, meet, join}

pub as_set-contains : (ms : List Bytes) (x : Bytes) → contains (as_set ms) x ≡ contains ms x
unfolding as_set contains
as_set-contains [] x = refl
as_set-contains (m ∷ ms) x = elim (Bool-cases (contains (as_set ms) m)) [
  | inl twice ↦ rw twice (ground (arith, as_set-contains ms x, bytes_eq_iff m x))
  | inr once ↦ rw once (ground (arith, as_set-contains ms x))
]

pub minus-contains :
    (base other : List Bytes) (x : Bytes)
    → contains (minus base other) x ≡ (contains base x && not (contains other x))
unfolding minus contains
minus-contains base [] x = ground arith
minus-contains base (m ∷ other) x =
    minus-contains (without m base) other x ∙ rw (contains-without m x base) (ground arith)

pub meet-contains :
    (base other : List Bytes) (x : Bytes)
    → contains (meet base other) x ≡ (contains base x && contains other x)
unfolding meet contains
meet-contains [] other x = refl
meet-contains (m ∷ base) other x = elim (Bool-cases (contains other m)) [
  | inl both ↦ rw both (ground (arith, meet-contains base other x, bytes_eq_iff m x))
  | inr one ↦ rw one (ground (arith, meet-contains base other x, bytes_eq_iff m x))
]

pub join-contains :
    (union other : List Bytes) (x : Bytes)
    → contains (join union other) x ≡ (contains union x || contains other x)
unfolding join contains
join-contains union [] x = ground arith
join-contains union (m ∷ other) x = elim (Bool-cases (contains union m)) [
  | inl twice ↦ rw twice (ground (arith, join-contains union other x, bytes_eq_iff m x))
  | inr new ↦ rw new (ground (arith, join-contains (m ∷ union) other x))
]

if-All :
    (b : Bool) (xs ys : List Bytes)
    → All IsName xs
    → All IsName ys
    → All IsName (if b then xs else ys)
if-All true xs ys h k = h
if-All false xs ys h k = k

pub as_set-IsName : (ms : List Bytes) → All IsName ms → All IsName (as_set ms)
unfolding as_set
as_set-IsName [] h = tt
as_set-IsName (m ∷ ms) h =
    let rest = as_set-IsName ms h.1 in
    if-All (contains (as_set ms) m) (as_set ms) (m ∷ as_set ms) rest (h.0, rest)

without-IsName : (x : Bytes) (set : List Bytes) → All IsName set → All IsName (without x set)
unfolding without
without-IsName x [] h = tt
without-IsName x (y ∷ set) h =
    let rest = without-IsName x set h.1 in
    if-All (bytes_eq y x) (without x set) (y ∷ without x set) rest (h.0, rest)

-- A combination of two sets of names is one.
abbrev pub KeepsNames : (List Bytes → List Bytes → List Bytes) → Type 0
KeepsNames f =
    (base other : List Bytes) → All IsName base → All IsName other → All IsName (f base other)

pub minus-KeepsNames : KeepsNames minus
unfolding minus
minus-KeepsNames base [] h k = h
minus-KeepsNames base (m ∷ other) h k =
    minus-KeepsNames (without m base) other (without-IsName m base h) k.1

pub meet-KeepsNames : KeepsNames meet
unfolding meet
meet-KeepsNames [] other h k = tt
meet-KeepsNames (m ∷ base) other h k =
    let rest = meet-KeepsNames base other h.1 k in
    if-All (contains other m) (m ∷ meet base other) (meet base other) (h.0, rest) rest

pub join-KeepsNames : KeepsNames join
unfolding join
join-KeepsNames union [] h k = h
join-KeepsNames union (m ∷ other) h k =
    if-All (contains union m) (join union other) (join (m ∷ union) other)
      (join-KeepsNames union other h k.1) (join-KeepsNames (m ∷ union) other (k.0, h) k.1)

-- A fold of a Boolean over what the sets of some keys hold of one member.
unfoldable pub combined : (Bool → Bool → Bool) → Bool → (Bytes → Bool) → List Bytes → Bool
combined g b has [] = b
combined g b has (k ∷ keys) = combined g (g b (has k)) has keys

unfoldable pub some_has : (Bytes → Bool) → List Bytes → Bool
some_has has [] = false
some_has has (k ∷ keys) = has k || some_has has keys

unfoldable pub all_have : (Bytes → Bool) → List Bytes → Bool
all_have has [] = true
all_have has (k ∷ keys) = has k && all_have has keys

pub combined-minus :
    (b : Bool) (has : Bytes → Bool) (keys : List Bytes)
    → combined (λ p q. p && not q) b has keys ≡ (b && not (some_has has keys))
unfolding combined some_has
combined-minus b has [] = ground arith
combined-minus b has (k ∷ keys) = combined-minus (b && not (has k)) has keys ∙ ground arith

pub combined-meet :
    (b : Bool) (has : Bytes → Bool) (keys : List Bytes)
    → combined ◌&&◌ b has keys ≡ (b && all_have has keys)
unfolding combined all_have
combined-meet b has [] = ground arith
combined-meet b has (k ∷ keys) = combined-meet (b && has k) has keys ∙ ground arith

pub combined-join :
    (b : Bool) (has : Bytes → Bool) (keys : List Bytes)
    → combined ◌||◌ b has keys ≡ (b || some_has has keys)
unfolding combined some_has
combined-join b has [] = ground arith
combined-join b has (k ∷ keys) = combined-join (b || has k) has keys ∙ ground arith
