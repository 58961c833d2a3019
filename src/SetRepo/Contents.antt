-- ===== src/SetRepo/Contents.antt =====
-- crdtstore/rset.go: what a set contains, by the keys that are stored for it, and that members
-- reads it back.
use redgeo.Base.{
  Bytes, bytes_eq, bytes_eq_iff, ℤ, All, In, contains, sort, sort-contains, sort-All, Bool-cases, ℕ,
  ◌≡◌, refl, sym, ap, ◌∙◌, inl, inr, Bool, true, false, Option, List, [], ◌∷◌, map, arith,
  bytes_key,
}
use mathlib.Core.Path.{subst}
use redgeo.Exec.{ok}
use redgeo.Keyspace.{Keyspace, Works, is_some}
use redgeo.Keys.{set_base, set_member}
use redgeo.Keys.Paths.{Cleans, IsName}
use redgeo.Keys.Members.{set_member-under, dec_seg-set_member, set_member-same}
use redgeo.Txn.{Entry, has_prefix}
use redgeo.SetRepo.{decoded, members}

pub bool_iff : (a b : Bool) → (a ≡ true → b ≡ true) → (b ≡ true → a ≡ true) → a ≡ b
bool_iff true b f g = sym (f refl)
bool_iff false true f g = g refl
bool_iff false false f g = refl

module _ {S : Type 0} {ks : Keyspace S} {view : S → Bytes → Option Bytes}
    {kind : S → Bytes → Option ℕ} (works : Works ks view kind) {new_key : Bytes → Bytes}
    (cleans : Cleans new_key) (db : ℤ) where
  -- The abstract set of a key.
  unfoldable pub contents : S → Bytes → Bytes → Bool
  contents s key m = is_some (view s (set_member new_key db key m))

  -- Every key that is stored under a set is one of its members.
  abbrev pub Canonical : S → Type 0
  Canonical s =
      (key k : Bytes)
      → IsName key
      → has_prefix k (set_base db key) ≡ true
      → is_some (view s k) ≡ true
      → (m : Bytes) × IsName m × (k ≡ set_member new_key db key m)

  -- What members returns.
  unfoldable pub mem_of : S → Bytes → List Bytes
  mem_of s key = sort (decoded (set_base db key) (works.listed (set_base db key) true s))

  pub members_lem : (key : Bytes) (s : S) → members ks new_key db key s ≡ (ok (mem_of s key), s)
  unfolding members mem_of
  members_lem key s = rw (works.query_ok (set_base db key) true s) refl

  module _ (s : S) (canonical : Canonical s) (key : Bytes) (h : IsName key) where
    abbrev Listed : Entry → Type 0
    Listed e = (has_prefix e.key (set_base db key) ≡ true) × (is_some (view s e.key) ≡ true)

    -- An entry decodes to the member that it stands for.
    decoded-entry :
        (e : Entry) (rest : List Entry)
        → Listed e
        → (m : Bytes) × IsName m
          × (e.key ≡ set_member new_key db key m)
          × (decoded (set_base db key) (e ∷ rest) ≡ m ∷ decoded (set_base db key) rest)
    unfolding decoded
    decoded-entry e rest listed =
        let (m, k, same) = canonical key e.key h listed.0 listed.1 in
        (m, k, same, cc (same, dec_seg-set_member cleans db key m h k))

    decoded_sound :
        (m : Bytes) (entries : List Entry)
        → All Listed entries
        → contains (decoded (set_base db key) entries) m ≡ true
        → contents s key m ≡ true
    unfolding contents contains decoded
    decoded_sound m [] listed found = absurd (cc found)
    decoded_sound m (e ∷ entries) listed found =
        let (n, k, same, step) = decoded-entry e entries listed.0 in
        let found' = subst (λ ms. contains ms m ≡ true) step found in
        elim (Bool-cases (bytes_eq n m)) [
          | inl this ↦
              subst (λ k. is_some (view s k) ≡ true)
                (same ∙ ap (set_member new_key db key) ((bytes_eq_iff n m).0 this)) listed.0.1
          | inr later ↦ decoded_sound m entries listed.1 (cc (later, found'))
        ]

    decoded_complete :
        (m : Bytes) (entries : List Entry)
        → IsName m
        → All Listed entries
        → In (set_member new_key db key m) (map (λ e. e.key) entries)
        → contains (decoded (set_base db key) entries) m ≡ true
    unfolding contains
    decoded_complete m [] k listed there = elim there [ ]
    decoded_complete m (e ∷ entries) k listed (inl this) =
        let (n, k', same, step) = decoded-entry e entries listed.0 in
        let one = set_member-same cleans db key key m n h h k k' (this ∙ same) in
        subst (λ ms. contains ms m ≡ true) (sym step) (cc ((bytes_eq_iff n m).1 (sym one.1)))
    decoded_complete m (e ∷ entries) k listed (inr later) =
        let (n, k', same, step) = decoded-entry e entries listed.0 in
        let found = decoded_complete m entries k listed.1 later in
        subst (λ ms. contains ms m ≡ true) (sym step) (ground (arith, found))

    decoded-IsName :
        (entries : List Entry) → All Listed entries → All IsName (decoded (set_base db key) entries)
    unfolding decoded
    decoded-IsName [] listed = tt
    decoded-IsName (e ∷ entries) listed =
        let (n, k, same, step) = decoded-entry e entries listed.0 in
        subst (All IsName) (sym step) (k, decoded-IsName entries listed.1)

    pub mem_of-IsName : All IsName (mem_of s key)
    unfolding mem_of
    mem_of-IsName =
        let base = set_base db key in
        sort-All IsName (decoded base (works.listed base true s))
          (decoded-IsName (works.listed base true s) (works.listed_sound base true s))

    -- The list of members is the set.
    pub mem_of-contains : (m : Bytes) → IsName m → contains (mem_of s key) m ≡ contents s key m
    unfolding mem_of contents
    mem_of-contains m k =
        let base = set_base db key in
        sort-contains (decoded base (works.listed base true s)) m
        ∙ bool_iff _ _ (decoded_sound m (works.listed base true s) (works.listed_sound base true s))
            (λ there.
              decoded_complete m (works.listed base true s) k (works.listed_sound base true s) (
                works.listed_complete base true s (set_member new_key db key m)
                  (set_member-under cleans db key m h k) there))
