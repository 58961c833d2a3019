-- ===== src/SetRepo/Algebra.antt =====
-- crdtstore/rset.go: Diff, Inter and Union, and the sets that they store.
pub mod Stored
pub mod Replace
use redgeo.Base.{
  Bytes, ℤ, All, contains, sort, sort-contains, sort-All, ℕ, ◌≡◌, refl, ◌∙◌, Bool, false, not, ◌&&◌,
  ◌||◌, Option, List, [], ◌∷◌,
}
use mathlib.Core.Path.{subst}
use redgeo.Exec.{Exec, ok, err, pure, continue, ◌>>=◌}
use redgeo.Keyspace.{Keyspace, Works, type_set}
use redgeo.Keys.Paths.{Cleans, IsName}
use redgeo.SetRepo.{
  as_set, minus, meet, join, items, member_set, fold_sets, from_first, diff, inter, union,
}
use redgeo.SetRepo.Combine.{
  as_set-contains, minus-contains, meet-contains, join-contains, as_set-IsName, KeepsNames,
  minus-KeepsNames, meet-KeepsNames, join-KeepsNames, combined, some_has, all_have, combined-minus,
  combined-meet, combined-join,
}
use redgeo.SetRepo.Contents.{
  contents, Canonical, mem_of, members_lem, mem_of-contains, mem_of-IsName,
}
use redgeo.SetRepo.Steps.{IsSetKey, ensure_type_lem}

module _ {S : Type 0} {ks : Keyspace S} {view : S → Bytes → Option Bytes}
    {kind : S → Bytes → Option ℕ} (works : Works ks view kind) {new_key : Bytes → Bytes}
    (cleans : Cleans new_key) (db : ℤ) (s : S) (canonical : Canonical works cleans db s) where
  -- A key whose set can be read.
  abbrev pub IsReadable : Bytes → Type 0
  IsReadable key = IsName key × IsSetKey works cleans db s key

  -- What an operation answers that changes nothing: names, for which a test decides.
  abbrev pub Answers : Exec S (List Bytes) → (Bytes → Bool) → Type 0
  Answers m test =
      (vals : List Bytes) × (m s ≡ (ok vals, s))
      × All IsName vals
      × ((x : Bytes) → IsName x → contains vals x ≡ test x)

  items_lem :
      (key : Bytes)
      → IsReadable key
      → items ks new_key db key s ≡ (ok (mem_of works cleans db s key), s)
  unfolding items
  items_lem key h =
      rw (ensure_type_lem works cleans db key s h.1) (members_lem works cleans db key s)

  -- SMEMBERS lists the members of the set.
  pub items-Answers :
      (key : Bytes)
      → IsReadable key
      → Answers (items ks new_key db key) (contents works cleans db s key)
  items-Answers key h = (
    mem_of works cleans db s key,
    items_lem key h,
    mem_of-IsName works cleans db s canonical key h.0,
    mem_of-contains works cleans db s canonical key h.0,
  )

  member_set-Answers :
      (key : Bytes)
      → IsReadable key
      → Answers (member_set ks new_key db key) (contents works cleans db s key)
  unfolding member_set
  member_set-Answers key h = (
    as_set (mem_of works cleans db s key),
    rw (items_lem key h) refl,
    as_set-IsName (mem_of works cleans db s key)
        (mem_of-IsName works cleans db s canonical key h.0),
    λ x k.
        as_set-contains (mem_of works cleans db s key) x
        ∙ mem_of-contains works cleans db s canonical key h.0 x k,
  )

  -- What the loops of Diff, Inter and Union do, by what one round does.
  fold_sets-Answers :
      (f : List Bytes → List Bytes → List Bytes) (g : Bool → Bool → Bool)
      → KeepsNames f
      → ((base other : List Bytes) (x : Bytes)
          → contains (f base other) x ≡ g (contains base x) (contains other x))
      → (base : List Bytes) (keys : List Bytes) → All IsName base
      → All IsReadable keys
      → Answers
          (fold_sets ks new_key db f base keys)
          (λ x. combined g (contains base x) (λ k. contents works cleans db s k x) keys)
  unfolding fold_sets combined
  fold_sets-Answers f g keeps one base [] h readable = (base, refl, h, λ x k. refl)
  fold_sets-Answers f g keeps one base (k ∷ keys) h readable =
      let (other, got, names, reads) = member_set-Answers k readable.0 in
      let (found, gets, names', finds) =
        fold_sets-Answers f g keeps one (f base other) keys (keeps base other h names) readable.1 in
      (found, rw got gets, names', λ x p. finds x p ∙ rw (one base other x, reads x p) refl)

  from_first-Answers :
      (f : List Bytes → List Bytes → List Bytes) (g : Bool → Bool → Bool)
      → KeepsNames f
      → ((base other : List Bytes) (x : Bytes)
          → contains (f base other) x ≡ g (contains base x) (contains other x))
      → (key : Bytes) (keys : List Bytes) → IsReadable key
      → All IsReadable keys
      → Answers (from_first ks new_key db f (key ∷ keys)) (λ x.
        combined g (contents works cleans db s key x) (λ k. contents works cleans db s k x) keys)
  unfolding from_first
  from_first-Answers f g keeps one key keys h readable =
      let (base, got, names, reads) = member_set-Answers key h in
      let (found, gets, names', finds) = fold_sets-Answers f g keeps one base keys names readable in
      (
        sort found,
        rw got (rw gets refl),
        sort-All IsName found names',
        λ x p. sort-contains found x ∙ (finds x p ∙ rw (reads x p) refl),
      )

  abbrev has_member : Bytes → Bytes → Bool
  has_member x k = contents works cleans db s k x

  -- SDIFF lists the members of the first set that no other set has.
  pub diff-Answers :
      (key : Bytes) (keys : List Bytes)
      → IsReadable key
      → All IsReadable keys
      → Answers (diff ks new_key db (key ∷ keys)) (λ x.
        contents works cleans db s key x
        && not (some_has (λ k. contents works cleans db s k x) keys))
  unfolding diff
  diff-Answers key keys h readable =
      let (vals, got, names, reads) =
        from_first-Answers minus (λ p q. p && not q) minus-KeepsNames minus-contains key keys h
          readable in
      (vals, got, names, λ x k. reads x k ∙ combined-minus _ (has_member x) keys)

  -- SINTER lists the members of the first set that all the others have.
  pub inter-Answers :
      (key : Bytes) (keys : List Bytes)
      → IsReadable key
      → All IsReadable keys
      → Answers (inter ks new_key db (key ∷ keys)) (λ x.
        contents works cleans db s key x && all_have (λ k. contents works cleans db s k x) keys)
  unfolding inter
  inter-Answers key keys h readable =
      let (vals, got, names, reads) =
        from_first-Answers meet ◌&&◌ meet-KeepsNames meet-contains key keys h readable in
      (vals, got, names, λ x k. reads x k ∙ combined-meet _ (has_member x) keys)

  -- SUNION lists the members of all the sets.
  pub union-Answers :
      (keys : List Bytes)
      → All IsReadable keys
      → Answers
          (union ks new_key db keys)
          (λ x. some_has (λ k. contents works cleans db s k x) keys)
  unfolding union contains
  union-Answers keys readable =
      let (vals, got, names, reads) =
        fold_sets-Answers join ◌||◌ join-KeepsNames join-contains [] keys tt readable in
      (
        sort vals,
        rw got refl,
        sort-All IsName vals names,
        λ x k. sort-contains vals x ∙ (reads x k ∙ combined-join false (has_member x) keys),
      )
