-- ===== src/SetRepo/Errors.antt =====
-- crdtstore/rset.go: keys of other types, and the empty member.
use redgeo.Base.{
  Bytes, compare_bytes, bytes_eq, bytes_eq_iff, ℤ, All, contains, ◌==◌, Bool-cases, ℕ, ◌≡◌, refl,
  sym, ap, ◌∙◌, inl, inr, true, false, Option, some, List, [], ◌∷◌, arith,
}
use redgeo.Scan.{Query, ResumeTable}
use redgeo.Exec.{ok, err, key_type}
use redgeo.Keyspace.{Keyspace, Works, is_some, type_set, ensure_type, meta_of}
use redgeo.Keys.{set_base, set_member}
use redgeo.Keys.Paths.{Cleans, IsName}
use redgeo.Keys.Members.{empty_member-outside, empty_member-data}
use redgeo.SetRepo.{
  add, add_loop, delete, exists, items, len, random, pop, member_set, scan, move_held, diff, inter,
  union, from_first, fold_sets, presence,
}
use redgeo.SetRepo.Algebra.{items-Answers}
use redgeo.Txn.{has_prefix}
use mathlib.Core.Path.{subst}
use redgeo.SetRepo.Contents.{Canonical}
use redgeo.SetRepo.Steps.{IsSetKey, ensure_type_lem, same-Canonical, meta-SameView, SameView}

module _ {S : Type 0} {ks : Keyspace S} {view : S → Bytes → Option Bytes}
    {kind : S → Bytes → Option ℕ} (works : Works ks view kind) (new_key : Bytes → Bytes)
    (db : ℤ) where
  ensure_type_other :
      (key : Bytes) (s : S) (t : ℕ)
      → kind s key ≡ some t
      → (t == type_set) ≡ false
      → ensure_type ks type_set key s ≡ (err key_type, s)
  unfolding ensure_type
  ensure_type_other key s t is_t other = rw (works.probed key s, is_t) (rw other refl)

  -- On a live key of another type Add, Delete, Exists, Items, Len, Random, Pop and Scan, Move from it
  -- with both locks held, and Diff, Inter and Union with it as their first operand answer the error of
  -- a wrong type and change nothing. The datastore works.
  pub other_type_refused :
      (key dest : Bytes) (elems keys : List Bytes) (m : Bytes) (draw : ℕ → ℕ) (s : S) (t : ℕ)
      (now : ℤ) (q : Query) (cursor : ℤ) (rt : ResumeTable)
      → q.key ≡ key
      → kind s key ≡ some t
      → (t == type_set) ≡ false
      → (add ks new_key db key elems s ≡ (err key_type, s))
        × (delete ks new_key db key elems s ≡ (err key_type, s))
        × (exists ks new_key db key m s ≡ (err key_type, s))
        × (items ks new_key db key s ≡ (err key_type, s))
        × (len ks new_key db key s ≡ (err key_type, s))
        × (random ks new_key db draw key s ≡ (err key_type, s))
        × (pop ks new_key db draw key s ≡ (err key_type, s))
        × (scan ks new_key db now q cursor rt s ≡ (err key_type, s))
        × (move_held ks new_key db key dest m s ≡ (err key_type, s))
        × (diff ks new_key db (key ∷ keys) s ≡ (err key_type, s))
        × (inter ks new_key db (key ∷ keys) s ≡ (err key_type, s))
        × (union ks new_key db (key ∷ keys) s ≡ (err key_type, s))
  unfolding add delete exists items len random pop scan move_held diff inter union from_first
      fold_sets member_set
  other_type_refused key dest elems keys m draw s t now q cursor rt of_key is_t other =
      let refused = ensure_type_other key s t is_t other in
      (
        rw refused refl,
        rw refused refl,
        rw refused refl,
        rw refused refl,
        rw refused refl,
        rw refused refl,
        rw refused refl,
        rw of_key (rw refused refl),
        rw refused refl,
        rw refused refl,
        rw refused refl,
        rw refused refl,
      )

module _ {S : Type 0} {ks : Keyspace S} {view : S → Bytes → Option Bytes}
    {kind : S → Bytes → Option ℕ} (works : Works ks view kind) {new_key : Bytes → Bytes}
    (cleans : Cleans new_key) (db : ℤ) where
  add_empty :
      (key : Bytes) (s : S)
      → IsSetKey works cleans db s key
      → (add ks new_key db key ([] ∷ []) s).1
        ≡ (ks.write_meta key
            (meta_of type_set)
            (ks.put (set_member new_key db key []) presence s).1).1
  unfolding add add_loop
  add_empty key s set =
      let mk = set_member new_key db key [] in
      rw
        (
          ensure_type_lem works cleans db key s set,
          works.has_it mk s,
          works.put_ok mk presence s,
          works.write_meta_ok key (meta_of type_set) (ks.put mk presence s).1,
        )
        refl

  empty-Canonical :
      (key : Bytes) (s : S)
      → IsName key
      → Canonical works cleans db s
      → Canonical works cleans db (ks.put (set_member new_key db key []) presence s).1
  empty-Canonical key s h canonical key' j h' under there =
      let mk = set_member new_key db key [] in
      elim (Bool-cases (bytes_eq mk j)) [
        | inl this ↦ absurd (
            empty_member-outside cleans db key key' h h' (
              subst (λ i. has_prefix i (set_base db key') ≡ true) (sym ((bytes_eq_iff mk j).0 this))
                under))
        | inr other ↦
            canonical key' j h' under
              (ap is_some (sym (works.put_view mk presence s j ∙ rw other refl)) ∙ there)
      ]

  no_empty : (ms : List Bytes) → All IsName ms → contains ms [] ≡ false
  unfolding contains bytes_eq compare_bytes
  no_empty [] h = refl
  no_empty ([] ∷ ms) h = absurd (omega (arith, h.0.1))
  no_empty ((c ∷ m) ∷ ms) h = no_empty ms h.1

  -- After SADD of the empty string to a key that holds a set or nothing, and holds one afterwards,
  -- SISMEMBER finds it and SMEMBERS does not list it. The datastore works, the key is not empty, and
  -- only members are stored under sets.
  pub empty_member_lost :
      (key : Bytes) (s : S)
      → IsName key
      → Canonical works cleans db s
      → IsSetKey works cleans db s key
      → IsSetKey works cleans db (add ks new_key db key ([] ∷ []) s).1 key
      → (exists ks new_key db key [] (add ks new_key db key ([] ∷ []) s).1
          ≡ (ok true, (add ks new_key db key ([] ∷ []) s).1))
        × ((vals : List Bytes) × (items ks new_key db key (add ks new_key db key ([] ∷ []) s).1
              ≡ (ok vals, (add ks new_key db key ([] ∷ []) s).1))
            × (contains vals [] ≡ false))
  unfolding exists
  empty_member_lost key s h canonical set set' =
      let mk = set_member new_key db key [] in
      let s1 = (ks.put mk presence s).1 in
      let s' = (add ks new_key db key ([] ∷ []) s).1 in
      let same : SameView works cleans db s1 s' =
        subst (SameView works cleans db s1) (sym (add_empty key s set))
          (meta-SameView works cleans db key s1 h) in
      let self : bytes_eq mk mk ≡ true = (bytes_eq_iff mk mk).1 refl in
      let there : view s' mk ≡ some presence =
        same mk (empty_member-data cleans db key h)
        ∙ (works.put_view mk presence s mk ∙ rw self refl) in
      let canonical' =
        same-Canonical works cleans db s1 s' same (empty-Canonical key s h canonical) in
      let (vals, got, names, reads) = items-Answers works cleans db s' canonical' key (h, set') in
      (
        rw (ensure_type_lem works cleans db key s' set', works.has_it mk s')
            (ap (λ v. (ok (is_some v), s')) there),
        (vals, got, no_empty vals names),
      )
