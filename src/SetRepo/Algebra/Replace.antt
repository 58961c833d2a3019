-- ===== src/SetRepo/Algebra/Replace.antt =====
-- crdtstore/rset.go: DiffStore, InterStore and UnionStore replace the destination.
use redgeo.Base.{
  Bytes, bytes_eq, ℤ, length, All, contains, ltb, if◌then◌else◌, Bool-cases, ℕ, ◌≡◌, refl, ap, ◌∙◌,
  inl, inr, Bool, not, ◌&&◌, Option, List, ◌∷◌, arith,
}
use redgeo.Exec.{Exec, ok, ◌>>=◌}
use redgeo.Keyspace.{Keyspace, Works, type_set, meta_of}
use redgeo.Keys.Paths.{Cleans, IsName}
use redgeo.SetRepo.{
  clear_old, put_loop, store_result, diff_store, inter_store, union_store, diff, inter, union,
}
use redgeo.SetRepo.Combine.{some_has, all_have}
use redgeo.SetRepo.Contents.{contents, Canonical}
use redgeo.SetRepo.Steps.{same-Shows, meta-SameView, Shows}
use redgeo.SetRepo.Algebra.Stored.{stored, without_old, put_loop_lem, clear_old_lem, IsReplaceable}
use redgeo.SetRepo.Algebra.{IsReadable, Answers, diff-Answers, inter-Answers, union-Answers}

module _ {S : Type 0} {ks : Keyspace S} {view : S → Bytes → Option Bytes}
    {kind : S → Bytes → Option ℕ} (works : Works ks view kind) {new_key : Bytes → Bytes}
    (cleans : Cleans new_key) (db : ℤ) where
  -- the sets after the destination has been replaced
  abbrev pub replaced : S → Bytes → (Bytes → Bool) → Bytes → Bytes → Bool
  replaced s dest test key x =
      if bytes_eq dest key then test x else contents works cleans db s key x

  store_result_lem :
      (dest : Bytes) (vals : List Bytes) (s : S)
      → IsName dest
      → All IsName vals
      → Canonical works cleans db s
      → IsReplaceable works cleans db s dest
      → ((store_result ks new_key db dest vals s).0 ≡ ok (length vals))
        × (t : S) × ((store_result ks new_key db dest vals s).1 ≡ (
            if ltb 0 (length vals)
            then (ks.write_meta dest (meta_of type_set) t).1
            else (ks.delete_meta dest t).1))
        × Shows works cleans db
            (store_result ks new_key db dest vals s).1
            (replaced s dest (contains vals))
  unfolding store_result without_old stored
  store_result_lem dest vals s h names canonical free =
      let s1 = (clear_old ks new_key db dest s).1 in
      let s2 = (put_loop ks new_key db dest vals s1).1 in
      let (emptied, (canonical1, shows1)) = clear_old_lem works cleans db dest s h canonical free in
      let (written, (canonical2, shows2)) =
        put_loop_lem works cleans db dest vals s1 h names canonical1 in
      let now_stored : Shows works cleans db s2 (replaced s dest (contains vals)) =
        (canonical2, λ key x h' k. shows2 key x h' k ∙ rw (shows1 key x h' k) (ground arith)) in
      rw (emptied, written)
        (elim (Bool-cases (ltb 0 (length vals))) [
          | inl some_vals ↦
              rw (some_vals, works.write_meta_ok dest (meta_of type_set) s2)
                (
                  refl,
                  s2,
                  refl,
                  same-Shows works cleans db s2 _ _ (meta-SameView works cleans db dest s2 h)
                      now_stored,
                )
          | inr no_vals ↦ rw no_vals (
            refl,
            s2,
            refl,
            same-Shows works cleans db s2 _ _ (λ j apart. works.delete_meta_view dest s2 j h apart)
                now_stored,
          )
        ])

  -- What a *STORE command does that stores what another command answers: the names that a test
  -- decides.
  abbrev pub Stores : S → Exec S ℕ → Exec S (List Bytes) → Bytes → (Bytes → Bool) → Type 0
  Stores s m answered dest test =
      (vals : List Bytes) × (answered s ≡ (ok vals, s))
      × ((m s).0 ≡ ok (length vals))
      × (t : S) × ((m s).1 ≡ (
          if ltb 0 (length vals)
          then (ks.write_meta dest (meta_of type_set) t).1
          else (ks.delete_meta dest t).1))
      × Shows works cleans db (m s).1 (replaced s dest test)

  stores :
      (s : S) (dest : Bytes) (m : Exec S (List Bytes)) (test : Bytes → Bool)
      → (canonical : Canonical works cleans db s) → IsName dest
      → IsReplaceable works cleans db s dest
      → Answers works cleans db s canonical m test
      → Stores s (m >>= store_result ks new_key db dest) m dest test
  stores s dest m test canonical h free (vals, got, names, reads) =
      let (done, t, last, (canonical', shows)) =
        store_result_lem dest vals s h names canonical free in
      (
        vals,
        got,
        rw got done,
        t,
        rw got last,
        rw got (
          canonical',
          λ key x h' k.
              shows key x h' k
              ∙ ap (λ b. if bytes_eq dest key then b else contents works cleans db s key x)
                  (reads x k),
        ),
      )

  module _ (s : S) (canonical : Canonical works cleans db s) (dest : Bytes) (h : IsName dest)
      (free : IsReplaceable works cleans db s dest) where
    -- SDIFFSTORE makes the destination, which may be one of the operands, the set of the members of
    -- the first set that no other has, and changes no other set. It answers how many names SDIFF lists;
    -- the last thing that it writes is the destination's metadata, as those of a set, or as deleted if
    -- there are no names. The datastore works, the operands
    -- hold sets or nothing, the destination holds a set or has no members stored, no name is empty,
    -- and only members are stored under sets.
    pub diff_store-refines :
        (key : Bytes) (keys : List Bytes)
        → IsReadable works cleans db s canonical key
        → All (IsReadable works cleans db s canonical) keys
        → Stores s
            (diff_store ks new_key db dest (key ∷ keys))
            (diff ks new_key db (key ∷ keys))
            dest
            (λ x.
              contents works cleans db s key x
              && not (some_has (λ k. contents works cleans db s k x) keys))
    unfolding diff_store
    diff_store-refines key keys first rest =
        stores s dest (diff ks new_key db (key ∷ keys)) _ canonical h free
          (diff-Answers works cleans db s canonical key keys first rest)

    -- SINTERSTORE makes the destination the set of the members of the first set that all the others
    -- have, and changes no other set, on the conditions of SDIFFSTORE.
    pub inter_store-refines :
        (key : Bytes) (keys : List Bytes)
        → IsReadable works cleans db s canonical key
        → All (IsReadable works cleans db s canonical) keys
        → Stores s
            (inter_store ks new_key db dest (key ∷ keys))
            (inter ks new_key db (key ∷ keys))
            dest
            (λ x.
              contents works cleans db s key x
              && all_have (λ k. contents works cleans db s k x) keys)
    unfolding inter_store
    inter_store-refines key keys first rest =
        stores s dest (inter ks new_key db (key ∷ keys)) _ canonical h free
          (inter-Answers works cleans db s canonical key keys first rest)

    -- SUNIONSTORE makes the destination, which may be one of the operands, the set of the members of
    -- all the sets, and changes no other set. It answers how many names SUNION lists; the last thing
    -- that it writes is the destination's metadata, as those of a set, or as deleted if there are no
    -- names. The datastore works, the operands hold sets or nothing, the destination holds a set or
    -- has no members stored, no name is empty, and only members are stored under sets.
    pub union_store-refines :
        (keys : List Bytes)
        → All (IsReadable works cleans db s canonical) keys
        → Stores s
            (union_store ks new_key db dest keys)
            (union ks new_key db keys)
            dest
            (λ x. some_has (λ k. contents works cleans db s k x) keys)
    unfolding union_store
    union_store-refines keys rest =
        stores s dest (union ks new_key db keys) _ canonical h free
          (union-Answers works cleans db s canonical keys rest)
