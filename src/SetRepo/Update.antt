-- ===== src/SetRepo/Update.antt =====
-- crdtstore/rset.go: Add, Delete and Move as operations on sets.
use redgeo.Base.{
  Bytes, bytes_eq, bytes_eq_iff, ℤ, All, contains, if◌then◌else◌, Bool-cases, ℕ, ◌+◌, ◌≡◌, refl,
  sym, ap, ◌∙◌, inl, inr, Bool, true, not, ◌&&◌, ◌||◌, Option, List, [], ◌∷◌, arith,
}
use mathlib.Core.Path.{subst}
use redgeo.Exec.{ok, err, not_found}
use redgeo.Keyspace.{Keyspace, Works, is_some, type_set, meta_of}
use redgeo.Keys.{set_member}
use redgeo.Keys.Paths.{Cleans, IsName}
use redgeo.SetRepo.{presence, add_loop, add, delete_loop, delete, move_held}
use redgeo.SetRepo.Contents.{contents, Canonical}
use redgeo.SetRepo.Steps.{
  fresh, gone, fresh-same, gone-same, put-contents, del-contents, put-Canonical, del-Canonical,
  same-Shows, meta-SameView, drop_if_empty_lem, Shows, IsSetKey, ensure_type_lem,
}

module _ {S : Type 0} {ks : Keyspace S} {view : S → Bytes → Option Bytes}
    {kind : S → Bytes → Option ℕ} (works : Works ks view kind) {new_key : Bytes → Bytes}
    (cleans : Cleans new_key) (db : ℤ) where
  added : S → Bytes → List Bytes → Bytes → Bytes → Bool
  added s key elems key' x =
      (bytes_eq key key' && contains elems x) || contents works cleans db s key' x

  add_loop-step :
      (key m : Bytes) (elems : List Bytes) (n : ℕ) (s : S)
      → add_loop ks new_key db key (m ∷ elems) n s
        ≡ add_loop ks new_key db key elems
            (if contents works cleans db s key m then n else n + 1)
            (ks.put (set_member new_key db key m) presence s).1
  unfolding add_loop contents
  add_loop-step key m elems n s =
      let mk = set_member new_key db key m in
      rw (works.has_it mk s, works.put_ok mk presence s) refl

  add_loop_lem :
      (key : Bytes) (elems : List Bytes) (n : ℕ) (s : S)
      → IsName key
      → All IsName elems
      → Canonical works cleans db s
      → ((add_loop ks new_key db key elems n s).0
          ≡ ok (n + fresh (contents works cleans db s key) elems))
        × Shows works cleans db (add_loop ks new_key db key elems n s).1 (added s key elems)
  unfolding add_loop added fresh contains
  add_loop_lem key [] n s h names canonical =
      (ap ok (omega arith), (canonical, λ key' x h' k. ground arith))
  add_loop_lem key (m ∷ elems) n s h names canonical =
      let s' = (ks.put (set_member new_key db key m) presence s).1 in
      let had = contents works cleans db s key m in
      let after = put-contents works cleans db s key m in
      let (count, (canonical', shows)) =
        add_loop_lem key elems (if had then n else n + 1) s' h names.1
          (put-Canonical works cleans db s key m h names.0 canonical) in
      let self : bytes_eq key key ≡ true = (bytes_eq_iff key key).1 refl in
      let same =
        fresh-same (contents works cleans db s' key)
          (λ x. bytes_eq m x || contents works cleans db s key x) elems
          (λ x k. after key x h h names.0 k ∙ rw self refl) names.1 in
      (
        ap (λ r. r.0) (add_loop-step key m elems n s) ∙ (count ∙ ap ok (ground (arith, same))),
        subst (λ r. Shows works cleans db r.1 (added s key (m ∷ elems)))
            (sym (add_loop-step key m elems n s))
            (
              canonical',
              λ key' x h' k. shows key' x h' k ∙ rw (after key' x h h' names.0 k) (ground arith),
            ),
      )

  -- SADD to a key that holds a set or nothing answers how many of the elements the set has not, each
  -- counted once; afterwards it has them all, and no other set of the database has changed. The
  -- datastore works, the key and the elements are not empty, and only members are stored under sets.
  pub add-refines :
      (key : Bytes) (elems : List Bytes) (s : S)
      → IsName key
      → All IsName elems
      → Canonical works cleans db s
      → IsSetKey works cleans db s key
      → ((add ks new_key db key elems s).0 ≡ ok (fresh (contents works cleans db s key) elems))
        × Shows works cleans db
            (add ks new_key db key elems s).1
            (λ key' x. (bytes_eq key key' && contains elems x) || contents works cleans db s key' x)
  unfolding add added
  add-refines key elems s h names canonical set =
      let (count, shows) = add_loop_lem key elems 0 s h names canonical in
      let s' = (add_loop ks new_key db key elems 0 s).1 in
      rw
        (
          ensure_type_lem works cleans db key s set,
          count,
          works.write_meta_ok key (meta_of type_set) s',
        )
        (
          ap ok (omega arith),
          same-Shows works cleans db s' _ (added s key elems)
              (meta-SameView works cleans db key s' h) shows,
        )

  removed : S → Bytes → List Bytes → Bytes → Bytes → Bool
  removed s key elems key' x =
      contents works cleans db s key' x && not (bytes_eq key key' && contains elems x)

  -- the state after one round of the loop of Delete
  one_out : S → Bytes → Bytes → S
  one_out s key m =
      if contents works cleans db s key m then (ks.del (set_member new_key db key m) s).1 else s

  delete_loop-step :
      (key m : Bytes) (elems : List Bytes) (n : ℕ) (s : S)
      → delete_loop ks new_key db key (m ∷ elems) n s
        ≡ delete_loop ks new_key db key elems
            (if contents works cleans db s key m then n + 1 else n)
            (one_out s key m)
  unfolding delete_loop contents one_out
  delete_loop-step key m elems n s =
      let mk = set_member new_key db key m in
      rw (works.has_it mk s) (elim (Bool-cases (is_some (view s mk))) [
        | inl had ↦ rw had (rw (works.del_ok mk s) refl)
        | inr missing ↦ rw missing refl
      ])

  one_out_lem :
      (s : S) (key m : Bytes)
      → IsName key
      → IsName m
      → Canonical works cleans db s
      → Shows works cleans db (one_out s key m) (removed s key (m ∷ []))
  unfolding one_out removed contains
  one_out_lem s key m h k canonical = elim (Bool-cases (contents works cleans db s key m)) [
    | inl had ↦ rw had (
      del-Canonical works cleans db s (set_member new_key db key m) canonical,
      λ key' x h' k'. del-contents works cleans db s key m key' x h h' k k' ∙ ground arith,
    )
    | inr missing ↦ rw missing (
      canonical,
      λ key' x h' k'. ground (arith, bytes_eq_iff key key', bytes_eq_iff m x, missing),
    )
  ]

  delete_loop_lem :
      (key : Bytes) (elems : List Bytes) (n : ℕ) (s : S)
      → IsName key
      → All IsName elems
      → Canonical works cleans db s
      → ((delete_loop ks new_key db key elems n s).0
          ≡ ok (n + gone (contents works cleans db s key) elems))
        × Shows works cleans db (delete_loop ks new_key db key elems n s).1 (removed s key elems)
  unfolding delete_loop removed gone contains
  delete_loop_lem key [] n s h names canonical =
      (ap ok (omega arith), (canonical, λ key' x h' k. ground arith))
  delete_loop_lem key (m ∷ elems) n s h names canonical =
      let s' = one_out s key m in
      let had = contents works cleans db s key m in
      let (canonical', after) = one_out_lem s key m h names.0 canonical in
      let (count, (canonical'', shows)) =
        delete_loop_lem key elems (if had then n + 1 else n) s' h names.1 canonical' in
      let self : bytes_eq key key ≡ true = (bytes_eq_iff key key).1 refl in
      let same =
        gone-same (contents works cleans db s' key)
          (λ x. contents works cleans db s key x && not (bytes_eq m x)) elems
          (λ x k. after key x h k ∙ rw self (ground arith)) names.1 in
      (
        ap (λ r. r.0) (delete_loop-step key m elems n s) ∙ (count ∙ ap ok (ground (arith, same))),
        subst (λ r. Shows works cleans db r.1 (removed s key (m ∷ elems)))
            (sym (delete_loop-step key m elems n s))
            (canonical'', λ key' x h' k. shows key' x h' k ∙ rw (after key' x h' k) (ground arith)),
      )

  -- SREM answers how many of the elements the set had, each counted once; afterwards it has none of
  -- them, and no other set has changed. The datastore works, the key holds a set or nothing, no name
  -- is empty, and only members are stored under sets.
  pub delete-refines :
      (key : Bytes) (elems : List Bytes) (s : S)
      → IsName key
      → All IsName elems
      → Canonical works cleans db s
      → IsSetKey works cleans db s key
      → ((delete ks new_key db key elems s).0 ≡ ok (gone (contents works cleans db s key) elems))
        × Shows works cleans db (delete ks new_key db key elems s).1 (λ key' x.
          contents works cleans db s key' x && not (bytes_eq key key' && contains elems x))
  unfolding delete removed
  delete-refines key elems s h names canonical set =
      let (count, shows) = delete_loop_lem key elems 0 s h names canonical in
      let s' = (delete_loop ks new_key db key elems 0 s).1 in
      let (dropped, same) = drop_if_empty_lem works cleans db key s' h in
      rw (ensure_type_lem works cleans db key s set, count, dropped)
        (ap ok (omega arith), same-Shows works cleans db s' _ (removed s key elems) same shows)

  moved : S → Bytes → Bytes → Bytes → Bytes → Bytes → Bool
  moved s src dest m key x =
      (bytes_eq dest key && bytes_eq m x)
      || (contents works cleans db s key x && not (bytes_eq src key && bytes_eq m x))

  -- With its locks held, SMOVE of a member that the source has takes it out of the source and puts it into the
  -- destination, and changes no other set. Of any other member it changes nothing and reports that it
  -- is not found. Both keys hold a set or nothing, on the conditions of SADD.
  pub move-refines :
      (src dest m : Bytes) (s : S)
      → IsName src
      → IsName dest
      → IsName m
      → Canonical works cleans db s
      → IsSetKey works cleans db s src
      → IsSetKey works cleans db s dest
      → ((move_held ks new_key db src dest m s).0
          ≡ (if contents works cleans db s src m then ok tt else err not_found))
        × Shows works cleans db (move_held ks new_key db src dest m s).1 (λ key x.
          if contents works cleans db s src m
          then (bytes_eq dest key && bytes_eq m x)
            || (contents works cleans db s key x && not (bytes_eq src key && bytes_eq m x))
          else contents works cleans db s key x)
  unfolding move_held contents moved
  move-refines src dest m s h h' k canonical set set' =
      let from = set_member new_key db src m in
      let into = set_member new_key db dest m in
      rw
        (
          ensure_type_lem works cleans db src s set,
          ensure_type_lem works cleans db dest s set',
          works.has_it from s,
        )
        (elim (Bool-cases (is_some (view s from))) [
          | inr missing ↦ rw missing (refl, (canonical, λ key x p q. refl))
          | inl had ↦
              let s1 = (ks.del from s).1 in
              let s2 = (ks.put into presence s1).1 in
              let s3 = (ks.write_meta dest (meta_of type_set) s2).1 in
              let (dropped, same) = drop_if_empty_lem works cleans db src s3 h in
              rw
                (
                  had,
                  works.del_ok from s,
                  works.put_ok into presence s1,
                  works.write_meta_ok dest (meta_of type_set) s2,
                )
                (
                  dropped,
                  same-Shows works cleans db s3 _ (moved s src dest m) same (
                      same-Shows works cleans db s2 s3 (moved s src dest m)
                        (meta-SameView works cleans db dest s2 h')
                        (
                          put-Canonical works cleans db s1 dest m h' k
                              (del-Canonical works cleans db s from canonical),
                          λ key x p q.
                              put-contents works cleans db s1 dest m key x h' p k q
                              ∙ rw (del-contents works cleans db s src m key x h p k q) refl,
                        )),
                )
        ])
