-- ===== src/SetRepo/Algebra/Stored.antt =====
-- crdtstore/rset.go: storeResult clears the destination and writes the new members.
use redgeo.Base.{
  Bytes, bytes_eq, bytes_eq_iff, ℤ, All, contains, ◌==◌, ==_iff, Bool-cases, Option-cases, ℕ, ◌≡◌,
  refl, sym, ap, ◌∙◌, ◌⊎◌, inl, inr, Bool, false, not, ◌&&◌, ◌||◌, Option, some, List, [], ◌∷◌,
  arith,
}
use redgeo.Exec.{ok, on_ok_lem}
use redgeo.Keyspace.{Keyspace, Works, type_set}
use redgeo.Keys.{set_member}
use redgeo.Keys.Paths.{Cleans, IsName}
use redgeo.SetRepo.{presence, members, clear_loop, clear_found, clear_old, put_loop}
use redgeo.SetRepo.Contents.{
  contents, Canonical, mem_of, members_lem, mem_of-contains, mem_of-IsName,
}
use redgeo.SetRepo.Steps.{put-contents, del-contents, put-Canonical, del-Canonical, Shows}

module _ {S : Type 0} {ks : Keyspace S} {view : S → Bytes → Option Bytes}
    {kind : S → Bytes → Option ℕ} (works : Works ks view kind) {new_key : Bytes → Bytes}
    (cleans : Cleans new_key) (db : ℤ) where
  cleared : S → Bytes → List Bytes → Bytes → Bytes → Bool
  cleared s dest mem key x =
      contents works cleans db s key x && not (bytes_eq dest key && contains mem x)

  clear_loop_lem :
      (dest : Bytes) (mem : List Bytes) (s : S)
      → IsName dest
      → All IsName mem
      → Canonical works cleans db s
      → ((clear_loop ks new_key db dest mem s).0 ≡ ok tt)
        × Shows works cleans db (clear_loop ks new_key db dest mem s).1 (cleared s dest mem)
  unfolding clear_loop cleared contains
  clear_loop_lem dest [] s h names canonical = (refl, (canonical, λ key x h' k. ground arith))
  clear_loop_lem dest (m ∷ mem) s h names canonical =
      let mk = set_member new_key db dest m in
      let (done, (canonical', shows)) =
        clear_loop_lem dest mem (ks.del mk s).1 h names.1
          (del-Canonical works cleans db s mk canonical) in
      (
        done,
        (
          canonical',
          λ key x h' k.
              shows key x h' k
              ∙ rw (del-contents works cleans db s dest m key x h h' names.0 k) (ground arith),
        ),
      )

  unfoldable pub stored : S → Bytes → List Bytes → Bytes → Bytes → Bool
  stored s dest vals key x =
      (bytes_eq dest key && contains vals x) || contents works cleans db s key x

  pub put_loop_lem :
      (dest : Bytes) (vals : List Bytes) (s : S)
      → IsName dest
      → All IsName vals
      → Canonical works cleans db s
      → ((put_loop ks new_key db dest vals s).0 ≡ ok tt)
        × Shows works cleans db (put_loop ks new_key db dest vals s).1 (stored s dest vals)
  unfolding put_loop stored contains
  put_loop_lem dest [] s h names canonical = (refl, (canonical, λ key x h' k. ground arith))
  put_loop_lem dest (v ∷ vals) s h names canonical =
      let mk = set_member new_key db dest v in
      let s' = (ks.put mk presence s).1 in
      let (done, (canonical', shows)) =
        put_loop_lem dest vals s' h names.1
          (put-Canonical works cleans db s dest v h names.0 canonical) in
      rw (works.put_ok mk presence s) (
        done,
        (
          canonical',
          λ key x h' k.
              shows key x h' k
              ∙ rw (put-contents works cleans db s dest v key x h h' names.0 k) (ground arith),
        ),
      )

  -- A destination that holds a set, or nothing that a set could be read from.
  abbrev pub IsReplaceable : S → Bytes → Type 0
  IsReplaceable s dest =
      (kind s dest ≡ some type_set)
      ⊎ ((x : Bytes) → IsName x → contents works cleans db s dest x ≡ false)

  unfoldable pub without_old : S → Bytes → Bytes → Bytes → Bool
  without_old s dest key x = not (bytes_eq dest key) && contents works cleans db s key x

  clear_old-found :
      (dest : Bytes) (s : S)
      → clear_old ks new_key db dest s ≡ clear_found ks new_key db dest (kind s dest) s
  unfolding clear_old
  clear_old-found dest s =
      on_ok_lem (ks.probe dest) (clear_found ks new_key db dest) s s (kind s dest)
        (works.probed dest s)

  clear_found-set :
      (dest : Bytes) (s : S)
      → clear_found ks new_key db dest (some type_set) s
        ≡ clear_loop ks new_key db dest (mem_of works cleans db s dest) s
  unfolding clear_found
  clear_found-set dest s =
      on_ok_lem (members ks new_key db dest) (clear_loop ks new_key db dest) s s
        (mem_of works cleans db s dest) (members_lem works cleans db dest s)

  -- Where nothing is stored for the destination, nothing is lost.
  nothing_old :
      (dest : Bytes) (s : S)
      → IsName dest
      → Canonical works cleans db s
      → ((x : Bytes) → IsName x → contents works cleans db s dest x ≡ false)
      → Shows works cleans db s (without_old s dest)
  unfolding without_old
  nothing_old dest s h canonical none_there = (
    canonical,
    λ key x h' k. elim (Bool-cases (bytes_eq dest key)) [
      | inl this ↦ rw this (
          ap (λ d. contents works cleans db s d x) (sym ((bytes_eq_iff dest key).0 this))
          ∙ none_there x k)
      | inr other ↦ rw other refl
    ],
  )

  set_cleared :
      (dest : Bytes) (s : S)
      → IsName dest
      → Canonical works cleans db s
      → ((clear_found ks new_key db dest (some type_set) s).0 ≡ ok tt)
        × Shows works cleans db
            (clear_found ks new_key db dest (some type_set) s).1
            (without_old s dest)
  unfolding without_old cleared
  set_cleared dest s h canonical =
      let mem = mem_of works cleans db s dest in
      let (done, (canonical', shows)) =
        clear_loop_lem dest mem s h (mem_of-IsName works cleans db s canonical dest h) canonical in
      rw (clear_found-set dest s) (
        done,
        (
          canonical',
          λ key x h' k.
              shows key x h' k
              ∙ rw (mem_of-contains works cleans db s canonical dest h x k)
                  (elim (Bool-cases (bytes_eq dest key)) [
                    | inl this ↦ rw (this, (bytes_eq_iff dest key).0 this) (ground arith)
                    | inr other ↦ rw other (ground arith)
                  ]),
        ),
      )

  pub clear_old_lem :
      (dest : Bytes) (s : S)
      → IsName dest
      → Canonical works cleans db s
      → IsReplaceable s dest
      → ((clear_old ks new_key db dest s).0 ≡ ok tt)
        × Shows works cleans db (clear_old ks new_key db dest s).1 (without_old s dest)
  unfolding clear_found
  clear_old_lem dest s h canonical (inl set) =
      rw (clear_old-found dest s, set) (set_cleared dest s h canonical)
  clear_old_lem dest s h canonical (inr free) =
      rw (clear_old-found dest s) (elim (Option-cases (kind s dest)) [
        | inl absent ↦ rw absent (refl, nothing_old dest s h canonical free)
        | inr (t, is_t) ↦ elim (Bool-cases (t == type_set)) [
          | inl set ↦ rw (is_t, (==_iff t type_set).0 set) (set_cleared dest s h canonical)
          | inr other ↦ rw is_t (rw other (refl, nothing_old dest s h canonical free))
        ]
      ])
