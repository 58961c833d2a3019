-- ===== src/SetRepo.antt =====
-- crdtstore/rset.go: sets as one stored key for each member. An operation holds the lock of its
-- key, and so is one step; Move, which takes two, is given the locks that are held; an element is its bytes (core.ToBytes), a random number an argument.
pub mod Contents
pub mod Steps
pub mod Update
pub mod Combine
pub mod Errors
pub mod Pop
pub mod Algebra
use redgeo.Base.{
  Bytes, ℤ, length, get_or, contains, sort, without, ltb, ◌==◌, if◌then◌else◌, ℕ, ◌+◌, Bool, true,
  Option, none, some, List, [], ◌∷◌, map,
}
use redgeo.Exec.{Result, Exec, pure, raise, ◌>>=◌, ◌>>◌, ignore, on_ok, not_found}
use redgeo.Keyspace.{Keyspace, ensure_type, type_set, meta_of, trim_prefix}
use redgeo.Keys.{set_base, set_member}
use redgeo.Keys.Base32.{dec_seg}
use redgeo.Txn.{Entry}
use redgeo.Locks.{LockManager, lock_pair}
use redgeo.Scan
use redgeo.Scan.{Query, ResumeTable}

abbrev pub presence : Bytes
presence = 1 ∷ []

-- The loop of members; an entry whose last segment does not decode is skipped.
unfoldable pub decoded : Bytes → List Entry → List Bytes
unfolding trim_prefix
decoded base [] = []
decoded base (e ∷ entries) =
    let rest = decoded base entries in
    elim (dec_seg (trim_prefix e.key base)) [ none ↦ rest | some m ↦ m ∷ rest ]

-- a map[string]struct{} of the members
unfoldable pub as_set : List Bytes → List Bytes
as_set [] = []
as_set (m ∷ ms) = let rest = as_set ms in if contains rest m then rest else m ∷ rest

-- for m := range other { delete(base, m) }
unfoldable pub minus : List Bytes → List Bytes → List Bytes
minus base [] = base
minus base (m ∷ other) = minus (without m base) other

-- for m := range base { if m is not in other { delete(base, m) } }
unfoldable pub meet : List Bytes → List Bytes → List Bytes
meet [] other = []
meet (m ∷ base) other = let rest = meet base other in if contains other m then m ∷ rest else rest

-- for m := range other { union[m] = struct{}{} }
unfoldable pub join : List Bytes → List Bytes → List Bytes
join union [] = union
join union (m ∷ other) = if contains union m then join union other else join (m ∷ union) other

-- The item at an index below the length
unfoldable pub pick : List Bytes → ℕ → Bytes
pick mem i = get_or mem i []

module _ {S : Type 0} (ks : Keyspace S) (new_key : Bytes → Bytes) (db : ℤ) where
  unfoldable pub members : Bytes → Exec S (List Bytes)
  unfolding decoded
  members key = do
    entries ← ks.query (set_base db key) true
    pure (sort (decoded (set_base db key) entries))

  -- `if mem, err := r.members(ctx, key); err == nil && len(mem) == 0`
  unfoldable pub drop_if_empty : Bytes → Exec S (Unit {0})
  drop_if_empty key =
      on_ok (members key) λ mem. if length mem == 0 then ignore (ks.delete_meta key) else pure tt

  unfoldable pub add_loop : Bytes → List Bytes → ℕ → Exec S ℕ
  add_loop key [] added = pure added
  add_loop key (m ∷ elems) added = do
    had ← ks.has (set_member new_key db key m)
    ks.put (set_member new_key db key m) presence
    add_loop key elems (if had then added else added + 1)

  -- Add
  unfoldable pub add : Bytes → List Bytes → Exec S ℕ
  unfolding add_loop ensure_type
  add key elems = do
    ensure_type ks type_set key
    added ← add_loop key elems 0
    ks.write_meta key (meta_of type_set)
    pure added

  unfoldable pub delete_loop : Bytes → List Bytes → ℕ → Exec S ℕ
  delete_loop key [] removed = pure removed
  delete_loop key (m ∷ elems) removed = do
    had ← ks.has (set_member new_key db key m)
    if had
        then (do ks.del (set_member new_key db key m); delete_loop key elems (removed + 1))
        else delete_loop key elems removed

  -- Delete
  unfoldable pub delete : Bytes → List Bytes → Exec S ℕ
  unfolding delete_loop ensure_type drop_if_empty
  delete key elems = do
    ensure_type ks type_set key
    removed ← delete_loop key elems 0
    drop_if_empty key
    pure removed

  unfoldable pub exists : Bytes → Bytes → Exec S Bool
  unfolding ensure_type
  exists key m = do ensure_type ks type_set key; ks.has (set_member new_key db key m)

  unfoldable pub items : Bytes → Exec S (List Bytes)
  unfolding ensure_type
  items key = do ensure_type ks type_set key; members key

  unfoldable pub len : Bytes → Exec S ℕ
  unfolding items
  len key = do mem ← items key; pure (length mem)

  -- Random, where rand.Intn answers `draw` of the length
  unfoldable pub random : (ℕ → ℕ) → Bytes → Exec S Bytes
  unfolding items
  random draw key = do
    mem ← items key
    if length mem == 0 then raise not_found else pure (pick mem (draw (length mem)))

  -- Pop
  unfoldable pub pop : (ℕ → ℕ) → Bytes → Exec S Bytes
  unfolding items
  pop draw key = do
    mem ← items key
    if length mem == 0 then raise not_found else do
      ks.del (set_member new_key db key (pick mem (draw (length mem))))
      if length mem == 1 then ignore (ks.delete_meta key) else pure tt
      pure (pick mem (draw (length mem)))

  -- Move with the locks of both keys held
  unfoldable pub move_held : Bytes → Bytes → Bytes → Exec S (Unit {0})
  unfolding ensure_type drop_if_empty
  move_held src dest m = do
    ensure_type ks type_set src
    ensure_type ks type_set dest
    had ← ks.has (set_member new_key db src m)
    if had
        then (do
          ks.del (set_member new_key db src m)
          ks.put (set_member new_key db dest m) presence
          ks.write_meta dest (meta_of type_set)
          drop_if_empty src)
        else raise not_found

  -- Move, which takes both locks first; `none` waits for one of them
  unfoldable pub move : LockManager → Bytes → Bytes → Bytes → S → Option (Result (Unit {0}) × S)
  unfolding move_held
  move locks src dest m s = elim (lock_pair db src dest locks) [
    | none ↦ none
    | some held ↦ some (move_held src dest m s)
  ]

  unfoldable pub member_set : Bytes → Exec S (List Bytes)
  unfolding items as_set
  member_set key = do mem ← items key; pure (as_set mem)

  -- The loops of Diff, Inter and Union.
  unfoldable pub fold_sets :
      (List Bytes → List Bytes → List Bytes) → List Bytes → List Bytes → Exec S (List Bytes)
  unfolding member_set
  fold_sets f base [] = pure base
  fold_sets f base (k ∷ keys) = do other ← member_set k; fold_sets f (f base other) keys

  -- sortedValues of a fold that starts with the first set
  unfoldable pub from_first :
      (List Bytes → List Bytes → List Bytes) → List Bytes → Exec S (List Bytes)
  unfolding fold_sets
  from_first f [] = pure []
  from_first f (k ∷ keys) = do base ← member_set k; found ← fold_sets f base keys; pure (sort found)

  unfoldable pub diff : List Bytes → Exec S (List Bytes)
  unfolding from_first minus
  diff keys = from_first minus keys

  unfoldable pub inter : List Bytes → Exec S (List Bytes)
  unfolding from_first meet
  inter keys = from_first meet keys

  unfoldable pub union : List Bytes → Exec S (List Bytes)
  unfolding fold_sets join
  union keys = do found ← fold_sets join [] keys; pure (sort found)

  -- The old members are deleted, whatever errors that gives.
  unfoldable pub clear_loop : Bytes → List Bytes → Exec S (Unit {0})
  clear_loop key [] = pure tt
  clear_loop key (m ∷ mem) = do ignore (ks.del (set_member new_key db key m)); clear_loop key mem

  unfoldable pub clear_found : Bytes → Option ℕ → Exec S (Unit {0})
  clear_found dest none = pure tt
  clear_found dest (some t) =
      if t == type_set then on_ok (members dest) (clear_loop dest) else pure tt

  unfoldable pub clear_old : Bytes → Exec S (Unit {0})
  clear_old dest = on_ok (ks.probe dest) (clear_found dest)

  unfoldable pub put_loop : Bytes → List Bytes → Exec S (Unit {0})
  put_loop dest [] = pure tt
  put_loop dest (v ∷ vals) = do ks.put (set_member new_key db dest v) presence; put_loop dest vals

  -- storeResult
  unfoldable pub store_result : Bytes → List Bytes → Exec S ℕ
  unfolding clear_old put_loop
  store_result dest vals = do
    clear_old dest
    put_loop dest vals
    if ltb 0 (length vals)
        then ks.write_meta dest (meta_of type_set)
        else ignore (ks.delete_meta dest)
    pure (length vals)

  unfoldable pub diff_store : Bytes → List Bytes → Exec S ℕ
  unfolding diff store_result
  diff_store dest keys = do v ← diff keys; store_result dest v

  unfoldable pub inter_store : Bytes → List Bytes → Exec S ℕ
  unfolding inter store_result
  inter_store dest keys = do v ← inter keys; store_result dest v

  unfoldable pub union_store : Bytes → List Bytes → Exec S ℕ
  unfolding union store_result
  union_store dest keys = do v ← union keys; store_result dest v

  -- Scan: the page of the members, and the resume table of the cursors
  unfoldable pub scan : ℤ → Query → ℤ → ResumeTable → Exec S (List Bytes × (ℤ × ResumeTable))
  unfolding items
  scan now q cursor rt = do
    mem ← items q.key
    let page = Scan.scan_page now q cursor mem rt
    pure (map (pick mem) page.found, (page.cursor, page.table))
