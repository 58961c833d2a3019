-- ===== src/ListRepo.antt =====
-- crdtstore/rlist.go: lists as elements stored under the keys of their positions. An operation holds
-- the lock of its key, and so is one step; an element is its bytes (core.ToBytes), floats and the
-- counter of the store that makes keys unique are parameters.
pub mod Position
pub mod Bounds
pub mod Trim
pub mod Misplaced
pub mod Remove
use redgeo.Base.{
  Bytes, compare_bytes, bytes_eq, ascii, ℤ, ◌+ℤ◌, ◌-ℤ◌, ltz, lez, pos, negsuc, length, get_elem?,
  take, drop, ltb, ◌==◌, if◌then◌else◌, ℕ, ◌+◌, ◌-◌, Ordering, Bool, true, false, ◌&&◌, Option,
  none, some, List, [], ◌∷◌, ◌++◌, map, u64, i64,
}
use redgeo.Exec.{Exec, pure, raise, ◌>>=◌, ◌>>◌, ignore, not_found, continue}
use redgeo.Keyspace.{Keyspace, ensure_type, type_list, meta_of, trim_prefix}
use redgeo.Keys.{list_base, list_elem, hex}
use redgeo.Keys.Base32.{enc_seg}
use redgeo.ListRepo.Position.{Floats, encode_pos, decode_pos}
use redgeo.Txn.{Entry}

pub record ListEntry (F : Type 0) : Type 0 where
  pub pos_key : Bytes
  pub pos_of : F
  pub val : Bytes

-- -n in int64
unfoldable pub neg64 : ℤ → ℤ
neg64 n = i64 (u64 (pos 0 -ℤ n))

unfoldable pub abs_index : ℤ → ℕ → ℤ
abs_index idx n = if ltz idx (pos 0) then pos n +ℤ idx else idx

unfoldable pub range_bounds : ℤ → ℤ → ℕ → ℤ × ℤ
unfolding abs_index
range_bounds start stop n =
    let lo = abs_index start n in
    let hi = abs_index stop n in
    if n == 0
    then (pos 0, negsuc 0)
    else ((if ltz lo (pos 0) then pos 0 else lo), (if lez (pos n) hi then pos n -ℤ pos 1 else hi))

-- es[lo : hi+1], nothing where lo > hi
unfoldable pub slice {ℓ} : {A : Type ℓ} → ℤ → ℤ → List A → List A
slice (pos lo) (pos hi) es = if ltb hi lo then [] else take (hi + 1 - lo) (drop lo es)
slice _ _ es = []

-- The item at an index, where there is one.
unfoldable pub at_index {ℓ} : {A : Type ℓ} → ℤ → List A → Option A
at_index (pos i) es = get_elem? es i
at_index (negsuc i) es = none

module _ {F : Type 0} where
  -- sort.Slice by posKey; no two elements have one key
  unfoldable pub insert_entry : ListEntry F → List (ListEntry F) → List (ListEntry F)
  insert_entry e [] = e ∷ []
  insert_entry e (o ∷ es) =
      let rest = insert_entry e es in
      elim (compare_bytes e.pos_key o.pos_key) [ Ordering.gt ↦ o ∷ rest | _ ↦ e ∷ o ∷ es ]

  unfoldable pub sort_entries : List (ListEntry F) → List (ListEntry F)
  unfolding insert_entry
  sort_entries [] = []
  sort_entries (e ∷ es) = insert_entry e (sort_entries es)

  unfoldable pub last_entry : ListEntry F → List (ListEntry F) → ListEntry F
  last_entry e [] = e
  last_entry e (o ∷ es) = last_entry o es

  -- the end of the list that is popped
  unfoldable pub victim : Bool → ListEntry F → List (ListEntry F) → ListEntry F
  unfolding last_entry
  victim front e es = if front then e else last_entry e es

  unfoldable pub values : List (ListEntry F) → List Bytes
  values es = map (λ e. e.val) es

  unfoldable pub reversed : List (ListEntry F) → List (ListEntry F) → List (ListEntry F)
  reversed acc [] = acc
  reversed acc (e ∷ es) = reversed (e ∷ acc) es

module _ {F : Type 0} (fl : Floats F) where
  -- the loop of entries
  unfoldable pub decoded : Bytes → List Entry → List (ListEntry F)
  unfolding trim_prefix decode_pos
  decoded base [] = []
  decoded base (e ∷ raw) =
      let rest = decoded base raw in
      let key = trim_prefix e.key base in
      elim (decode_pos fl key) [
        | none ↦ rest
        | some p ↦ record { pos_key = key; pos_of = p; val = e.val } ∷ rest
      ]

  -- where push puts the new element
  unfoldable pub push_pos : Bool → List (ListEntry F) → F
  unfolding last_entry
  push_pos front [] = fl.zero_pos
  push_pos front (e ∷ es) =
      if front then fl.minus_one e.pos_of else fl.plus_one (last_entry e es).pos_of

  -- where insert puts it: by the element before the pivot, the pivot, and those after it
  unfoldable pub insert_pos : Bool → Option (ListEntry F) → ListEntry F → List (ListEntry F) → F
  insert_pos true none pivot after = fl.minus_one pivot.pos_of
  insert_pos true (some e) pivot after = fl.middle e.pos_of pivot.pos_of
  insert_pos false before pivot [] = fl.plus_one pivot.pos_of
  insert_pos false before pivot (e ∷ after) = fl.middle pivot.pos_of e.pos_of

  -- the search for the pivot, and the position
  unfoldable pub find_pos : Bool → Bytes → Option (ListEntry F) → List (ListEntry F) → Option F
  unfolding insert_pos
  find_pos before pivot prev [] = none
  find_pos before pivot prev (e ∷ es) =
      let later = find_pos before pivot (some e) es in
      if bytes_eq e.val pivot then some (insert_pos before prev e es) else later

module _ {F S : Type 0} (fl : Floats F) (ks : Keyspace S) (new_key : Bytes → Bytes)
    (replica : Bytes) (next_seq : Exec S ℕ) (db : ℤ) where
  unfoldable pub make_pos_key : F → Exec S Bytes
  unfolding encode_pos
  make_pos_key p = do
    seq ← next_seq
    pure (encode_pos fl p ++ ascii "-" ++ enc_seg replica ++ ascii "-" ++ hex 16 seq)

  unfoldable pub entries : Bytes → Exec S (List (ListEntry F))
  unfolding decoded sort_entries
  entries key = do
    raw ← ks.query (list_base db key) false
    pure (sort_entries (decoded fl (list_base db key) raw))

  -- ensureListType and entries
  unfoldable pub read_list : Bytes → Exec S (List (ListEntry F))
  read_list key = do ensure_type ks type_list key; entries key

  unfoldable pub push : Bytes → Bytes → Bool → Exec S ℕ
  unfolding read_list push_pos make_pos_key
  push key elem front = do
    es ← read_list key
    pk ← make_pos_key (push_pos fl front es)
    ks.put (list_elem new_key db key pk) elem
    ks.write_meta key (meta_of type_list)
    pure (length es + 1)

  unfoldable pub push_back : Bytes → Bytes → Exec S ℕ
  unfolding push
  push_back key elem = push key elem false

  unfoldable pub push_front : Bytes → Bytes → Exec S ℕ
  unfolding push
  push_front key elem = push key elem true

  unfoldable pub pop_entry : Bytes → Bool → List (ListEntry F) → Exec S Bytes
  unfolding victim
  pop_entry key front [] = raise not_found
  pop_entry key front (e ∷ es) = do
    ks.del (list_elem new_key db key (victim front e es).pos_key)
    if length es == 0 then ignore (ks.delete_meta key) else pure tt
    pure (victim front e es).val

  -- pop, PopFront and PopBack
  unfoldable pub pop : Bytes → Bool → Exec S Bytes
  unfolding read_list pop_entry
  pop key front = do es ← read_list key; pop_entry key front es

  unfoldable pub len : Bytes → Exec S ℕ
  unfolding read_list
  len key = do es ← read_list key; pure (length es)

  unfoldable pub get_at : Bytes → ℤ → Exec S Bytes
  unfolding read_list abs_index at_index
  get_at key idx = do
    es ← read_list key
    elim (at_index (abs_index idx (length es)) es) [ none ↦ raise not_found | some e ↦ pure e.val ]

  unfoldable pub set_at : Bytes → ℤ → Bytes → Exec S (Unit {0})
  unfolding read_list abs_index at_index
  set_at key idx elem = do
    es ← read_list key
    elim (at_index (abs_index idx (length es)) es) [
      | none ↦ raise not_found
      | some e ↦ ks.put (list_elem new_key db key e.pos_key) elem
    ]

  unfoldable pub range : Bytes → ℤ → ℤ → Exec S (List Bytes)
  unfolding read_list range_bounds slice values
  range key start stop = do
    es ← read_list key
    let bounds = range_bounds start stop (length es)
    pure (values (slice bounds.0 bounds.1 es))

  -- what insert does at the position; -1 where the pivot is not found
  unfoldable pub put_at : Bytes → Bytes → ℕ → Option F → Exec S ℤ
  unfolding make_pos_key
  put_at key elem n none = pure (negsuc 0)
  put_at key elem n (some p) = do
    pk ← make_pos_key p
    ks.put (list_elem new_key db key pk) elem
    pure (pos (n + 1))

  -- insert, InsertBefore and InsertAfter
  unfoldable pub insert_at : Bytes → Bytes → Bytes → Bool → Exec S ℤ
  unfolding read_list find_pos put_at
  insert_at key pivot elem before = do
    es ← read_list key
    put_at key elem (length es) (find_pos fl before pivot none es)

  -- The loop of deleteMatching over the elements in their order; it breaks at the limit.
  unfoldable pub delete_loop : Bytes → Bytes → ℤ → ℕ → List (ListEntry F) → Exec S ℕ
  delete_loop key elem limit removed [] = pure removed
  delete_loop key elem limit removed (e ∷ es) =
      let next = delete_loop key elem limit (removed + 1) es in
      let skip = delete_loop key elem limit removed es in
      if bytes_eq e.val elem
      then (do
        ks.del (list_elem new_key db key e.pos_key)
        if ltz (pos 0) limit && lez limit (pos (removed + 1)) then pure (removed + 1) else next)
      else skip

  -- where everything has been removed
  unfoldable pub drop_if_all : Bytes → ℕ → ℕ → Exec S (Unit {0})
  drop_if_all key removed n = if removed == n then ignore (ks.delete_meta key) else pure tt

  unfoldable pub delete_matching : Bytes → Bytes → ℤ → Exec S ℕ
  unfolding read_list delete_loop drop_if_all reversed neg64
  delete_matching key elem count = do
    es ← read_list key
    removed ←
        delete_loop key elem (if ltz count (pos 0) then neg64 count else count) 0
          (if ltz count (pos 0) then reversed [] es else es)
    drop_if_all key removed (length es)
    pure removed

  unfoldable pub delete_all : Bytes → Bytes → Exec S ℕ
  unfolding delete_matching
  delete_all key elem = delete_matching key elem (pos 0)

  unfoldable pub delete_front : Bytes → Bytes → ℤ → Exec S ℕ
  unfolding delete_matching
  delete_front key elem count = delete_matching key elem count

  unfoldable pub delete_back : Bytes → Bytes → ℤ → Exec S ℕ
  unfolding delete_matching neg64
  delete_back key elem count = delete_matching key elem (neg64 count)

  -- The loop of Trim, from index `i`.
  unfoldable pub trim_loop : Bytes → ℤ → ℤ → ℕ → ℕ → List (ListEntry F) → Exec S ℕ
  trim_loop key lo hi i removed [] = pure removed
  trim_loop key lo hi i removed (e ∷ es) =
      let next = trim_loop key lo hi (i + 1) (removed + 1) es in
      let skip = trim_loop key lo hi (i + 1) removed es in
      if lez lo (pos i) && lez (pos i) hi
      then skip
      else (do ks.del (list_elem new_key db key e.pos_key); next)

  unfoldable pub trim : Bytes → ℤ → ℤ → Exec S ℕ
  unfolding read_list range_bounds trim_loop drop_if_all
  trim key start stop = do
    es ← read_list key
    let bounds = range_bounds start stop (length es)
    removed ← trim_loop key bounds.0 bounds.1 0 0 es
    drop_if_all key removed (length es)
    pure removed

  unfoldable pub pop_back_push_front : Bytes → Bytes → Exec S Bytes
  unfolding pop push
  pop_back_push_front src dest = do v ← pop src false; push_front dest v; pure v
