-- ===== src/ListRepo/Trim.antt =====
-- crdtstore/rlist.go: Trim deletes what Range does not list.
use redgeo.Base.{
  Bytes, compare_bytes, bytes_eq, ℤ, pos_part, lez, pos, length, All, ◌==◌, if◌then◌else◌,
  Bool-cases, Option-cases, ℕ, ◌+◌, Ordering, ◌≡◌, refl, sym, ap, ◌∙◌, ◌⊎◌, inl, inr, Bool, false,
  ◌&&◌, ◌||◌, Option, none, some, List, [], ◌∷◌, arith,
}
use redgeo.Exec.{Exec, ok}
use redgeo.Keyspace.{Keyspace, Works, ensure_type, type_list, is_meta}
use redgeo.Keys.{list_base, list_elem}
use redgeo.Keys.Paths.{IsName}
use Prim.Native.Nat.Ordering.{lt, eq, gt}
use redgeo.ListRepo.{
  ListEntry, range_bounds, slice, values, sort_entries, insert_entry, decoded, entries, read_list,
  range, trim_loop, trim, drop_if_all,
}
use redgeo.ListRepo.Bounds.{kept, trimmed, kept-slice, lower_bound, index_in, range_bounds-parts}
use redgeo.Keyspace.{trim_prefix}
use redgeo.Txn.{Entry}
use redgeo.ListRepo.Position.{Floats, decode_pos}

Ordering-cases : (o : Ordering) → (o ≡ gt) ⊎ ((o ≡ lt) ⊎ (o ≡ eq))
Ordering-cases gt = inl refl
Ordering-cases lt = inr (inl refl)
Ordering-cases eq = inr (inr refl)

module _ {F S : Type 0} (fl : Floats F) {ks : Keyspace S} {view : S → Bytes → Option Bytes}
    {kind : S → Bytes → Option ℕ} (works : Works ks view kind) (new_key : Bytes → Bytes)
    (replica : Bytes) (next_seq : Exec S ℕ) (db : ℤ) where
  -- The elements of a list, in their order.
  unfoldable pub list_of : S → Bytes → List (ListEntry F)
  list_of s key =
      sort_entries (decoded fl (list_base db key) (works.listed (list_base db key) false s))

  -- A key that holds a list or nothing.
  abbrev pub IsListKey : S → Bytes → Type 0
  IsListKey s key = (kind s key ≡ none) ⊎ (kind s key ≡ some type_list)

  list_type : (key : Bytes) (s : S) → IsListKey s key → ensure_type ks type_list key s ≡ (ok tt, s)
  unfolding ensure_type
  list_type key s (inl free) = rw (works.probed key s, free) refl
  list_type key s (inr held) = rw (works.probed key s, held) refl

  pub read_list_lem :
      (key : Bytes) (s : S)
      → IsListKey s key
      → read_list fl ks new_key replica next_seq db key s ≡ (ok (list_of s key), s)
  unfolding read_list entries list_of
  read_list_lem key s h = rw (list_type key s h, works.query_ok (list_base db key) false s) refl

  -- Whether a stored key is that of one of some elements.
  unfoldable pub is_elem : Bytes → List (ListEntry F) → Bytes → Bool
  is_elem key [] j = false
  is_elem key (e ∷ es) j = bytes_eq (list_elem new_key db key e.pos_key) j || is_elem key es j

  trim_loop_lem :
      (key : Bytes) (lo hi : ℤ) (i n : ℕ) (es : List (ListEntry F)) (s : S)
      → ((trim_loop fl ks new_key replica next_seq db key lo hi i n es s).0
          ≡ ok (n + length (trimmed lo hi i es)))
        × ((j : Bytes)
            → view (trim_loop fl ks new_key replica next_seq db key lo hi i n es s).1 j
              ≡ (if is_elem key (trimmed lo hi i es) j then none else view s j))
  unfolding trim_loop trimmed is_elem
  trim_loop_lem key lo hi i n [] s = (ap ok (omega arith), λ j. refl)
  trim_loop_lem key lo hi i n (e ∷ es) s = elim (Bool-cases (lez lo (pos i) && lez (pos i) hi)) [
    | inl inside ↦ rw inside (trim_loop_lem key lo hi (i + 1) n es s)
    | inr outside ↦
        let k = list_elem new_key db key e.pos_key in
        let (count, after) = trim_loop_lem key lo hi (i + 1) (n + 1) es (ks.del k s).1 in
        rw outside (
          rw (works.del_ok k s)
            (count ∙ ap ok (omega arith), λ j. after j ∙ rw (works.del_view k s j) (ground arith)))
  ]

  pub drop_if_all_lem :
      (key : Bytes) (removed n : ℕ) (s : S)
      → IsName key
      → ((drop_if_all fl ks new_key replica next_seq db key removed n s).0 ≡ ok tt)
        × ((j : Bytes)
            → is_meta j ≡ false
            → view (drop_if_all fl ks new_key replica next_seq db key removed n s).1 j ≡ view s j)
  unfolding drop_if_all
  drop_if_all_lem key removed n s h = elim (Bool-cases (removed == n)) [
    | inl gone ↦ rw gone (refl, λ j apart. works.delete_meta_view key s j h apart)
    | inr left ↦ rw left (refl, λ j apart. refl)
  ]

  range_kept :
      (start stop : ℤ) (es : List (ListEntry F))
      → slice (range_bounds start stop (length es)).0 (range_bounds start stop (length es)).1 es
        ≡ kept (range_bounds start stop (length es)).0 (range_bounds start stop (length es)).1 0 es
  range_kept start stop es =
      let b = range_bounds start stop (length es) in
      ap (λ lo. slice lo b.1 es) (lower_bound start stop (length es))
      ∙ (sym (kept-slice (pos_part b.0) b.1 es)
          ∙ ap (λ lo. kept lo b.1 0 es) (sym (lower_bound start stop (length es))))

  -- an element that is stored under the key of its position
  abbrev pub IsStored : S → Bytes → ListEntry F → Type 0
  IsStored s key e = view s (list_elem new_key db key e.pos_key) ≡ some e.val

  -- an entry under a list's prefix whose key is that of its position
  abbrev pub IsListed : S → Bytes → Entry → Type 0
  IsListed s key e =
      (list_elem new_key db key (trim_prefix e.key (list_base db key)) ≡ e.key)
      × (view s e.key ≡ some e.val)

  decoded-IsStored :
      (key : Bytes) (s : S) (raw : List Entry)
      → All (IsListed s key) raw
      → All (IsStored s key) (decoded fl (list_base db key) raw)
  unfolding decoded
  decoded-IsStored key s [] h = tt
  decoded-IsStored key s (e ∷ raw) h =
      let rest = decoded-IsStored key s raw h.1 in
      elim (Option-cases (decode_pos fl (trim_prefix e.key (list_base db key)))) [
        | inl lost ↦ rw (lost, All) rest
        | inr (p, found) ↦ rw (found, All) (ap (view s) h.0.0 ∙ h.0.1, rest)
      ]

  insert_entry-All :
      (P : ListEntry F → Type 0) (e : ListEntry F) (es : List (ListEntry F))
      → P e
      → All P es
      → All P (insert_entry e es)
  unfolding insert_entry
  insert_entry-All P e [] h hs = (h, tt)
  insert_entry-All P e (o ∷ es) h hs = elim (Ordering-cases (compare_bytes e.pos_key o.pos_key)) [
    | inl after ↦ rw (after, All) (hs.0, insert_entry-All P e es h hs.1)
    | inr (inl before) ↦ rw (before, All) (h, hs)
    | inr (inr same) ↦ rw (same, All) (h, hs)
  ]

  sort_entries-All :
      (P : ListEntry F → Type 0) (es : List (ListEntry F)) → All P es → All P (sort_entries es)
  unfolding sort_entries
  sort_entries-All P [] h = tt
  sort_entries-All P (e ∷ es) h =
      insert_entry-All P e (sort_entries es) h.0 (sort_entries-All P es h.1)

  pub list_of-IsStored :
      (key : Bytes) (s : S)
      → All (IsListed s key) (works.listed (list_base db key) false s)
      → All (IsStored s key) (list_of s key)
  unfolding list_of
  list_of-IsStored key s stored =
      let raw = works.listed (list_base db key) false s in
      sort_entries-All (IsStored s key) (decoded fl (list_base db key) raw)
        (decoded-IsStored key s raw stored)

  -- LTRIM deletes the elements that LRANGE with the same bounds does not list, and no other: LRANGE
  -- lists the elements with an index from the start to the stop, a negative one of which counts from
  -- the end, LTRIM counts the others, and of the stored data but metadata just the keys are gone under
  -- which the others were stored. The datastore works, the key is not empty and holds a list or
  -- nothing, and every entry under its prefix is stored under the key of its position.
  pub trim_keeps_range :
      (key : Bytes) (start stop : ℤ) (s : S)
      → IsName key
      → IsListKey s key
      → All (IsListed s key) (works.listed (list_base db key) false s)
      → (lo hi : ℤ) × (index_in (length (list_of s key)) start ≡ lo)
        × (index_in (length (list_of s key)) stop ≡ hi)
        × (range fl ks new_key replica next_seq db key start stop s
            ≡ (ok (values (kept lo hi 0 (list_of s key))), s))
        × ((trim fl ks new_key replica next_seq db key start stop s).0
            ≡ ok (length (trimmed lo hi 0 (list_of s key))))
        × All (IsStored s key) (list_of s key)
        × ((j : Bytes)
            → is_meta j ≡ false
            → view (trim fl ks new_key replica next_seq db key start stop s).1 j
              ≡ (if is_elem key (trimmed lo hi 0 (list_of s key)) j then none else view s j))
  unfolding range trim
  trim_keeps_range key start stop s h held stored =
      let es = list_of s key in
      let b = range_bounds start stop (length es) in
      let (same_kept, same_rest) = range_bounds-parts start stop es in
      let (count, after) = trim_loop_lem key b.0 b.1 0 0 es s in
      let left =
        drop_if_all_lem key (0 + length (trimmed b.0 b.1 0 es)) (length es)
          (trim_loop fl ks new_key replica next_seq db key b.0 b.1 0 0 es s).1 h in
      (
        index_in (length es) start,
        index_in (length es) stop,
        refl,
        refl,
        rw (read_list_lem key s held)
            (ap (λ ys. (ok (values ys), s)) (range_kept start stop es ∙ same_kept)),
        rw (read_list_lem key s held, count) rw (left.0)
            (ap ok (omega (arith, ap length same_rest))),
        list_of-IsStored key s stored,
        λ j apart.
            rw (read_list_lem key s held, count) rw (left.0)
              (left.1 j apart
                ∙ (after j ∙ ap (λ ys. if is_elem key ys j then none else view s j) same_rest)),
      )
