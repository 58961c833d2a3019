-- ===== src/ListRepo/Remove.antt =====
-- crdtstore/rlist.go: which elements deleteMatching deletes.
use redgeo.Base.{
  Bytes, bytes_eq, ℤ, pos_part, neg_part, ◌-ℤ◌, ltz, lez, pos, negsuc, length, take, All, leb,
  if◌then◌else◌, Bool-cases, ℕ, zero, suc, ◌+◌, ◌-◌, ◌^◌, ◌≤◌, ◌<◌, ◌≡◌, refl, sym, ap, ◌∙◌, inl,
  inr, true, false, ◌&&◌, Option, none, List, [], ◌∷◌, ◌++◌, arith,
}
use mathlib.Core.List.{append-nil, append_assoc}
use mathlib.Core.Path.{subst}
use redgeo.Exec.{Exec, Result, ok}
use redgeo.Keyspace.{Keyspace, Works, is_meta}
use redgeo.Keys.{list_elem, list_base}
use redgeo.Keys.Paths.{IsName}
use redgeo.ListRepo.{ListEntry, delete_loop, delete_matching, neg64, reversed}
use redgeo.ListRepo.Position.{Floats}
use redgeo.ListRepo.Trim.{
  list_of, IsListKey, IsListed, IsStored, is_elem, list_of-IsStored, read_list_lem, drop_if_all_lem,
}

-- the elements with the value `v`
unfoldable pub matching : {F : Type 0} → Bytes → List (ListEntry F) → List (ListEntry F)
matching v [] = []
matching v (e ∷ es) = let rest = matching v es in if bytes_eq e.val v then e ∷ rest else rest

-- a list from its end
unfoldable pub from_tail {ℓ} : {A : Type ℓ} → List A → List A
from_tail [] = []
from_tail (e ∷ es) = from_tail es ++ e ∷ []

-- the elements in the order in which a count of this sign looks at them
unfoldable pub directed {ℓ} : {A : Type ℓ} → ℤ → List A → List A
unfolding from_tail
directed (pos n) es = es
directed (negsuc n) es = from_tail es

-- no limit is 0
unfoldable pub limited {ℓ} : {A : Type ℓ} → ℕ → List A → List A
limited zero es = es
limited (suc l) es = take (suc l) es

reversed-from_tail :
    {F : Type 0} (acc es : List (ListEntry F)) → reversed acc es ≡ from_tail es ++ acc
unfolding reversed from_tail
reversed-from_tail acc [] = refl
reversed-from_tail acc (e ∷ es) =
    reversed-from_tail (e ∷ acc) es ∙ sym (append_assoc (from_tail es) (e ∷ []) acc)

directed-lem :
    {F : Type 0} (count : ℤ) (es : List (ListEntry F))
    → (if ltz count (pos 0) then reversed [] es else es) ≡ directed count es
unfolding directed
directed-lem (pos n) es = ground arith
directed-lem (negsuc n) es = ground (arith, reversed-from_tail [] es ∙ append-nil (from_tail es))

module _ {F S : Type 0} (fl : Floats F) {ks : Keyspace S} {view : S → Bytes → Option Bytes}
    {kind : S → Bytes → Option ℕ} (works : Works ks view kind) (new_key : Bytes → Bytes)
    (replica : Bytes) (next_seq : Exec S ℕ) (db : ℤ) where
  -- what a run has deleted: these elements, of which it has added the number to `n`
  abbrev Deleted : Bytes → S → ℕ → List (ListEntry F) → Result ℕ × S → Type 0
  Deleted key s n es r =
      (r.0 ≡ ok (n + length es))
      × ((j : Bytes)
          → view r.1 j
            ≡ (if is_elem fl works new_key replica next_seq db key es j then none else view s j))

  Deleted-more :
      (key : Bytes) (s : S) (n : ℕ) (e : ListEntry F) (es : List (ListEntry F)) (r : Result ℕ × S)
      → Deleted key (ks.del (list_elem new_key db key e.pos_key) s).1 (n + 1) es r
      → Deleted key s n (e ∷ es) r
  unfolding is_elem
  Deleted-more key s n e es r (count, after) = (
    count ∙ ap ok (omega arith),
    λ j. after j ∙ rw (works.del_view (list_elem new_key db key e.pos_key) s j) (ground arith),
  )

  delete_loop_all :
      (key v : Bytes) (n : ℕ) (es : List (ListEntry F)) (s : S)
      → Deleted key s n
          (matching v es)
          (delete_loop fl ks new_key replica next_seq db key v (pos 0) n es s)
  unfolding delete_loop matching is_elem
  delete_loop_all key v n [] s = (ap ok (omega arith), λ j. refl)
  delete_loop_all key v n (e ∷ es) s = elim (Bool-cases (bytes_eq e.val v)) [
    | inl same ↦
        let k = list_elem new_key db key e.pos_key in
        let s' = (ks.del k s).1 in
        rw same (
          rw (works.del_ok k s) (
            Deleted-more key s n e (matching v es)
              (delete_loop fl ks new_key replica next_seq db key v (pos 0) (n + 1) es s')
              (delete_loop_all key v (n + 1) es s')))
    | inr other ↦ rw other (delete_loop_all key v n es s)
  ]

  delete_loop_some :
      (key v : Bytes) (l n : ℕ) (es : List (ListEntry F)) (s : S)
      → n ≤ l
      → Deleted key s n
          (take (suc l - n) (matching v es))
          (delete_loop fl ks new_key replica next_seq db key v (pos (suc l)) n es s)
  unfolding delete_loop matching is_elem
  delete_loop_some key v l n [] s room =
      let one_more : suc l - n ≡ suc (l - n) = omega (arith, room) in
      rw one_more (ap ok (omega arith), λ j. refl)
  delete_loop_some key v l n (e ∷ es) s room = elim (Bool-cases (bytes_eq e.val v)) [
    | inl same ↦
        let k = list_elem new_key db key e.pos_key in
        let s' = (ks.del k s).1 in
        let one_more : suc l - n ≡ suc (suc l - (n + 1)) = omega (arith, room) in
        rw (same, one_more)
          (rw (works.del_ok k s) (elim (Bool-cases (leb (suc l) (n + 1))) [
            | inl full ↦
                let reached : ltz (pos 0) (pos (suc l)) && lez (pos (suc l)) (pos (n + 1)) ≡ true =
                  ground arith in
                let no_more : suc l - (n + 1) ≡ 0 = ground arith in
                rw (reached, no_more)
                  (Deleted-more key s n e [] (ok (n + 1), s') (ap ok (omega arith), λ j. refl))
            | inr left ↦
                let more : ltz (pos 0) (pos (suc l)) && lez (pos (suc l)) (pos (n + 1)) ≡ false =
                  ground arith in
                rw more (
                  Deleted-more key s n e (take (suc l - (n + 1)) (matching v es))
                    (delete_loop fl ks new_key replica next_seq db key v (pos (suc l)) (n + 1) es
                      s')
                    (delete_loop_some key v l (n + 1) es s' (ground arith)))
          ]))
    | inr other ↦ rw other (delete_loop_some key v l n es s room)
  ]

  delete_loop-limited :
      (key v : Bytes) (l : ℕ) (es : List (ListEntry F)) (s : S)
      → Deleted key s 0
          (limited l (matching v es))
          (delete_loop fl ks new_key replica next_seq db key v (pos l) 0 es s)
  unfolding limited
  delete_loop-limited key v zero es s = delete_loop_all key v 0 es s
  delete_loop-limited key v (suc l) es s =
      let whole : suc l - 0 ≡ suc l = omega arith in
      subst
        (λ k.
          Deleted key s 0 (take k (matching v es))
            (delete_loop fl ks new_key replica next_seq db key v (pos (suc l)) 0 es s))
        whole (delete_loop_some key v l 0 es s (omega arith))

  abbrev magnitude : ℤ → ℕ
  magnitude n = pos_part n + neg_part n

  limit_of :
      (count : ℤ)
      → magnitude count < 2 ^ 63
      → (if ltz count (pos 0) then neg64 count else count) ≡ pos (magnitude count)
  unfolding neg64 ◌-ℤ◌
  limit_of (pos n) h = ground arith
  limit_of (negsuc n) h = ground arith

  -- LREM of a value deletes elements that are equal to it, and no other: for a count of zero all of
  -- them, and otherwise as many as the count says without its sign, the first ones from the front for
  -- a positive count and from the end for a negative one. It answers their number, and of the stored
  -- data but metadata just the keys are gone under which they were stored. The datastore works, the
  -- key is not empty and holds a list or nothing, every entry under its prefix is stored under the key
  -- of its position, and the count is not the least int64.
  pub delete_matching-refines :
      (key v : Bytes) (count : ℤ) (s : S)
      → IsName key
      → IsListKey fl works new_key replica next_seq db s key
      → All
          (IsListed fl works new_key replica next_seq db s key)
          (works.listed (list_base db key) false s)
      → pos_part count + neg_part count < 2 ^ 63
      → (es : List (ListEntry F)) × (es
          ≡ limited
              (pos_part count + neg_part count)
              (matching v (directed count (list_of fl works new_key replica next_seq db s key))))
        × ((delete_matching fl ks new_key replica next_seq db key v count s).0 ≡ ok (length es))
        × All
            (IsStored fl works new_key replica next_seq db s key)
            (list_of fl works new_key replica next_seq db s key)
        × ((j : Bytes)
            → is_meta j ≡ false
            → view (delete_matching fl ks new_key replica next_seq db key v count s).1 j
              ≡ (if is_elem fl works new_key replica next_seq db key es j then none else view s j))
  unfolding delete_matching
  delete_matching-refines key v count s h held stored small =
      let all = list_of fl works new_key replica next_seq db s key in
      let l = magnitude count in
      let es = limited l (matching v (directed count all)) in
      let (got, after) = delete_loop-limited key v l (directed count all) s in
      let s' =
        (delete_loop fl ks new_key replica next_seq db key v (pos l) 0 (directed count all) s).1 in
      let left =
        drop_if_all_lem fl works new_key replica next_seq db key (0 + length es) (length all) s'
          h in
      let reads = read_list_lem fl works new_key replica next_seq db key s held in
      (
        es,
        refl,
        rw (reads, limit_of count small, directed-lem count all, got)
            (rw (left.0) (ap ok (omega arith))),
        list_of-IsStored fl works new_key replica next_seq db key s stored,
        λ j apart.
            rw (reads, limit_of count small, directed-lem count all, got)
              (rw (left.0) (left.1 j apart ∙ after j)),
      )
