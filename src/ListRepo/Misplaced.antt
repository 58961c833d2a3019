-- ===== src/ListRepo/Misplaced.antt =====
-- crdtstore/rlist.go: insert where two positions have no float between them.
use redgeo.Base.{
  Bytes, compare_bytes, bytes_eq, ascii, ℤ, pos, length, All, ℕ, ◌+◌, ◌^◌, ◌<◌, ◌≡◌, refl, sym, ap,
  ◌∙◌, true, false, Option, none, some, List, [], ◌∷◌, ◌++◌, arith,
}
use redgeo.Exec.{Exec, ok}
use redgeo.Keyspace.{Keyspace, Works}
use redgeo.Keys.{hex, list_elem}
use redgeo.Keys.Base32.{enc_seg}
use Prim.Native.Nat.Ordering.{lt}
use redgeo.ListRepo.{ListEntry, insert_pos, find_pos, insert_at, put_at, make_pos_key, read_list}
use redgeo.ListRepo.Position.{Floats, encode_pos, compare_bytes-hex}

compare_bytes-prefix : (p x y : Bytes) → compare_bytes (p ++ x) (p ++ y) ≡ compare_bytes x y
unfolding compare_bytes
compare_bytes-prefix [] x y = refl
compare_bytes-prefix (c ∷ p) x y = ground (arith, compare_bytes-prefix p x y)

-- an element without the pivot's value
abbrev pub Other : {F : Type 0} → Bytes → ListEntry F → Type 0
Other pivot e = bytes_eq e.val pivot ≡ false

module _ {F S : Type 0} (fl : Floats F) {ks : Keyspace S} {view : S → Bytes → Option Bytes}
    {kind : S → Bytes → Option ℕ} (works : Works ks view kind) (new_key : Bytes → Bytes)
    (replica : Bytes) (next_seq : Exec S ℕ) (db : ℤ) where
  find_pos-after :
      (pivot : Bytes) (seen : Option (ListEntry F)) (front : List (ListEntry F))
      (prev piv : ListEntry F) (after : List (ListEntry F))
      → All (Other pivot) front
      → Other pivot prev
      → bytes_eq piv.val pivot ≡ true
      → find_pos fl true pivot seen (front ++ prev ∷ piv ∷ after)
        ≡ some (fl.middle prev.pos_of piv.pos_of)
  unfolding find_pos insert_pos
  find_pos-after pivot seen [] prev piv after none_of other same = rw (other, same) refl
  find_pos-after pivot seen (e ∷ front) prev piv after none_of other same =
      rw (none_of.0) (find_pos-after pivot (some e) front prev piv after none_of.1 other same)

  made_key :
      (p : F) (s : S) (seq : ℕ)
      → (next_seq s).0 ≡ ok seq
      → make_pos_key fl ks new_key replica next_seq db p s ≡ (
        ok (encode_pos fl p ++ ascii "-" ++ enc_seg replica ++ ascii "-" ++ hex 16 seq),
        (next_seq s).1,
      )
  unfolding make_pos_key
  made_key p s seq h = rw h refl

  inserted :
      (key pivot elem pk : Bytes) (es : List (ListEntry F)) (p : F) (s s' : S)
      → read_list fl ks new_key replica next_seq db key s ≡ (ok es, s)
      → find_pos fl true pivot none es ≡ some p
      → make_pos_key fl ks new_key replica next_seq db p s ≡ (ok pk, s')
      → insert_at fl ks new_key replica next_seq db key pivot elem true s
        ≡ (ok (pos (length es + 1)), (ks.put (list_elem new_key db key pk) elem s').1)
  unfolding insert_at put_at
  inserted key pivot elem pk es p s s' reads found made = rw reads (
      ap (λ o. put_at fl ks new_key replica next_seq db key elem (length es) o s) found
      ∙ rw made (rw (works.put_ok (list_elem new_key db key pk) elem s') refl))

  -- LINSERT BEFORE a pivot stores the new element behind it where the middle of the pivot's position
  -- and of the one before it rounds to the pivot's, and this replica made the pivot's key earlier with
  -- a lower sequence number: it answers the list's new length, and puts the element under a key whose
  -- position compares greater than the pivot's. The datastore works, the list reads as some elements
  -- of other values, the one before the pivot, the pivot, and the rest, and sequence numbers are
  -- below 2 ^ 64.
  pub insert_misplaced :
      (key pivot elem : Bytes) (front : List (ListEntry F)) (prev piv : ListEntry F)
      (after : List (ListEntry F)) (old new : ℕ) (s earlier : S)
      → read_list fl ks new_key replica next_seq db key s ≡ (ok (front ++ prev ∷ piv ∷ after), s)
      → All (Other pivot) front
      → Other pivot prev
      → bytes_eq piv.val pivot ≡ true
      → fl.middle prev.pos_of piv.pos_of ≡ piv.pos_of
      → (make_pos_key fl ks new_key replica next_seq db piv.pos_of earlier).0 ≡ ok piv.pos_key
      → (next_seq earlier).0 ≡ ok old
      → (next_seq s).0 ≡ ok new
      → old < new
      → new < 2 ^ 64
      → (pk : Bytes) × (insert_at fl ks new_key replica next_seq db key pivot elem true s ≡ (
        ok (pos (length (front ++ prev ∷ piv ∷ after) + 1)),
        (ks.put (list_elem new_key db key pk) elem (next_seq s).1).1,
      ))
        × (compare_bytes piv.pos_key pk ≡ lt)
  insert_misplaced key pivot elem front prev piv after old new s earlier reads none_of other same
        rounds made first second later fits =
      let start = encode_pos fl piv.pos_of ++ ascii "-" ++ enc_seg replica ++ ascii "-" in
      let pk =
        encode_pos fl piv.pos_of ++ ascii "-" ++ enc_seg replica ++ ascii "-" ++ hex 16 new in
      let s' = (next_seq s).1 in
      let was : ok piv.pos_key
          ≡ ok (
              encode_pos fl piv.pos_of ++ ascii "-" ++ enc_seg replica ++ ascii "-" ++ hex 16 old) =
        sym made ∙ ap (λ r. r.0) (made_key piv.pos_of earlier old first) in
      let made_as : piv.pos_key
          ≡ encode_pos fl piv.pos_of ++ ascii "-" ++ enc_seg replica ++ ascii "-" ++ hex 16 old =
        cc was in
      (
        pk,
        inserted key pivot elem pk (front ++ prev ∷ piv ∷ after) piv.pos_of s s' reads
            (find_pos-after pivot none front prev piv after none_of other same ∙ ap some rounds)
            (made_key piv.pos_of s new second),
        rw made_as (
            compare_bytes-prefix start (hex 16 old) (hex 16 new)
            ∙ (compare_bytes-hex 16 old new (omega arith) (omega arith) ∙ ground arith)),
      )
