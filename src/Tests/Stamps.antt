-- ===== src/Tests/Stamps.antt =====
-- hlc and the slots, metas and watermarks of crdtstore.
use redgeo.Base.{
  Bytes, compare_bytes, bytes_eq, bytes_eq_iff, ascii, ◌≤ℤ◌, pos, negsuc, All, lookup, Distinct,
  Bool-cases, ◌≡◌, refl, ◌≢◌, inl, inr, true, some, [], ◌∷◌, arith, bytes_key,
}
use mathlib.Core.Path.{subst}
use Prim.Native.Nat.Ordering.{lt}
use redgeo.Hlc.{Stamp, compare_stamp, less, now, observe, encode}
use redgeo.Hlc.Codec.{InRange, compare_bytes-encode}
use redgeo.Hlc.Ticks.{now-less, observe-less, now_wraps}
use redgeo.Slot.{Slot, Cands, winner, live_value, tag_deleted}
use redgeo.Slot.Winner.{winner_any_order}
use redgeo.Meta.{Meta}
use redgeo.Watermark
use redgeo.Watermark.{Watermark, new_watermark, safe_cut}
use redgeo.Watermark.Cut.{HasPassed, IsKnown, safe_cut_passed}

abbrev early : Stamp
early = record { wall_ms = pos 1000; logical = 0 }

abbrev late : Stamp
late = record { wall_ms = pos 1000; logical = 5 }

abbrev before_epoch : Stamp
before_epoch = record { wall_ms = negsuc 4; logical = 0 }

early-InRange : InRange early
early-InRange = record { wall = omega arith; counter = omega arith }

late-InRange : InRange late
late-InRange = record { wall = omega arith; counter = omega arith }

before_epoch-InRange : InRange before_epoch
before_epoch-InRange = record { wall = omega arith; counter = omega arith }

compare_bytes-encode_example : compare_bytes (encode early) (encode late) ≡ compare_stamp early late
compare_bytes-encode_example =
    compare_bytes-encode early late early-InRange late-InRange (omega arith) (omega arith)

observe-less_example :
    (less late (observe (pos 900) early (record { last = late })).last ≡ true)
    × (less early (observe (pos 900) early (record { last = late })).last ≡ true)
observe-less_example =
    observe-less (pos 900) early (record { last = late }) (omega arith) (omega arith)

now-less_example :
    (less late (now (pos 900) (record { last = late })).last ≡ true)
    × (pos 900 ≤ℤ (now (pos 900) (record { last = late })).last.wall_ms)
now-less_example = now-less (pos 900) (record { last = late }) (omega arith)

abbrev last_tick : Stamp
last_tick = record { wall_ms = pos 1000; logical = 4294967295 }

now_wraps_example : less (now (pos 1000) (record { last = last_tick })).last last_tick ≡ true
now_wraps_example = now_wraps (pos 1000) (record { last = last_tick }) refl (omega arith)

abbrev slot_a : Slot
slot_a = record { stamp = early; tag = 0; value = ascii "x" }

abbrev slot_b : Slot
slot_b = record { stamp = early; tag = 0; value = ascii "y" }

abbrev newest : Slot
newest = record { stamp = late; tag = tag_deleted; value = [] }

abbrev one_way : Cands
one_way = (ascii "a", slot_a) ∷ (ascii "b", slot_b) ∷ []

abbrev other_way : Cands
other_way = (ascii "b", slot_b) ∷ (ascii "a", slot_a) ∷ []

one_way-Distinct : Distinct one_way
unfolding lookup bytes_eq compare_bytes
one_way-Distinct = (refl, (refl, tt))

other_way-Distinct : Distinct other_way
unfolding lookup bytes_eq compare_bytes
other_way-Distinct = (refl, (refl, tt))

same_at : lookup (ascii "a") one_way ≡ lookup (ascii "a") other_way
unfolding lookup bytes_eq compare_bytes
same_at = refl

same_slots : (r : Bytes) → lookup r one_way ≡ lookup r other_way
unfolding lookup
same_slots r = elim (Bool-cases (bytes_eq (ascii "a") r)) [
  | inl is ↦
      subst (λ q. lookup q one_way ≡ lookup q other_way) ((bytes_eq_iff (ascii "a") r).0 is) same_at
  | inr other ↦ ground arith
]

winner_any_order_example :
    (winner one_way ≡ winner other_way) × (live_value one_way ≡ live_value other_way)
winner_any_order_example =
    winner_any_order one_way other_way one_way-Distinct other_way-Distinct same_slots

older_stamp : (q : Bytes) (t : Slot) → lookup q one_way ≡ some t → t.stamp ≡ early
unfolding lookup
older_stamp q t found = ground arith

older : (q : Bytes) (t : Slot) → lookup q one_way ≡ some t → compare_stamp t.stamp late ≡ lt
unfolding compare_stamp
older q t found = rw (older_stamp q t found) refl

abbrev meta : Meta
meta = record { type_id = 1; flavor = 2; etime_ms = negsuc 0; epoch = 7 }

abbrev watched : Watermark
watched = record {
  expected = ascii "a" ∷ ascii "b" ∷ [];
  high = (ascii "a", early) ∷ (ascii "b", late) ∷ [];
}

both-IsKnown : All (IsKnown watched.high) watched.expected
unfolding lookup bytes_eq compare_bytes
both-IsKnown = ((early, refl), ((late, refl), tt))

cuts : safe_cut watched ≡ some early
unfolding safe_cut Watermark.cut_from lookup less compare_stamp bytes_eq compare_bytes
cuts = refl

safe_cut_passed_example :
    (watched.expected ≢ []) × All (HasPassed watched.high early) watched.expected
safe_cut_passed_example = safe_cut_passed watched early cuts
