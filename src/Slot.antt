-- ===== src/Slot.antt =====
-- crdtstore/slot.go: the last-writer-wins register envelopes of the replicas, and the read rule
-- that picks the winner among them.
pub mod Codec
pub mod Winner
use redgeo.Base.{
  Bytes, compare_bytes, length, get_or, take, drop, Map, ltb, ◌==◌, if◌then◌else◌, ℕ, Option, none,
  some, [], ◌∷◌, ◌++◌,
}
use redgeo.Hlc
use redgeo.Hlc.{Stamp, compare_stamp}
use Prim.Native.Nat.Ordering.{lt, eq, gt}

abbrev pub tag_present : ℕ
tag_present = 0

abbrev pub tag_deleted : ℕ
tag_deleted = 1

pub record Slot : Type 0 where
  pub stamp : Stamp
  pub tag : ℕ
  pub value : Bytes

-- encodeSlot
unfoldable pub encode_slot : Slot → Bytes
encode_slot s = Hlc.encode s.stamp ++ s.tag ∷ s.value

with_stamp : Bytes → Option Stamp → Option Slot
with_stamp b none = none
with_stamp b (some st) = some (record { stamp = st; tag = get_or b 12 0; value = drop 13 b })

-- decodeSlot; `none` is errBadSlot
unfoldable pub decode_slot : Bytes → Option Slot
unfolding with_stamp
decode_slot b = if ltb (length b) 13 then none else with_stamp b (Hlc.decode (take 12 b))

-- The candidates of a register: the slot of each replica, by its identifier. Go iterates over such
-- a map in any order, and so the model takes the entries in the order of the list.
abbrev pub Cands : Type 0
Cands = Map Bytes Slot

-- One round of the loop in winner
unfoldable pub challenge : Option (Bytes × Slot) → Bytes → Slot → Option (Bytes × Slot)
challenge none replica s = some (replica, s)
challenge (some (best_replica, best)) replica s = elim (compare_stamp best.stamp s.stamp) [
  | lt ↦ some (replica, s)
  | eq ↦ elim (compare_bytes replica best_replica) [
    | gt ↦ some (replica, s)
    | _ ↦ some (best_replica, best)
  ]
  | gt ↦ some (best_replica, best)
]

unfoldable pub winner_from : Option (Bytes × Slot) → Cands → Option (Bytes × Slot)
winner_from best [] = best
winner_from best ((replica, s) ∷ cands) = winner_from (challenge best replica s) cands

-- winner; `none` where it reports that there is no candidate
unfoldable pub winner : Cands → Option (Bytes × Slot)
winner cands = winner_from none cands

-- liveValue
unfoldable pub live_of : Option (Bytes × Slot) → Option Bytes
live_of none = none
live_of (some (_, best)) = if best.tag == tag_deleted then none else some best.value

unfoldable pub live_value : Cands → Option Bytes
unfolding live_of
live_value cands = live_of (winner cands)
