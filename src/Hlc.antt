-- ===== src/Hlc.antt =====
-- hlc/hlc.go: hybrid logical clock stamps, their order and encoding, and the clock of a replica.
pub mod Order
pub mod Codec
pub mod Ticks
use redgeo.Base.{
  Bytes, be, un_be, ℤ, ltz, pos, length, take, drop, ltb, ◌==◌, if◌then◌else◌, ℕ, ◌+◌, ◌%◌,
  Ordering, Bool, true, false, Option, none, some, ◌++◌, u32_mod, u64, i64,
}
use Prim.Native.Nat.Ordering.{lt, eq, gt}

-- WallMS is an int64, Logical a uint32.
pub record Stamp : Type 0 where
  pub wall_ms : ℤ
  pub logical : ℕ

abbrev pub zero_stamp : Stamp
zero_stamp = record { wall_ms = pos 0; logical = 0 }

-- Compare: -1, +1 and 0 are `lt`, `gt` and `eq`
unfoldable pub compare_stamp : Stamp → Stamp → Ordering
compare_stamp a b =
    if ltz a.wall_ms b.wall_ms
    then lt
    else if ltz b.wall_ms a.wall_ms
    then gt
    else if ltb a.logical b.logical
    then lt
    else if ltb b.logical a.logical
    then gt
    else eq

unfoldable pub less : Stamp → Stamp → Bool
less a b = elim (compare_stamp a b) [ lt ↦ true | _ ↦ false ]

-- Encode: 8 bytes of wall clock, 4 of logical counter
unfoldable pub encode : Stamp → Bytes
encode a = be 8 (u64 a.wall_ms) ++ be 4 a.logical

unfoldable pub decode : Bytes → Option Stamp
decode b =
    if length b == 12
    then some (record { wall_ms = i64 (un_be 0 (take 8 b)); logical = un_be 0 (drop 8 b) })
    else none

pub record Clock : Type 0 where
  pub last : Stamp

-- Now, where the wall clock reads `pt`. The stamp returned is the new `last`.
unfoldable pub now : ℤ → Clock → Clock
now pt c =
    if ltz c.last.wall_ms pt
    then record { last = record { wall_ms = pt; logical = 0 } }
    else record {
      last = record { wall_ms = c.last.wall_ms; logical = (c.last.logical + 1) % u32_mod };
    }

-- Observe, where the wall clock reads `pt`
newer : Stamp → Stamp → Stamp
newer remote last = elim (compare_stamp remote last) [ gt ↦ remote | _ ↦ last ]

unfoldable pub observe : ℤ → Stamp → Clock → Clock
unfolding newer
observe pt remote c =
    let m = newer remote c.last in
    if ltz m.wall_ms pt
    then record { last = record { wall_ms = pt; logical = 0 } }
    else record { last = record { wall_ms = m.wall_ms; logical = (m.logical + 1) % u32_mod } }
