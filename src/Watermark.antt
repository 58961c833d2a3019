-- ===== src/Watermark.antt =====
-- crdtstore/watermark.go: the highest stamp seen of each replica, and the cut that every expected
-- replica has passed.
pub mod Cut
use redgeo.Base.{
  Bytes, bytes_eq, length, Map, lookup, insert, ◌==◌, if◌then◌else◌, Bool, false, ◌||◌, Option,
  none, some, List, [], ◌∷◌, bytes_key,
}
use redgeo.Hlc.{Stamp, less, zero_stamp}

pub record Watermark : Type 0 where
  pub expected : List Bytes
  pub high : Map Bytes Stamp

-- NewWatermark: the set of the given replicas
unfoldable pub member : Bytes → List Bytes → Bool
member r [] = false
member r (x ∷ xs) = bytes_eq x r || member r xs

unfoldable pub to_set : List Bytes → List Bytes
unfolding member
to_set [] = []
to_set (x ∷ xs) = let rest = to_set xs in if member x rest then rest else x ∷ rest

unfoldable pub new_watermark : List Bytes → Watermark
new_watermark replicas = record { expected = to_set replicas; high = [] }

-- Observe
unfoldable pub observe : Bytes → Stamp → Watermark → Watermark
observe r s w = elim (lookup r w.high) [
  | none ↦ record w { high = insert r s w.high }
  | some cur ↦ if less cur s then record w { high = insert r s w.high } else w
]

-- The loop of SafeCut: `cut` is `none` before the first replica. The outer `none` is the refusal.
unfoldable pub cut_from : Map Bytes Stamp → Option Stamp → List Bytes → Option (Option Stamp)
cut_from high cut [] = some cut
cut_from high cut (r ∷ rs) = elim (lookup r high) [
  | none ↦ none
  | some s ↦
      cut_from high (elim cut [ none ↦ some s | some c ↦ if less s c then some s else some c ]) rs
]

-- SafeCut; `none` is ok=false
unfoldable pub safe_cut : Watermark → Option Stamp
safe_cut w =
    if length w.expected == 0
    then none
    else elim (cut_from w.high none w.expected) [ none ↦ none | some cut ↦ cut ]

-- Confirmed, before the sort
unfoldable pub confirmed : Watermark → List Bytes
confirmed w = confirmed_of w.high
  where
    confirmed_of : Map Bytes Stamp → List Bytes
    confirmed_of [] = []
    confirmed_of ((r, s) ∷ high) =
        let rest = confirmed_of high in if member r w.expected then r ∷ rest else rest
