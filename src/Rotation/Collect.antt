-- ===== src/Rotation/Collect.antt =====
-- How a coordinator gathers the replies of one pass.
use redgeo.Base.{
  Bytes, bytes_eq, bytes_eq_iff, Map, lookup, insert, lookup-insert, if◌then◌else◌, Bool-cases, ◌≡◌,
  refl, sym, ◌∙◌, ◌⊎◌, inl, inr, Bool, true, false, Option, none, some, List, [], ◌∷◌, arith,
  bytes_key,
}
use mathlib.Core.Option.{some_inj}
use mathlib.Core.Path.{subst}
use redgeo.Rotation.{Msg, Kind, prepared, ready}

-- What collect waits for, in the order in which it comes.
pub data Arrival : Type 0 where
  reply : Msg → Arrival
  timer : Arrival
  cancel : Arrival

-- m.T == kind, of the two kinds that a coordinator waits for
unfoldable pub is_kind : Kind → Kind → Bool
is_kind prepared k = elim k [ prepared ↦ true | _ ↦ false ]
is_kind ready k = elim k [ ready ↦ true | _ ↦ false ]
is_kind _ k = false

-- whether every member has replied
unfoldable pub complete : List Bytes → Map Bytes Msg → Bool
complete [] into = true
complete (id ∷ members) into =
    let rest = complete members into in elim (lookup id into) [ none ↦ false | some m ↦ rest ]

-- collect: the replies, and whether it returns without an error; `none` where the arrivals that
-- are given do not end it
unfoldable pub collect :
    Kind → List Bytes → Map Bytes Msg → List Arrival → Option (Map Bytes Msg × Bool)
unfolding is_kind complete
collect kind members into [] = if complete members into then some (into, true) else none
collect kind members into (reply m ∷ arrivals) =
    let taken = collect kind members (insert m.from m into) arrivals in
    let passed = collect kind members into arrivals in
    if complete members into
    then some (into, true)
    else if is_kind kind m.kind
    then taken
    else passed
collect kind members into (timer ∷ arrivals) = some (into, true)
collect kind members into (cancel ∷ arrivals) =
    if complete members into then some (into, true) else some (into, false)

-- A reply that was in the table before, or one of this kind that its sender has sent.
abbrev pub IsGenuine : Kind → Map Bytes Msg → Bytes → Msg → Type 0
IsGenuine kind into id m =
    (lookup id into ≡ some m) ⊎ ((is_kind kind m.kind ≡ true) × (m.from ≡ id))

its_own :
    (into : Map Bytes Msg) (r : Msg) (id : Bytes) (m : Msg) (kind : Kind)
    → bytes_eq r.from id ≡ true
    → is_kind kind r.kind ≡ true
    → lookup id (insert r.from r into) ≡ some m
    → (is_kind kind m.kind ≡ true) × (m.from ≡ id)
its_own into r id m kind same its there =
    let is : r ≡ m = some_inj.0 (sym (lookup-insert r.from id r into ∙ rw same refl) ∙ there) in
    subst (λ x. (is_kind kind x.kind ≡ true) × (x.from ≡ id)) is
      (its, (bytes_eq_iff r.from id).0 same)

-- Whatever arrives, collect takes up replies of its kind only, and each under its sender.
pub collect-IsGenuine :
    (kind : Kind) (members : List Bytes) (into got : Map Bytes Msg) (ok : Bool)
    (arrivals : List Arrival) (id : Bytes) (m : Msg)
    → collect kind members into arrivals ≡ some (got, ok)
    → lookup id got ≡ some m
    → IsGenuine kind into id m
unfolding collect
collect-IsGenuine kind members into got ok [] id m h found = inl (ground arith)
collect-IsGenuine kind members into got ok (timer ∷ arrivals) id m h found = inl (ground arith)
collect-IsGenuine kind members into got ok (cancel ∷ arrivals) id m h found = inl (ground arith)
collect-IsGenuine kind members into got ok (reply r ∷ arrivals) id m h found =
    elim (Bool-cases (complete members into)) [
      | inl full ↦ inl (ground arith)
      | inr waits ↦ elim (Bool-cases (is_kind kind r.kind)) [
        | inr other ↦ collect-IsGenuine kind members into got ok arrivals id m (ground arith) found
        | inl its ↦
            elim (collect-IsGenuine kind members (insert r.from r into) got ok arrivals id m
              (ground arith) found) [
                | inr new ↦ inr new
                | inl there ↦ elim (Bool-cases (bytes_eq r.from id)) [
                  | inl same ↦ inr (its_own into r id m kind same its there)
                  | inr apart ↦ inl (sym (lookup-insert r.from id r into ∙ rw apart refl) ∙ there)
                ]
              ]
      ]
    ]
