-- ===== src/Rotation/Outcome.antt =====
-- How a site that has switched, and has not seen the end of its round, settles by its peers' answers.
use redgeo.Base.{
  Bytes, bytes_eq, length, All, Map, lookup, insert, lookup-insert, ltb, leb, if◌then◌else◌,
  Option-cases, ℕ, ◌<◌, ◌≡◌, refl, sym, ◌∙◌, ◌↔◌, ◌⊎◌, inl, inr, Bool, true, false, not, ◌&&◌,
  Option, none, some, List, [], ◌∷◌, arith, bytes_key,
}
use mathlib.Core.Path.{subst}
use redgeo.Engine.Partition.{Generation}
use redgeo.Rotation.{Msg, Site, PState, phase_switched, DoubtState, idle, indoubt, is_prepared}
use redgeo.Rotation.Invariant.{Coherent, IsSettled, IsOpen, finish_outcome}
use redgeo.Rotation.Participant.{
  Calls, finish, on_outcome, noted, everyone_doubts, all_in_doubt, decide,
}

-- The outcome that a peer's answer leads to: `none` leaves the site in doubt.
abbrev pub ruling : ℕ → Bool → Msg → Option Bool
ruling mine everyone m = elim m.state [
  | idle ↦ some (leb mine m.gen)
  | indoubt ↦ if everyone then some false else none
]

DoubtState-cases : (d : DoubtState) → (d ≡ idle) ⊎ (d ≡ indoubt)
DoubtState-cases idle = inl refl
DoubtState-cases indoubt = inr refl

-- What a site `s` has become under a ruling.
abbrev pub Settles : Generation → Site → Site → Option Bool → Type 0
Settles old s s' none = s' ≡ s
Settles old s s' (some commits) =
    (s'.st ≡ none)
    × IsSettled s'.part
    × IsOpen s'.part
    × (s'.part.cur ≡ (if commits then s.part.cur else old))

finish-Settles :
    (old : Generation) (calls : Calls) (commits : Bool) (s : Site) (st : PState)
    → Coherent old s
    → s.st ≡ some st
    → st.phase ≡ phase_switched
    → Settles old s (finish calls [] commits s) (some commits)
finish-Settles old calls commits s st h e p =
    let (over, settled, opened, cur) = finish_outcome old calls [] commits s st h e refl in
    (over, settled, opened, cur ∙ same commits)
  where
    same :
        (b : Bool)
        → (if b && not (is_prepared st.phase) then s.part.cur else old)
          ≡ (if b then s.part.cur else old)
    same b = ground arith

decide-Settles :
    (old : Generation) (calls : Calls) (everyone : Bool) (m : Msg) (s : Site) (st : PState)
    → Coherent old s
    → s.st ≡ some st
    → st.phase ≡ phase_switched
    → Settles old s (decide calls everyone m s) (ruling s.part.cur.number everyone m)
unfolding decide
decide-Settles old calls everyone m s st h e p = go m.state everyone
  where
    go :
        (d : DoubtState) (b : Bool)
        → Settles old s
            (decide calls b (record m { state = d }) s)
            (ruling s.part.cur.number b (record m { state = d }))
    go idle b = finish-Settles old calls (leb s.part.cur.number m.gen) s st h e p
    go indoubt true = finish-Settles old calls false s st h e p
    go indoubt false = refl

-- The latest status reply of a member, once `m` has come in: from before there are `replies`, a table
-- that stands only since the site has asked.
abbrev pub latest : Msg → Option (Map Bytes Msg) → Bytes → Option Msg
latest m none id = none
latest m (some replies) id = if bytes_eq m.from id then some m else lookup id replies

-- The latest reply of a member says that it is in doubt about the generation `mine`.
abbrev pub IsInDoubt : ℕ → Msg → Option (Map Bytes Msg) → Bytes → Type 0
IsInDoubt mine m replies id =
    (r : Msg) × (latest m replies id ≡ some r) × (r.state ≡ indoubt) × (r.gen ≡ mine)

-- There are members, and each is in doubt.
abbrev pub AllInDoubt : ℕ → List Bytes → Msg → Option (Map Bytes Msg) → Type 0
AllInDoubt mine members m replies = (0 < length members) × All (IsInDoubt mine m replies) members

table : Msg → Option (Map Bytes Msg) → Map Bytes Msg
table m none = []
table m (some replies) = insert m.from m replies

table-latest :
    (m : Msg) (replies : Option (Map Bytes Msg)) (id : Bytes)
    → lookup id (table m replies) ≡ latest m replies id
unfolding table lookup
table-latest m none id = refl
table-latest m (some replies) id = lookup-insert m.from id m replies

everyone_doubts-table :
    (mine : ℕ) (members : List Bytes) (m : Msg) (replies : Option (Map Bytes Msg))
    → everyone_doubts mine members (noted m replies)
      ≡ (ltb 0 (length members) && all_in_doubt mine (table m replies) members)
unfolding everyone_doubts noted table
everyone_doubts-table mine members m none = refl
everyone_doubts-table mine members m (some replies) = refl

all_in_doubt_sound :
    (mine : ℕ) (members : List Bytes) (m : Msg) (replies : Option (Map Bytes Msg))
    → all_in_doubt mine (table m replies) members ≡ true
    → All (IsInDoubt mine m replies) members
unfolding all_in_doubt
all_in_doubt_sound mine [] m replies h = tt
all_in_doubt_sound mine (id ∷ members) m replies h =
    elim (Option-cases (lookup id (table m replies))) [
      | inl absent ↦ absurd (ground (arith, absent))
      | inr (r, found) ↦
          let (doubts, gen, rest) = both r found (DoubtState-cases r.state) in
          (
            (r, sym (table-latest m replies id) ∙ found, doubts, gen),
            all_in_doubt_sound mine members m replies rest,
          )
    ]
  where
    both :
        (r : Msg)
        → lookup id (table m replies) ≡ some r
        → (r.state ≡ idle) ⊎ (r.state ≡ indoubt)
        → (r.state ≡ indoubt)
          × (r.gen ≡ mine)
          × (all_in_doubt mine (table m replies) members ≡ true)
    both r found (inl settled) = absurd (ground (arith, found, settled))
    both r found (inr doubts) =
        (doubts, ground (arith, found, doubts), ground (arith, found, doubts))

all_in_doubt_complete :
    (mine : ℕ) (members : List Bytes) (m : Msg) (replies : Option (Map Bytes Msg))
    → All (IsInDoubt mine m replies) members
    → all_in_doubt mine (table m replies) members ≡ true
unfolding all_in_doubt
all_in_doubt_complete mine [] m replies h = refl
all_in_doubt_complete mine (id ∷ members) m replies h =
    let (r, found, doubts, gen) = h.0 in
    let known = table-latest m replies id ∙ found in
    let rest = all_in_doubt_complete mine members m replies h.1 in
    ground (arith, known, doubts, gen, rest)

-- On a coherent site that has switched, a settled peer on its generation or past it makes the site
-- commit, a settled peer behind it makes it fall back, and an answer in doubt makes it fall back
-- exactly if there are members and the latest answer of each, this one counted, is in doubt about the
-- site's own generation. A site that commits keeps its generation, one that falls back has the old
-- one, entries and all, and both are settled and open; otherwise nothing changes.
pub on_outcome-ruling :
    (old : Generation) (calls : Calls) (members : List Bytes) (m : Msg) (s : Site) (st : PState)
    (replies : Option (Map Bytes Msg))
    → Coherent old s
    → s.st ≡ some st
    → st.phase ≡ phase_switched
    → (everyone : Bool) × ((everyone ≡ true) ↔ AllInDoubt s.part.cur.number members m replies)
      × Settles old s (on_outcome calls members m s replies).0 (ruling s.part.cur.number everyone m)
unfolding on_outcome
on_outcome-ruling old calls members m s st replies h e p =
    let mine = s.part.cur.number in
    let everyone = everyone_doubts mine members (noted m replies) in
    let is : decide calls everyone m s ≡ (on_outcome calls members m s replies).0 = ground arith in
    let all = everyone_doubts-table mine members m replies in
    (
      everyone,
      (
        λ yes'. (
          ground (arith, all, yes'),
          all_in_doubt_sound mine members m replies (ground (arith, all, yes')),
        ),
        λ doubt.
            let complete = all_in_doubt_complete mine members m replies doubt.1 in
            let some_member = doubt.0 in ground (arith, all, complete, some_member),
      ),
      subst (λ s'. Settles old s s' (ruling mine everyone m)) is
          (decide-Settles old calls everyone m s st h e p),
    )
