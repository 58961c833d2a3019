-- ===== src/Rotation/Handle.antt =====
-- The dispatch of one message that the transport delivers, for the partition that it names.
use redgeo.Base.{
  Bytes, ascii, ℤ, ltz, pos, Map, if◌then◌else◌, ℕ, Bool, true, false, not, ◌&&◌, Option, none,
  some, List, [], ◌∷◌,
}
use redgeo.Rotation.{
  Msg, Site, Kind, hello, prepare, prepared, switch, ready, done, abort, status, outcome,
}
use redgeo.Rotation.Participant.{
  Calls, Dag, on_prepare, on_switch, finish, on_outcome, on_status, refusal,
}

-- What a message leads to: the site, the status replies, what is sent, whether the site starts to
-- wait for a seed, and whether the message goes to the coordinator that waits for its round.
pub record Handled : Type 0 where
  pub site : Site
  pub replies : Option (Map Bytes Msg)
  pub sent : List Msg
  pub waits : Bool
  pub forwarded : Bool

abbrev pub unmoved : Site → Option (Map Bytes Msg) → List Msg → Handled
unmoved s replies sent = record {
  site = s;
  replies = replies;
  sent = sent;
  waits = false;
  forwarded = false;
}

-- handle, of a message that names a partition which the node has
dispatch : Kind → Calls → Dag → ℕ → Msg → Site → Option (Map Bytes Msg) → Handled
dispatch prepare calls dag now m s replies =
    let (s', sent) = on_prepare calls dag now m s in unmoved s' replies sent
dispatch switch calls dag now m s replies =
    let (s', sent, waits) = on_switch calls now m s in
    record { site = s'; replies = replies; sent = sent; waits = waits; forwarded = false }
dispatch done calls dag now m s replies = unmoved (finish calls m.round true s) replies []
dispatch abort calls dag now m s replies = unmoved (finish calls m.round false s) replies []
dispatch status calls dag now m s replies = unmoved s replies (on_status m s)
dispatch _ calls dag now m s replies = unmoved s replies []

unfoldable pub has_part : ℕ → ℤ → Bool
has_part parts part = not (ltz part (pos 0)) && ltz part (pos parts)

no_such_partition : Kind → Msg → List Msg
unfolding refusal
no_such_partition prepare m = refusal prepared (ascii "no such partition") m ∷ []
no_such_partition _ m = []

-- What a handler does that takes the partition's lock first: `none` waits for it.
unfoldable pub when_free : Bool → Handled → Option Handled
when_free locked r = if locked then none else some r

unfoldable pub outcome_of :
    Calls → ℕ → List Bytes → Bool → Msg → Site → Option (Map Bytes Msg) → Option Handled
unfolding has_part when_free
outcome_of calls parts members locked m s replies =
    let (s', replies') = on_outcome calls members m s replies in
    if has_part parts m.part
    then when_free locked (unmoved s' replies' [])
    else some (unmoved s replies [])

unfoldable pub rest_of :
    Calls → Dag → ℕ → ℕ → Bool → Msg → Site → Option (Map Bytes Msg) → Option Handled
unfolding has_part when_free dispatch no_such_partition
rest_of calls dag now parts locked m s replies =
    if has_part parts m.part
    then when_free locked (dispatch m.kind calls dag now m s replies)
    else some (unmoved s replies (no_such_partition m.kind m))

-- handle, of a node of `parts` partitions; `waited` tells whether a coordinator waits for the round.
-- `locked` tells whether the partition's lock is held: Compact holds it as long as it runs.
unfoldable pub handle :
    Calls
    → Dag
    → ℕ
    → ℕ
    → List Bytes
    → Bool
    → Bool
    → Msg
    → Site
    → Option (Map Bytes Msg)
    → Option Handled
unfolding outcome_of rest_of
handle calls dag now parts members waited locked m s replies = elim m.kind [
  | prepared ↦ some (record (unmoved s replies []) { forwarded = waited })
  | ready ↦ some (record (unmoved s replies []) { forwarded = waited })
  | outcome ↦ outcome_of calls parts members locked m s replies
  | hello ↦ some (unmoved s replies [])
  | _ ↦ rest_of calls dag now parts locked m s replies
]
