-- ===== src/Rotation/Convergence.antt =====
-- What the coordinator has heard before it cuts.
use redgeo.Base.{
  Bytes, All, Map, lookup, contains, ◌≡◌, true, false, none, some, List, [], bytes_key,
}
use redgeo.Rotation.{Msg}
use redgeo.Rotation.Coordinator.{Round, Tally}

-- All of some heads are in a set of heads.
abbrev pub AreIn : List Bytes → List Bytes → Type 0
AreIn union heads = All (λ h. contains union h ≡ true) heads

-- A member's reply in phase 1 says that it is frozen and has processed every block it was asked for,
-- and names no head that is not in the union.
abbrev pub HasCaughtUp : List Bytes → Map Bytes Msg → Bytes → Type 0
HasCaughtUp union replies id =
    (m : Msg) × (lookup id replies ≡ some m)
    × (m.ok ≡ true)
    × (m.missing ≡ [])
    × (m.busy ≡ false)
    × AreIn union m.heads

-- A pass in which every member has caught up, and so has this replica, on the heads `union`, which
-- have been sent to all and have every head that a replica names.
pub record IsClean (members : List Bytes) (union : List Bytes) (r : Round) : Type 0 where
  pub everyone : All (HasCaughtUp union r.prepared) members
  pub own_heads : AreIn union r.dag.heads
  pub nothing_missing : r.dag.missing union ≡ []
  pub quiet : r.dag.quiescent ≡ true

-- Nothing in a tally speaks against the cut.
record IsQuiet (t : Tally) : Type 0 where
  none_missing : t.missing ≡ []
  none_behind : t.behind ≡ []
  none_rejected : t.rejected ≡ none
  same : t.grew ≡ false
