-- ===== src/Rotation/Agreement.antt =====
-- What the coordinator has heard before it commits.
use redgeo.Base.{Bytes, All, Map, lookup, ◌≡◌, true, some, List, ◌∷◌, ◌++◌, bytes_key}
use redgeo.Engine.Partition.{Partition}
use redgeo.Rotation.{Msg}
use redgeo.Rotation.Coordinator.{Inputs, Round, SwitchRound}
use redgeo.Rotation.Convergence.{IsClean}

-- A member has said that it is on the new generation and holds its seed.
abbrev pub IsReady : Map Bytes Msg → Bytes → Type 0
IsReady replies id = (m : Msg) × (lookup id replies ≡ some m) × (m.ok ≡ true)

-- All the agreement that a compaction needs before it commits.
pub record Agreed (members : List Bytes) (i : Inputs) : Type 0 where
  pub union : List Bytes
  pub before : List Round
  pub r1 : Round
  pub r2 : Round
  pub after : List Round
  pub rounds : i.rounds ≡ before ++ r1 ∷ r2 ∷ after
  pub first : IsClean members union r1
  pub second : IsClean members union r2
  pub switch_before : List SwitchRound
  pub last : SwitchRound
  pub switch_after : List SwitchRound
  pub switches : i.switch_rounds ≡ switch_before ++ last ∷ switch_after
  pub ready : All (IsReady last.ready) members
