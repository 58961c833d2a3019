-- ===== src/Rotation.antt =====
-- rotation/rotation.go: the commit protocol that compacts a partition on every replica. A site is
-- one replica's side of it for one partition; the handlers of a partition exclude one another, so
-- each is a function of the site.
pub mod Participant
pub mod Coordinator
pub mod Invariant
pub mod Outcome
pub mod Compaction
pub mod Convergence
pub mod Deadline
pub mod Agreement
pub mod Handle
pub mod Collect
pub mod Membership
use redgeo.Base.{Bytes, ℤ, pos, ℕ, Bool, true, false, Option, List, []}
use redgeo.Engine.Partition.{Partition, in_doubt}

pub data Kind : Type 0 where
  hello prepare prepared switch ready done abort status outcome unknown : Kind

pub data DoubtState : Type 0 where
  idle indoubt : DoubtState

-- msg; the wire form is JSON
pub record Msg : Type 0 where
  pub kind : Kind
  pub from : Bytes
  pub round : Bytes
  pub part : ℤ
  pub gen : ℕ
  pub heads : List Bytes
  pub union : List Bytes
  pub missing : List Bytes
  pub busy : Bool
  pub genesis : Bytes
  pub ok : Bool
  pub reason : Bytes
  pub state : DoubtState

abbrev pub blank_msg : Msg
blank_msg = record {
  kind = unknown;
  from = [];
  round = [];
  part = pos 0;
  gen = 0;
  heads = [];
  union = [];
  missing = [];
  busy = false;
  genesis = [];
  ok = false;
  reason = [];
  state = idle;
}

pub data Phase : Type 0 where
  phase_prepared phase_switched : Phase

-- pstate; times are milliseconds
pub record PState : Type 0 where
  pub round : Bytes
  pub coord : Bytes
  pub phase : Phase
  pub genesis : Bytes
  pub since : ℕ
  pub seeded : Bool
  pub mine : Bool

pub record Site : Type 0 where
  pub st : Option PState
  pub part : Partition

abbrev pub is_prepared : Phase → Bool
is_prepared phase_prepared = true
is_prepared phase_switched = false
