-- ===== src/Tests/Rounds.antt =====
-- rotation/rotation.go: a replica that takes part in the rotation of a partition.
use redgeo.Base.{
  compare_bytes, bytes_eq, ascii, ◌≡◌, refl, ◌↔◌, Bool, true, false, none, some, [], ◌∷◌,
}
use redgeo.Engine.Gate.{open_gate}
use redgeo.Engine.Partition.{Live, Generation, Partition}
use redgeo.Rotation.{
  Msg, Site, PState, Kind, blank_msg, prepare, switch, done, outcome, phase_switched, idle,
}
use redgeo.Rotation.Participant.{Dag, Calls, on_outcome, finish}
use redgeo.Rotation.Invariant.{
  IsSettled, IsOpen, Coherent, got_prepare, got_switch, got_done, run_events, run_events-Coherent,
  finish_outcome,
}
use redgeo.Rotation.Outcome.{ruling, Settles, AllInDoubt, on_outcome-ruling}

abbrev live : Live
live = (ascii "k", ascii "v") ∷ []

abbrev pub old_gen : Generation
old_gen = record { number = 3; live = live }

abbrev pub new_gen : Generation
new_gen = record { number = 4; live = live }

abbrev pub still : Partition
still = record {
  cur = old_gen;
  staged = none;
  prev = none;
  old = none;
  gate = open_gate;
  disk = record { gen = some 3; prev = none };
}

abbrev moved : Partition
moved = record {
  cur = new_gen;
  staged = none;
  prev = some 3;
  old = some live;
  gate = record { frozen = true; block_reads = false; inflight = 0 };
  disk = record { gen = some 4; prev = some 3 };
}

abbrev pub quiet_site : Site
quiet_site = record { st = none; part = still }

abbrev switched_state : PState
switched_state = record {
  round = ascii "a/0/1";
  coord = ascii "a";
  phase = phase_switched;
  genesis = ascii "g";
  since = 7;
  seeded = true;
  mine = false;
}

abbrev switched_site : Site
switched_site = record { st = some switched_state; part = moved }

abbrev calls : Calls
calls = record {
  drained = true;
  opened = true;
  activate_gen = true;
  activate_prev = true;
  last_gen = true;
  last_prev = true;
  reopened = true;
  stored = λ n. [];
}

abbrev pub dag : Dag
dag = record { heads = ascii "h" ∷ []; missing = λ u. []; quiescent = true }

abbrev from_a : Kind → Msg
from_a kind = record blank_msg {
  kind = kind;
  from = ascii "a";
  round = ascii "a/0/1";
  genesis = ascii "g";
}

pub quiet_site-Coherent : Coherent old_gen quiet_site
quiet_site-Coherent = (
  record { none_staged = refl; no_previous = refl },
  record { writable = refl; readable = refl },
  refl,
)

switched_site-Coherent : Coherent old_gen switched_site
switched_site-Coherent = record { none_staged = refl; previous = refl; kept = refl; frozen = refl }

run_events-Coherent_example :
    (base : Generation) × Coherent base (
      run_events
        (got_prepare calls dag 5 (from_a prepare)
          ∷ got_switch calls 6 (from_a switch)
          ∷ got_done calls (from_a done)
          ∷ [])
        quiet_site)
run_events-Coherent_example =
    run_events-Coherent
      (got_prepare calls dag 5 (from_a prepare)
        ∷ got_switch calls 6 (from_a switch)
        ∷ got_done calls (from_a done)
        ∷ [])
      old_gen quiet_site quiet_site-Coherent

finish_outcome_example :
    (let s' = finish calls (ascii "a/0/1") true switched_site in
      (s'.st ≡ none) × IsSettled s'.part × IsOpen s'.part × (s'.part.cur ≡ new_gen))
unfolding bytes_eq compare_bytes
finish_outcome_example =
    finish_outcome old_gen calls (ascii "a/0/1") true switched_site switched_state
      switched_site-Coherent refl refl

abbrev peer_idle : Msg
peer_idle = record blank_msg { kind = outcome; from = ascii "a"; gen = 4; state = idle }

on_outcome-ruling_example :
    (everyone : Bool) × ((everyone ≡ true) ↔ AllInDoubt 4 (ascii "a" ∷ []) peer_idle (some []))
    × Settles old_gen switched_site
        (on_outcome calls (ascii "a" ∷ []) peer_idle switched_site (some [])).0
        (ruling 4 everyone peer_idle)
on_outcome-ruling_example =
    on_outcome-ruling old_gen calls (ascii "a" ∷ []) peer_idle switched_site switched_state
      (some []) switched_site-Coherent refl refl
