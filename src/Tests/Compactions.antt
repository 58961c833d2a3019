-- ===== src/Tests/Compactions.antt =====
-- rotation/rotation.go: replica a coordinates a compaction with replica b.
use redgeo.Base.{
  Bytes, compare_bytes, bytes_eq, ascii, pos, lookup, remove, insert, contains, ◌≡◌, refl, true,
  false, none, some, List, [], ◌∷◌, bytes_key,
}
use redgeo.Engine.Gate.{set_gate, freeze_start}
use redgeo.Engine.Partition.{
  in_doubt, persist_gen, stage, activate, commit, freeze, unfreeze, seed_from,
}
use redgeo.Rotation.{Msg, Kind, blank_msg, prepared, ready, done}
use redgeo.Rotation.Coordinator.{
  Round, SwitchRound, Inputs, Ending, add, add_all, tally_reply, tally, self_behind, tally_round,
  is_clean, converge, all_ready, await_ready, three, commit_all, switch_all, move_over,
  converge_then, compact,
}
use redgeo.Rotation.Compaction.{EndsWell, compact-EndsWell}
use redgeo.Rotation.Deadline.{compact_ends}
use redgeo.Rotation.Collect.{reply, timer, is_kind, complete, collect, IsGenuine, collect-IsGenuine}
use redgeo.Rotation.Membership.{
  Node, IsSaved, learnt, forgotten, run_changes, restarted, load_members, members_of,
  restart_keeps_members,
}
use redgeo.Tests.Rounds.{old_gen, new_gen, still, quiet_site, dag, quiet_site-Coherent}

abbrev members : List Bytes
members = ascii "b" ∷ []

abbrev from_b : Kind → Msg
from_b kind = record blank_msg {
  kind = kind;
  from = ascii "b";
  round = ascii "a/0/1";
  ok = true;
  heads = ascii "h" ∷ [];
}

abbrev pass_one : Round
pass_one = record {
  collected = true;
  prepared = (ascii "b", from_b prepared) ∷ [];
  dag = dag;
  late = false;
  alive = true;
}

abbrev pass_two : SwitchRound
pass_two = record {
  collected = true;
  ready = (ascii "b", from_b ready) ∷ [];
  late = false;
  alive = true;
}

abbrev inputs : Inputs
inputs = record {
  now = 5;
  round = ascii "a/0/1";
  heads = ascii "h" ∷ [];
  drained = true;
  rounds = pass_one ∷ pass_one ∷ [];
  opened = true;
  copied = true;
  activate_gen = true;
  activate_prev = true;
  switch_rounds = pass_two ∷ [];
  last_gen = true;
  last_prev = true;
  reopened = true;
  stored = λ n. [];
}

abbrev ending : Ending
ending = record {
  site = record {
    st = none;
    part = record still { cur = new_gen; disk = record { gen = some 4; prev = none } };
  };
  failure = none;
  sent = done ∷ done ∷ done ∷ [];
}

compacts : compact inputs 256 (pos 0) members quiet_site ≡ some ending
unfolding compact converge_then move_over switch_all commit_all three await_ready all_ready stage
    activate commit persist_gen seed_from in_doubt freeze unfreeze freeze_start set_gate converge
    tally_round tally tally_reply add_all add is_clean self_behind contains bytes_eq compare_bytes
    lookup insert remove
compacts = refl

compact-EndsWell_example : EndsWell old_gen ending
compact-EndsWell_example =
    compact-EndsWell inputs 256 (pos 0) members quiet_site ending refl quiet_site-Coherent.0
      quiet_site-Coherent.1 compacts

abbrev new_node : Node
new_node = record { id = ascii "a"; members = []; saved = none }

new_node-IsSaved : IsSaved new_node
unfolding contains
new_node-IsSaved = record { unsaved = λ e. refl; same = λ ids e x. absurd (cc e); not_self = refl }

restart_keeps_members_example :
    contains
      (members_of (
        load_members (
          restarted (
            run_changes
              (learnt true (ascii "b" ∷ ascii "c" ∷ []) ∷ forgotten true (ascii "b") ∷ [])
              new_node))))
      (ascii "c")
    ≡ contains
        (members_of (
          run_changes
            (learnt true (ascii "b" ∷ ascii "c" ∷ []) ∷ forgotten true (ascii "b") ∷ [])
            new_node))
        (ascii "c")
restart_keeps_members_example =
    restart_keeps_members
      (learnt true (ascii "b" ∷ ascii "c" ∷ []) ∷ forgotten true (ascii "b") ∷ []) new_node
      (refl, (refl, tt)) new_node-IsSaved (ascii "c")

collected :
    collect ready members [] (reply (from_b prepared) ∷ reply (from_b ready) ∷ timer ∷ [])
    ≡ some ((ascii "b", from_b ready) ∷ [], true)
unfolding collect complete is_kind lookup insert remove bytes_eq compare_bytes
collected = refl

found_b : lookup (ascii "b") ((ascii "b", from_b ready) ∷ []) ≡ some (from_b ready)
unfolding lookup bytes_eq compare_bytes
found_b = refl

collect-IsGenuine_example : IsGenuine ready [] (ascii "b") (from_b ready)
collect-IsGenuine_example =
    collect-IsGenuine ready members [] ((ascii "b", from_b ready) ∷ []) true
      (reply (from_b prepared) ∷ reply (from_b ready) ∷ timer ∷ []) (ascii "b") (from_b ready)
      collected found_b

-- Replica b is silent until the deadline.
abbrev silent : Round
silent = record pass_one { prepared = []; late = true }

abbrev silent_switch : SwitchRound
silent_switch = record pass_two { ready = []; late = true }

abbrev unanswered : Inputs
unanswered = record inputs { rounds = silent ∷ silent ∷ []; switch_rounds = silent_switch ∷ [] }

compact_ends_example : (e : Ending) × (compact unanswered 256 (pos 0) members quiet_site ≡ some e)
compact_ends_example =
    compact_ends unanswered 256 (pos 0) members quiet_site [] [] silent silent [] [] silent_switch
      refl refl refl refl refl
