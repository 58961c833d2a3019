-- ===== src/Rotation/Membership.antt =====
-- The replicas whose agreement a compaction needs: learnt from hellos, forgotten by an operator,
-- and kept in the local store.
use redgeo.Base.{
  Bytes, bytes_eq, bytes_eq_iff, length, All, contains, sort, without, sort-contains, ◌==◌,
  if◌then◌else◌, Bool-cases, Option-cases, ◌≡◌, refl, sym, ap, ◌∙◌, inl, inr, Bool, true, false,
  not, ◌&&◌, ◌||◌, Option, none, some, List, [], ◌∷◌, arith,
}
use mathlib.Core.Option.{some_inj}
use mathlib.Core.Path.{subst}

pub record Node : Type 0 where
  pub id : Bytes
  pub members : List Bytes
  -- the value of the membersKey; its wire form is JSON
  pub saved : Option (List Bytes)

-- Members
unfoldable pub members_of : Node → List Bytes
unfolding sort
members_of n = sort n.members

-- saveMembersLocked; `stored` tells whether MetaPut has stored the list, whose error is ignored
unfoldable pub save_members : Bool → Node → Node
unfolding sort
save_members stored n = if stored then record n { saved = some (sort n.members) } else n

-- the loop of learn: the set, and whether it has changed
unfoldable pub learn_loop : Bytes → List Bytes → Bool → List Bytes → List Bytes × Bool
learn_loop self set changed [] = (set, changed)
learn_loop self set changed (x ∷ ids) =
    if length x == 0 || bytes_eq x self
    then learn_loop self set changed ids
    else if contains set x
    then learn_loop self set changed ids
    else learn_loop self (x ∷ set) true ids

unfoldable pub learn : Bool → List Bytes → Node → Node
unfolding save_members
learn stored ids n =
    let (set, changed) = learn_loop n.id n.members false ids in
    if changed then save_members stored (record n { members = set }) else record n { members = set }

-- Forget, after the call of Unregister, whose error is ignored
unfoldable pub forget : Bool → Bytes → Node → Node
unfolding save_members
forget stored id n = save_members stored (record n { members = without id n.members })

-- loadMembers, into the members of a node that starts
unfoldable pub load_loop : Bytes → List Bytes → List Bytes → List Bytes
load_loop self set [] = set
load_loop self set (x ∷ ids) =
    if bytes_eq x self
    then load_loop self set ids
    else if contains set x
    then load_loop self set ids
    else load_loop self (x ∷ set) ids

unfoldable pub load_members : Node → Node
load_members n = elim n.saved [
  | none ↦ n
  | some ids ↦ record n { members = load_loop n.id n.members ids }
]

-- New, before the members are loaded
unfoldable pub restarted : Node → Node
restarted n = record n { members = [] }

-- A change of the members, and whether its save is stored.
pub data Change : Type 0 where
  learnt : Bool → List Bytes → Change
  forgotten : Bool → Bytes → Change

abbrev pub IsStored : Change → Type 0
IsStored (learnt stored ids) = stored ≡ true
IsStored (forgotten stored id) = stored ≡ true

unfoldable pub run_changes : List Change → Node → Node
run_changes [] n = n
run_changes (learnt stored ids ∷ cs) n = run_changes cs (learn stored ids n)
run_changes (forgotten stored id ∷ cs) n = run_changes cs (forget stored id n)

-- What the local store holds is the member set, and the node is no member of its own.
pub record IsSaved (n : Node) : Type 0 where
  pub unsaved : n.saved ≡ none → n.members ≡ []
  pub same :
      (ids : List Bytes) → n.saved ≡ some ids → (x : Bytes) → contains ids x ≡ contains n.members x
  pub not_self : contains n.members n.id ≡ false

learn_loop_self :
    (self : Bytes) (ids set : List Bytes) (changed : Bool)
    → contains set self ≡ false
    → contains (learn_loop self set changed ids).0 self ≡ false
unfolding learn_loop contains
learn_loop_self self [] set changed h = h
learn_loop_self self (x ∷ ids) set changed h =
    ground (arith, learn_loop_self self ids set changed h, learn_loop_self self ids (x ∷ set) true)

learn_loop-unchanged :
    (self : Bytes) (ids set : List Bytes) (changed : Bool)
    → (learn_loop self set changed ids).1 ≡ false
    → ((learn_loop self set changed ids).0 ≡ set) × (changed ≡ false)
unfolding learn_loop
learn_loop-unchanged self [] set changed h = (refl, h)
learn_loop-unchanged self (x ∷ ids) set changed h =
    ground (
      arith,
      learn_loop-unchanged self ids set changed,
      learn_loop-unchanged self ids (x ∷ set) true,
    )

without_self :
    (self x : Bytes) (set : List Bytes)
    → contains set self ≡ false
    → contains (without x set) self ≡ false
unfolding without contains
without_self self x [] h = h
without_self self x (y ∷ set) h = ground (arith, without_self self x set)

save_members-IsSaved : (n : Node) → contains n.members n.id ≡ false → IsSaved (save_members true n)
unfolding save_members
save_members-IsSaved n h = record {
  unsaved = λ e. absurd (cc e);
  same = λ ids e x. ap (λ xs. contains xs x) (sym (some_inj.0 e)) ∙ sort-contains n.members x;
  not_self = h;
}

contains-same :
    (x y : Bytes) (set : List Bytes) → bytes_eq y x ≡ true → contains set y ≡ contains set x
contains-same x y set same = ap (contains set) ((bytes_eq_iff y x).0 same)

load_loop-contains :
    (self x : Bytes) (ids set : List Bytes)
    → contains (load_loop self set ids) x
      ≡ (contains set x || (contains ids x && not (bytes_eq x self)))
unfolding load_loop contains
load_loop-contains self x [] set = ground arith
load_loop-contains self x (y ∷ ids) set = ground (
  arith,
  load_loop-contains self x ids set,
  load_loop-contains self x ids (y ∷ set),
  contains-same x y set,
  bytes_eq_iff y x,
)

learn-IsSaved : (ids : List Bytes) (n : Node) → IsSaved n → IsSaved (learn true ids n)
unfolding learn
learn-IsSaved ids n h = elim (Bool-cases (learn_loop n.id n.members false ids).1) [
  | inl changed ↦ rw changed (
      save_members-IsSaved (record n { members = (learn_loop n.id n.members false ids).0 })
        (learn_loop_self n.id ids n.members false h.not_self))
  | inr kept ↦ rw kept rw ((learn_loop-unchanged n.id ids n.members false kept).0) h
]

forget-IsSaved : (id : Bytes) (n : Node) → IsSaved n → IsSaved (forget true id n)
unfolding forget
forget-IsSaved id n h =
    save_members-IsSaved (record n { members = without id n.members })
      (without_self n.id id n.members h.not_self)

run_changes-IsSaved :
    (cs : List Change) (n : Node) → All IsStored cs → IsSaved n → IsSaved (run_changes cs n)
unfolding run_changes
run_changes-IsSaved [] n k h = h
run_changes-IsSaved (learnt stored ids ∷ cs) n k h =
    run_changes-IsSaved cs (learn stored ids n) k.1
      (subst (λ b. IsSaved (learn b ids n)) (sym k.0) (learn-IsSaved ids n h))
run_changes-IsSaved (forgotten stored id ∷ cs) n k h =
    run_changes-IsSaved cs (forget stored id n) k.1
      (subst (λ b. IsSaved (forget b id n)) (sym k.0) (forget-IsSaved id n h))

load_loop-IsSaved :
    (n : Node) (ids : List Bytes) (x : Bytes)
    → IsSaved n
    → n.saved ≡ some ids
    → contains (load_loop n.id [] ids) x ≡ contains n.members x
unfolding contains
load_loop-IsSaved n ids x h e =
    load_loop-contains n.id x ids []
    ∙ rw (h.same ids e x) (elim (Bool-cases (bytes_eq x n.id)) [
      | inl self ↦ rw self (rw ((bytes_eq_iff x n.id).0 self) (rw h.not_self refl))
      | inr other ↦ rw other (ground arith)
    ])

load_members-IsSaved :
    (n : Node) (x : Bytes)
    → IsSaved n
    → contains (load_members (restarted n)).members x ≡ contains n.members x
unfolding load_members restarted
load_members-IsSaved n x h = elim (Option-cases n.saved) [
  | inl e ↦ rw e (rw (h.unsaved e) refl)
  | inr (ids, e) ↦ rw e (load_loop-IsSaved n ids x h e)
]

-- A node that restarts after any hellos and any operator's Forget loads the members that it had,
-- where the local store has taken each save of them, whose errors the code ignores. It began with what
-- the local store holds of it, and it has kept its name.
pub restart_keeps_members :
    (cs : List Change) (n : Node)
    → All IsStored cs
    → IsSaved n
    → (x : Bytes)
    → contains (members_of (load_members (restarted (run_changes cs n)))) x
      ≡ contains (members_of (run_changes cs n)) x
unfolding members_of
restart_keeps_members cs n k h x =
    sort-contains (load_members (restarted (run_changes cs n))).members x
    ∙ load_members-IsSaved (run_changes cs n) x (run_changes-IsSaved cs n k h)
    ∙ sym (sort-contains (run_changes cs n).members x)
