-- ===== src/Tests/Nodes.antt =====
-- crdtstore/store.go: a node whose datastore is an association list.
use redgeo.Base.{
  Bytes, bytes_eq, bytes_eq_iff, ascii, pos, All, Map, In, lookup, remove, insert, lookup-remove,
  lookup-insert, ◌==◌, if◌then◌else◌, ==_iff, Bool-cases, ℕ, ◌<◌, ◌≡◌, refl, sym, ap, inl, inr,
  Bool, true, false, Option, none, some, List, [], ◌∷◌, ◌++◌, map, arith, bytes_key,
}
use mathlib.Core.Path.{subst}
use redgeo.Exec.{Exec, ok}
use redgeo.Keyspace.{Keyspace, Works, is_some}
use redgeo.Keyspace.Node.{
  Node, keyspace, probe, read_meta, read_slots, node_query, slots_of, winning_meta, probe_meta,
}
use redgeo.Txn
use redgeo.Slot.{winner, winner_from}
use redgeo.Keyspace.Lawful.{LawfulBackend, other_live, view, kind, node-Works}
use redgeo.Keys.Paths.{path_of, IsSegment, Cleans, IsName}
use redgeo.Hlc.{zero_stamp}
use redgeo.Meta.{Meta}
use redgeo.Txn.{Backend, Fetched, value, Probed, known, Entry, has_prefix}
use redgeo.SetRepo.Contents.{Canonical}
use redgeo.SetRepo.Steps.{IsSetKey}

abbrev pub Data : Type 0
Data = Map Bytes Bytes

unfoldable pub fetched : Option Bytes → Fetched
fetched none = Fetched.not_found
fetched (some v) = value v

unfoldable pub under : Data → Bytes → List Entry
under [] p = []
under ((k, v) ∷ d) p =
    let rest = under d p in if has_prefix k p then record { key = k; val = v } ∷ rest else rest

unfoldable abbrev pub plain : Backend Data (Unit {0})
unfolding fetched under
plain = record {
  put = λ d k v. some (insert k v d);
  delete = λ d k. some (remove k d);
  get = λ d k. fetched (lookup k d);
  has = λ d k. known (is_some (lookup k d));
  query = λ d p keys_only. some (under d p);
  batch = λ d. some tt;
  batch_put = λ b k v. some tt;
  batch_delete = λ b k. some tt;
  commit = λ d b. some d;
}

under_sound :
    (d all : Data) (p : Bytes)
    → ((k : Bytes) → is_some (lookup k d) ≡ true → is_some (lookup k all) ≡ true)
    → All (λ e. (has_prefix e.key p ≡ true) × (is_some (lookup e.key all) ≡ true)) (under d p)
unfolding under lookup
under_sound [] all p sub = tt
under_sound ((k, v) ∷ d) all p sub =
    let self : bytes_eq k k ≡ true = (bytes_eq_iff k k).1 refl in
    let rest = under_sound d all p (λ j there. sub j (ground (arith, there))) in
    elim (Bool-cases (has_prefix k p)) [
      | inl begins ↦ rw (begins, All) ((begins, sub k (rw self refl)), rest)
      | inr differs ↦ rw (differs, All) rest
    ]

under_complete :
    (d : Data) (p k : Bytes)
    → has_prefix k p ≡ true
    → is_some (lookup k d) ≡ true
    → In k (map (λ e. e.key) (under d p))
unfolding under lookup
under_complete [] p k begins there = absurd (cc there)
under_complete ((j, v) ∷ d) p k begins there = elim (Bool-cases (bytes_eq j k)) [
  | inl same ↦
      let is_k = (bytes_eq_iff j k).0 same in
      let first : has_prefix j p ≡ true = subst (λ i. has_prefix i p ≡ true) (sym is_k) begins in
      rw first (inl (sym is_k))
  | inr other ↦
      let rest = under_complete d p k begins (ground (arith, there)) in
      elim (Bool-cases (has_prefix j p)) [
        | inl first ↦ rw first (inr rest)
        | inr differs ↦ rw differs rest
      ]
]

-- A path without its last slash.
unfoldable pub clean : Bytes → Bytes
clean [] = []
clean (c ∷ []) = if c == b'/' then [] else c ∷ []
clean (c ∷ d ∷ cs) = c ∷ clean (d ∷ cs)

clean-kept :
    (s : Bytes) (segs : List Bytes)
    → IsSegment s
    → All IsSegment segs
    → clean (s ++ path_of segs) ≡ s ++ path_of segs
unfolding clean
clean-kept [] segs h k = absurd (omega (arith, h.0))
clean-kept (c ∷ []) [] h k = elim (Bool-cases (c == b'/')) [
  | inl slash ↦ absurd (h.1.0.1 ((==_iff c b'/').0 slash))
  | inr other ↦ rw other refl
]
clean-kept (c ∷ []) ([] ∷ segs) h k = absurd (omega (arith, k.0.0))
clean-kept (c ∷ []) ((d ∷ t) ∷ segs) h k = ap (λ x. c ∷ b'/' ∷ x) (clean-kept (d ∷ t) segs k.0 k.1)
clean-kept (c ∷ d ∷ s) segs h k = ap (◌∷◌ c) (clean-kept (d ∷ s) segs (omega arith, h.1.1) k)

clean-slash : (xs : Bytes) → clean (xs ++ ascii "/") ≡ xs
unfolding clean
clean-slash [] = refl
clean-slash (c ∷ []) = refl
clean-slash (c ∷ d ∷ xs) = ap (◌∷◌ c) (clean-slash (d ∷ xs))

clean-path : (segs : List Bytes) → All IsSegment segs → clean (path_of segs) ≡ path_of segs
unfolding clean
clean-path [] h = refl
clean-path ([] ∷ segs) h = absurd (omega (arith, h.0.0))
clean-path ((c ∷ s) ∷ segs) h = ap (◌∷◌ b'/') (clean-kept (c ∷ s) segs h.0 h.1)

pub clean-Cleans : Cleans clean
clean-Cleans = record { kept = clean-path; slash = λ segs h long. clean-slash (path_of segs) }

pub plain-Lawful : LawfulBackend plain (λ d k. lookup k d)
unfolding plain
plain-Lawful = record {
  after_put = λ d k v. insert k v d;
  put_ok = λ d k v. refl;
  put_content = λ d k v j. lookup-insert k j v d;
  after_delete = λ d k. remove k d;
  delete_ok = λ d k. refl;
  delete_content = λ d k j. lookup-remove k j d;
  has_content = λ d k. refl;
  listed = λ d p keys_only. under d p;
  query_ok = λ d p keys_only. refl;
  listed_sound = λ d p keys_only. under_sound d d p (λ k there. there);
  listed_complete = λ d p keys_only k. under_complete d p k;
}

unfoldable pub no_other : Node Data → Bytes → Meta → Bool
no_other n k m = false

abbrev pub replica : Bytes
replica = ascii "n1"

pub replica-IsName : IsName replica
replica-IsName = ((omega arith, (omega arith, tt)), omega arith)

abbrev pub other : Bytes → Meta → Exec (Node Data) Bool
other = other_live plain-Lawful clean-Cleans replica replica-IsName (pos 0) no_other

abbrev pub ks : Keyspace (Node Data)
ks = keyspace plain clean replica (pos 0) other

abbrev pub works :
    Works ks
      (view plain-Lawful clean-Cleans replica replica-IsName (pos 0) no_other)
      (kind plain-Lawful clean-Cleans replica replica-IsName (pos 0) no_other)
works = node-Works plain-Lawful clean-Cleans replica replica-IsName (pos 0) no_other

abbrev pub empty_node : Node Data
empty_node = record { eng = []; clock = record { last = zero_stamp }; wall_ms = pos 1000 }

pub empty-Canonical : Canonical works clean-Cleans (pos 0) empty_node
unfolding lookup
empty-Canonical key k h begins there = absurd (cc there)

pub name : (c : ℕ) → c < 256 → IsName (c ∷ [])
name c h = ((h, tt), omega arith)

abbrev pub key_a : Bytes
key_a = ascii "a"

pub key_a-IsName : IsName key_a
key_a-IsName = name 97 (omega arith)

abbrev pub key_b : Bytes
key_b = ascii "b"

pub key_b-IsName : IsName key_b
key_b-IsName = name 98 (omega arith)

pub read_as :
    (key : Bytes) (t : Option ℕ) (n : Node Data)
    → probe plain clean replica (pos 0) other key n ≡ (ok t, n)
    → kind plain-Lawful clean-Cleans replica replica-IsName (pos 0) no_other n key ≡ t
unfolding keyspace
read_as key t n done = cc (done, works.probed key n)

pub empty-IsSetKey : (key : Bytes) → IsSetKey works clean-Cleans (pos 0) empty_node key
unfolding probe read_meta read_slots node_query Txn.query under slots_of winning_meta winner
    winner_from probe_meta plain
empty-IsSetKey key = inl (read_as key none empty_node refl)
