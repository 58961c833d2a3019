-- ===== src/Txn/Reads.antt =====
-- crdtstore/txn.go: what a transaction reads is what its commit makes.
use redgeo.Base.{
  Bytes, bytes_eq, lookup, remove, insert, lookup-remove, lookup-insert, if◌then◌else◌, Bool-cases,
  Option-cases, ◌≡◌, refl, sym, ◌∙◌, inl, inr, Option, none, some, List, [], ◌∷◌, arith, bytes_key,
}
use mathlib.Core.Path.{subst}
use mathlib.Core.Option.{some_inj}
use redgeo.Txn.{Backend, Txn, Store, Fetched, value, not_found, put, del, get, begin_txn, commit}

pub data Write : Type 0 where
  put_key : Bytes → Bytes → Write
  del_key : Bytes → Write

-- What a read comes to: by the deleted keys, the written ones and the engine.
over : Option {0} Unit → Option Bytes → Fetched → Fetched
over (some u) p base = not_found
over none (some v) base = value v
over none none base = base

module _ {D B : Type 0} (be : Backend D B) where
  -- The writes of an EXEC, one after the other.
  unfoldable pub run_writes : Store D B → List Write → Option (Store D B)
  run_writes s [] = some s
  run_writes s (put_key k v ∷ ws) = elim (put be k v s) [ none ↦ none | some s' ↦ run_writes s' ws ]
  run_writes s (del_key k ∷ ws) = elim (del be k s) [ none ↦ none | some s' ↦ run_writes s' ws ]

  -- What go-datastore documents of a batch: its writes take effect in their order at the commit.
  pub record AppliesInOrder (after : D → B → D) : Type 0 where
    pub commit_after : (d d' : D) (b : B) → be.commit d b ≡ some d' → d' ≡ after d b
    pub fresh : (d : D) (b : B) → be.batch d ≡ some b → after d b ≡ d
    pub get_put :
        (d : D) (b b' : B) (k j v : Bytes)
        → be.batch_put b k v ≡ some b'
        → be.get (after d b') j ≡ (if bytes_eq k j then value v else be.get (after d b) j)
    pub get_delete :
        (d : D) (b b' : B) (k j : Bytes)
        → be.batch_delete b k ≡ some b'
        → be.get (after d b') j ≡ (if bytes_eq k j then not_found else be.get (after d b) j)

  get-over :
      (s : Store D B) (t : Txn B) (j : Bytes)
      → s.txn ≡ some t
      → get be s j ≡ over (lookup j t.dels) (lookup j t.puts) (be.get s.eng j)
  unfolding get over
  get-over s t j is_txn = elim (Option-cases (lookup j t.dels)) [
    | inr (u, gone) ↦ cc
    | inl kept ↦ elim (Option-cases (lookup j t.puts)) [ inl old ↦ cc | inr (v, new) ↦ cc ]
  ]

  module _ {after : D → B → D} (laws : AppliesInOrder after) where
    -- The overlay reads what the batch would leave.
    abbrev ReadsAhead : D → Store D B → Type 0
    ReadsAhead d s =
        (s.eng ≡ d)
        × ((t : Txn B) × (s.txn ≡ some t) × ((k : Bytes) → get be s k ≡ be.get (after d t.batch) k))

    put-txn :
        (k v : Bytes) (s : Store D B) (t : Txn B) (b : B)
        → s.txn ≡ some t
        → be.batch_put t.batch k v ≡ some b
        → put be k v s
          ≡ some (record s {
            txn = some (record { batch = b; puts = insert k v t.puts; dels = remove k t.dels });
          })
    unfolding put
    put-txn k v s t b is_txn ok = cc

    put-over :
        (d : D) (k v j : Bytes) (s : Store D B) (t : Txn B) (b : B)
        → be.batch_put t.batch k v ≡ some b
        → s.txn ≡ some t
        → get be s j ≡ be.get (after d t.batch) j
        → get be
            (record s {
              txn = some (record { batch = b; puts = insert k v t.puts; dels = remove k t.dels });
            })
            j
          ≡ be.get (after d b) j
    unfolding over
    put-over d k v j s t b ok is_txn reads =
        get-over
          (record s {
            txn = some (record { batch = b; puts = insert k v t.puts; dels = remove k t.dels });
          })
          (record { batch = b; puts = insert k v t.puts; dels = remove k t.dels }) j refl
        ∙ rw (laws.get_put d t.batch b k j v ok) (
            rw (lookup-remove k j t.dels) (
              rw (lookup-insert k j v t.puts) (elim (Bool-cases (bytes_eq k j)) [
                | inl e ↦ rw e refl
                | inr e ↦ rw e (sym (get-over s t j is_txn) ∙ reads)
              ])))

    put-ReadsAhead :
        (d : D) (k v : Bytes) (s s' : Store D B)
        → ReadsAhead d s
        → put be k v s ≡ some s'
        → ReadsAhead d s'
    unfolding put get
    put-ReadsAhead d k v s s' (same, (t, is_txn, reads)) e =
        elim (Option-cases (be.batch_put t.batch k v)) [
          | inl fails ↦ absurd (ground (arith, e, is_txn, fails))
          | inr (b, ok) ↦
              subst (ReadsAhead d) (some_inj.0 (sym (put-txn k v s t b is_txn ok) ∙ e)) (
                same,
                (
                  (record { batch = b; puts = insert k v t.puts; dels = remove k t.dels }),
                  refl,
                  λ j. put-over d k v j s t b ok is_txn (reads j),
                ),
              )
        ]

    del-txn :
        (k : Bytes) (s : Store D B) (t : Txn B) (b : B)
        → s.txn ≡ some t
        → be.batch_delete t.batch k ≡ some b
        → del be k s
          ≡ some (record s {
            txn = some (record { batch = b; puts = remove k t.puts; dels = insert k tt t.dels });
          })
    unfolding del
    del-txn k s t b is_txn ok = cc

    del-over :
        (d : D) (k j : Bytes) (s : Store D B) (t : Txn B) (b : B)
        → be.batch_delete t.batch k ≡ some b
        → s.txn ≡ some t
        → get be s j ≡ be.get (after d t.batch) j
        → get be
            (record s {
              txn = some (record { batch = b; puts = remove k t.puts; dels = insert k tt t.dels });
            })
            j
          ≡ be.get (after d b) j
    unfolding over
    del-over d k j s t b ok is_txn reads =
        get-over
          (record s {
            txn = some (record { batch = b; puts = remove k t.puts; dels = insert k tt t.dels });
          })
          (record { batch = b; puts = remove k t.puts; dels = insert k tt t.dels }) j refl
        ∙ rw (laws.get_delete d t.batch b k j ok) (
            rw (lookup-insert k j tt t.dels) (
              rw (lookup-remove k j t.puts) (elim (Bool-cases (bytes_eq k j)) [
                | inl e ↦ rw e refl
                | inr e ↦ rw e (sym (get-over s t j is_txn) ∙ reads)
              ])))

    del-ReadsAhead :
        (d : D) (k : Bytes) (s s' : Store D B)
        → ReadsAhead d s
        → del be k s ≡ some s'
        → ReadsAhead d s'
    unfolding del get
    del-ReadsAhead d k s s' (same, (t, is_txn, reads)) e =
        elim (Option-cases (be.batch_delete t.batch k)) [
          | inl fails ↦ absurd (ground (arith, e, is_txn, fails))
          | inr (b, ok) ↦ subst (ReadsAhead d) (some_inj.0 (sym (del-txn k s t b is_txn ok) ∙ e)) (
            same,
            (
              (record { batch = b; puts = remove k t.puts; dels = insert k tt t.dels }),
              refl,
              λ j. del-over d k j s t b ok is_txn (reads j),
            ),
          )
        ]

    run_writes-ReadsAhead :
        (d : D) (ws : List Write) (s s' : Store D B)
        → ReadsAhead d s
        → run_writes s ws ≡ some s'
        → ReadsAhead d s'
    unfolding run_writes
    run_writes-ReadsAhead d [] s s' h e = subst (ReadsAhead d) (some_inj.0 e) h
    run_writes-ReadsAhead d (put_key k v ∷ ws) s s' h e = elim (Option-cases (put be k v s)) [
      | inl fails ↦ absurd (ground (arith, e, fails))
      | inr (s1, ok) ↦
          run_writes-ReadsAhead d ws s1 s' (put-ReadsAhead d k v s s1 h ok) (ground (arith, e, ok))
    ]
    run_writes-ReadsAhead d (del_key k ∷ ws) s s' h e = elim (Option-cases (del be k s)) [
      | inl fails ↦ absurd (ground (arith, e, fails))
      | inr (s1, ok) ↦
          run_writes-ReadsAhead d ws s1 s' (del-ReadsAhead d k s s1 h ok) (ground (arith, e, ok))
    ]

    begin_txn-ReadsAhead : (s s0 : Store D B) → begin_txn be s ≡ some s0 → ReadsAhead s.eng s0
    unfolding begin_txn get lookup
    begin_txn-ReadsAhead s s0 begins = elim (Option-cases (be.batch s.eng)) [
      | inl fails ↦ absurd (ground (arith, begins, fails))
      | inr (b, ok) ↦ subst (ReadsAhead s.eng) (some_inj.0 (cc (begins, ok))) (
        refl,
        ((record { batch = b; puts = []; dels = [] }), refl, λ j. rw (laws.fresh s.eng b ok) refl),
      )
    ]

    commit-batch :
        (s : Store D B) (t : Txn B) (d : D)
        → be.commit s.eng t.batch ≡ some d
        → commit be s t ≡ some (record s { eng = d })
    unfolding commit
    commit-batch s t d ok = cc

    get-committed :
        (s s' : Store D B) (t : Txn B) (k : Bytes)
        → s.txn ≡ none
        → commit be s t ≡ some s'
        → get be s' k ≡ be.get (after s.eng t.batch) k
    unfolding commit get
    get-committed s s' t k outside commits = elim (Option-cases (be.commit s.eng t.batch)) [
      | inl fails ↦ absurd (ground (arith, commits, fails))
      | inr (d, ok) ↦
          subst (λ x. get be x k ≡ be.get (after s.eng t.batch) k)
            (some_inj.0 (sym (commit-batch s t d ok) ∙ commits))
            (rw outside (rw⁻¹ (laws.commit_after s.eng d t.batch ok) refl))
    ]

    -- Any reads of a transaction, after any writes that all succeeded in it, are the reads of the
    -- store once the transaction has committed to it: the later commands of an EXEC read its
    -- earlier writes. The store was in no transaction, and the batch applies its writes in order.
    pub get-commit :
        (s s0 s1 s' : Store D B) (t : Txn B) (ws : List Write)
        → s.txn ≡ none
        → begin_txn be s ≡ some s0
        → run_writes s0 ws ≡ some s1
        → s1.txn ≡ some t
        → commit be s t ≡ some s'
        → (k : Bytes) → get be s1 k ≡ get be s' k
    get-commit s s0 s1 s' t ws outside begins runs is_txn commits k =
        let ahead = run_writes-ReadsAhead s.eng ws s0 s1 (begin_txn-ReadsAhead s s0 begins) runs in
        let its : ahead.1.0 ≡ t = some_inj.0 (sym ahead.1.1 ∙ is_txn) in
        ahead.1.2 k ∙ rw its (sym (get-committed s s' t k outside commits))
