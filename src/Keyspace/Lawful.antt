-- ===== src/Keyspace/Lawful.antt =====
-- crdtstore/store.go, meta.go and probe.go: over a datastore that works, the node is a keyspace that
-- works.
use redgeo.Base.{
  Bytes, bytes_eq, bytes_eq_iff, ℤ, length, All, In, ltb, ◌==◌, if◌then◌else◌, Bool-cases, ℕ, ◌≡◌,
  refl, ap, ◌∙◌, inl, inr, Bool, true, false, Option, none, some, List, [], map, bytes_key,
}
use redgeo.Exec.{Exec, ok, pure, ◌>>=◌}
use redgeo.Keyspace.{Works, is_some, is_meta, type_string, type_set, type_list}
use redgeo.Keyspace.Node.{
  Node, keyspace, node_put, node_del, node_has, node_query, write_slot, write_meta, delete_meta,
  probe, read_meta, read_slots, slots_of, winning_meta, is_live, string_live, probe_meta,
  any_prefix, expired,
}
use redgeo.Keys.{
  meta_base, meta_slot, str_base, counter_base, hll_base, set_base, list_base, stream_last_base,
}
use redgeo.Keys.Paths.{Cleans, IsName}
use redgeo.Keys.Members.{meta_slot-meta}
use redgeo.Hlc
use redgeo.Slot.{encode_slot, tag_present, tag_deleted}
use redgeo.Meta.{Meta, encode_meta, is_counter, is_hll, flavor_bitmap}
use redgeo.Txn
use redgeo.Txn.{Backend, Entry, Probed, known, has_prefix}

-- What go-datastore documents, where no call fails: `content` is the value under a key.
pub record LawfulBackend {D B : Type 0} (be : Backend D B) (content : D → Bytes → Option Bytes)
    : Type 0 where
  pub after_put : D → Bytes → Bytes → D
  pub put_ok : (d : D) (k v : Bytes) → be.put d k v ≡ some (after_put d k v)
  pub put_content :
      (d : D) (k v j : Bytes)
      → content (after_put d k v) j ≡ (if bytes_eq k j then some v else content d j)
  pub after_delete : D → Bytes → D
  pub delete_ok : (d : D) (k : Bytes) → be.delete d k ≡ some (after_delete d k)
  pub delete_content :
      (d : D) (k j : Bytes)
      → content (after_delete d k) j ≡ (if bytes_eq k j then none else content d j)
  pub has_content : (d : D) (k : Bytes) → be.has d k ≡ known (is_some (content d k))
  pub listed : D → Bytes → Bool → List Entry
  pub query_ok :
      (d : D) (p : Bytes) (keys_only : Bool) → be.query d p keys_only ≡ some (listed d p keys_only)
  pub listed_sound :
      (d : D) (p : Bytes) (keys_only : Bool)
      → All
          (λ e. (has_prefix e.key p ≡ true) × (is_some (content d e.key) ≡ true))
          (listed d p keys_only)
  pub listed_complete :
      (d : D) (p : Bytes) (keys_only : Bool) (k : Bytes)
      → has_prefix k p ≡ true
      → is_some (content d k) ≡ true
      → In k (map (λ e. e.key) (listed d p keys_only))

module _ {D B : Type 0} {be : Backend D B} {content : D → Bytes → Option Bytes}
    (lawful : LawfulBackend be content) {new_key : Bytes → Bytes} (cleans : Cleans new_key)
    (replica : Bytes) (named : IsName replica) (db : ℤ)
    -- the liveness of the types that are not read here
    (live : Node D → Bytes → Meta → Bool) where
  unfoldable pub other_live : Bytes → Meta → Exec (Node D) Bool
  other_live k m n = (ok (live n k m), n)

  abbrev pub view : Node D → Bytes → Option Bytes
  view n k = content n.eng k

  -- A read answers and changes nothing.
  abbrev Reads : {A : Type 0} → Exec (Node D) A → Type 0
  Reads {A = A} m = (n : Node D) → (a : A) × (m n ≡ (ok a, n))

  pure-Reads : {A : Type 0} (a : A) → Reads (pure a)
  pure-Reads a n = (a, refl)

  bind-Reads :
      {A C : Type 0} (m : Exec (Node D) A) (f : A → Exec (Node D) C)
      → Reads m
      → ((a : A) → Reads (f a))
      → Reads (m >>= f)
  bind-Reads m f reads next n =
      let (a, got) = reads n in let (c, gets) = next a n in (c, rw got gets)

  if-Reads :
      {A : Type 0} (b : Bool) (m m' : Exec (Node D) A)
      → Reads m
      → Reads m'
      → Reads (if b then m else m')
  if-Reads true m m' h k = h
  if-Reads false m m' h k = k

  query_lem :
      (p : Bytes) (keys_only : Bool) (n : Node D)
      → node_query be p keys_only n ≡ (ok (lawful.listed n.eng p keys_only), n)
  unfolding node_query Txn.query
  query_lem p keys_only n = rw (lawful.query_ok n.eng p keys_only, node_query, Txn.query) refl

  any_prefix-Reads : (p : Bytes) → Reads (any_prefix be p)
  unfolding any_prefix
  any_prefix-Reads p n = (ltb 0 (length (lawful.listed n.eng p true)), rw (query_lem p true n) refl)

  read_slots-Reads : (base : Bytes) → Reads (read_slots be base)
  unfolding read_slots
  read_slots-Reads base n =
      (slots_of [] (lawful.listed n.eng base false), rw (query_lem base false n) refl)

  is_live-Reads : (key : Bytes) (m : Meta) → Reads (is_live be new_key replica db other_live key m)
  unfolding is_live string_live other_live
  is_live-Reads key m =
      if-Reads (m.type_id == type_string) _ _
        (if-Reads (is_counter m.flavor) _ _ (any_prefix-Reads (counter_base db key)) (
          if-Reads (is_hll m.flavor) _ _ (any_prefix-Reads (hll_base db key)) (
            if-Reads (m.flavor == flavor_bitmap) _ _ (λ n. (live n key m, refl))
              (bind-Reads (read_slots be (str_base db key)) _ (read_slots-Reads (str_base db key))
                (λ cands. pure-Reads _)))))
        (if-Reads (m.type_id == type_set) _ _ (any_prefix-Reads (set_base db key)) (
          if-Reads (m.type_id == type_list) _ _ (any_prefix-Reads (list_base db key)) (
            if-Reads (m.type_id == 6) _ _ (any_prefix-Reads (stream_last_base db key))
              (λ n. (live n key m, refl)))))

  probe_meta-Reads :
      (key : Bytes) (found : Option Meta)
      → Reads (probe_meta be new_key replica db other_live key found)
  unfolding probe_meta
  probe_meta-Reads key none n = (none, refl)
  probe_meta-Reads key (some m) n =
      elim (Bool-cases (expired be new_key replica db other_live n.wall_ms m)) [
        | inl gone ↦ (none, rw gone refl)
        | inr kept ↦
            let (live, got) = is_live-Reads key m n in
            ((if live then some m.type_id else none), rw kept (rw got refl))
      ]

  probe-Reads : (key : Bytes) → Reads (probe be new_key replica db other_live key)
  unfolding probe read_meta
  probe-Reads key =
      bind-Reads (read_meta be new_key replica db other_live key) _
        (bind-Reads (read_slots be (meta_base db key)) _ (read_slots-Reads (meta_base db key))
          (λ cands. pure-Reads (winning_meta cands)))
        (probe_meta-Reads key)

  put_step :
      (k v : Bytes) (n : Node D)
      → node_put be k v n ≡ (ok tt, record n { eng = lawful.after_put n.eng k v })
  unfolding node_put Txn.put
  put_step k v n = rw (lawful.put_ok n.eng k v) refl

  del_step :
      (k : Bytes) (n : Node D)
      → node_del be k n ≡ (ok tt, record n { eng = lawful.after_delete n.eng k })
  unfolding node_del Txn.del
  del_step k n = rw (lawful.delete_ok n.eng k) refl

  has_step : (k : Bytes) (n : Node D) → node_has be k n ≡ (ok (is_some (content n.eng k)), n)
  unfolding node_has Txn.has
  has_step k n = rw (lawful.has_content n.eng k, node_has, Txn.has) refl

  -- A slot of the metadata is written where no data are.
  slot_view :
      (k : Bytes) (tag : ℕ) (val : Bytes) (n : Node D) (j : Bytes)
      → IsName k
      → is_meta j ≡ false
      → view (write_slot be (meta_slot new_key db k replica) tag val n).1 j ≡ view n j
  unfolding write_slot
  slot_view k tag val n j h apart =
      let slot = meta_slot new_key db k replica in
      let clock = Hlc.now n.wall_ms n.clock in
      let written = encode_slot (record { stamp = clock.last; tag = tag; value = val }) in
      rw (put_step slot written (record n { clock = clock })) (
        lawful.put_content n.eng slot written j ∙ elim (Bool-cases (bytes_eq slot j)) [
          | inl this ↦
              absurd (
                cc
                  (apart, meta_slot-meta cleans db k replica h named, (bytes_eq_iff slot j).0 this))
          | inr other ↦ rw other refl
        ])

  -- the type of a key as `probe` answers it
  pub kind : Node D → Bytes → Option ℕ
  kind n key = (probe-Reads key n).0

  -- Over a datastore that finds what was put and not deleted, lists what is under a prefix, and does
  -- not fail, the node's probe, reads, writes and metadata have the laws of a working keyspace: each
  -- succeeds, reads answer what is stored and change nothing, and writes change their own slot only.
  pub node-Works : Works (keyspace be new_key replica db other_live) view kind
  unfolding keyspace kind write_meta delete_meta write_slot
  node-Works = record {
    probed = λ k n. (probe-Reads k n).1;
    has_it = has_step;
    put_ok = λ k v n. ap (λ r. r.0) (put_step k v n);
    put_view = λ k v n j. rw (put_step k v n) (lawful.put_content n.eng k v j);
    del_ok = λ k n. ap (λ r. r.0) (del_step k n);
    del_view = λ k n j. rw (del_step k n) (lawful.delete_content n.eng k j);
    write_meta_ok = λ k m n. ap (λ r. r.0) (put_step _ _ _);
    write_meta_view = λ k m n j h apart. slot_view k tag_present (encode_meta m) n j h apart;
    delete_meta_view = λ k n j h apart. slot_view k tag_deleted [] n j h apart;
    listed = λ p keys_only n. lawful.listed n.eng p keys_only;
    query_ok = λ p keys_only n. query_lem p keys_only n;
    listed_sound = λ p keys_only n. lawful.listed_sound n.eng p keys_only;
    listed_complete = λ p keys_only n k. lawful.listed_complete n.eng p keys_only k;
  }
