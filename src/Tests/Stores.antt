-- ===== src/Tests/Stores.antt =====
-- crdtstore: a transaction over a datastore that is an association list, and a scan of three names.
use redgeo.Base.{
  Bytes, compare_bytes, bytes_eq, ascii, ℤ, ◌+ℤ◌, pos, Map, lookup, remove, insert, lookup-remove,
  lookup-insert, ◌≡◌, refl, sym, ap, ◌∙◌, Bool, true, false, Option, none, some, List, [], ◌∷◌,
  arith, bytes_key,
}
use mathlib.Core.Option.{some_inj}
use redgeo.Txn
use redgeo.Txn.{Backend, Txn, Store, Fetched, value, not_found, Probed, known, Entry, begin_txn}
use redgeo.Txn.Reads.{Write, put_key, del_key, run_writes, AppliesInOrder, get-commit}
use redgeo.Cms.{CmsParams, validate}
use redgeo.Scan.{Query, new_resume_table, expiry, run_scan}
use redgeo.Scan.Paging.{all_from}
use redgeo.Scan.Cursor.{Ascending, Timely}
use redgeo.Scan.Coverage.{run_scan-all}

abbrev Data : Type 0
Data = Map Bytes Bytes

fetched : Option Bytes → Fetched
fetched none = not_found
fetched (some v) = value v

present : Option Bytes → Bool
present none = false
present (some v) = true

listed : Data → List Entry
listed [] = []
listed ((k, v) ∷ d) = record { key = k; val = v } ∷ listed d

-- A batch is its writes, the last one first.
apply : List Write → Data → Data
apply [] d = d
apply (put_key k v ∷ ws) d = insert k v (apply ws d)
apply (del_key k ∷ ws) d = remove k (apply ws d)

abbrev plain : Backend Data (List Write)
unfolding fetched present listed apply
plain = record {
  put = λ d k v. some (insert k v d);
  delete = λ d k. some (remove k d);
  get = λ d k. fetched (lookup k d);
  has = λ d k. known (present (lookup k d));
  query = λ d prefix keys_only. some (listed d);
  batch = λ d. some [];
  batch_put = λ b k v. some (put_key k v ∷ b);
  batch_delete = λ b k. some (del_key k ∷ b);
  commit = λ d b. some (apply b d);
}

plain_after : Data → List Write → Data
plain_after d b = apply b d

plain-AppliesInOrder : AppliesInOrder plain plain_after
unfolding plain plain_after apply fetched
plain-AppliesInOrder = record {
  commit_after = λ d d' b e. sym (some_inj.0 e);
  fresh = λ d b e. rw (sym (some_inj.0 e)) refl;
  get_put = λ d b b' k j v e.
      rw (sym (some_inj.0 e)) (ap fetched (lookup-insert k j v (apply b d)) ∙ ground arith);
  get_delete = λ d b b' k j e.
      rw (sym (some_inj.0 e)) (ap fetched (lookup-remove k j (apply b d)) ∙ ground arith);
}

abbrev store : Store Data (List Write)
store = record { eng = (ascii "x", ascii "1") ∷ []; txn = none }

abbrev writes : List Write
writes = put_key (ascii "y") (ascii "2") ∷ del_key (ascii "x") ∷ []

abbrev opened : Store Data (List Write)
opened = record store { txn = some (record { batch = []; puts = []; dels = [] }) }

abbrev txn_done : Txn (List Write)
txn_done = record {
  batch = del_key (ascii "x") ∷ put_key (ascii "y") (ascii "2") ∷ [];
  puts = (ascii "y", ascii "2") ∷ [];
  dels = (ascii "x", tt) ∷ [];
}

begins : begin_txn plain store ≡ some opened
unfolding plain begin_txn
begins = refl

runs : run_writes plain opened writes ≡ some (record store { txn = some txn_done })
unfolding plain run_writes Txn.put Txn.del insert remove bytes_eq compare_bytes
runs = refl

abbrev after_commit : Store Data (List Write)
after_commit = record store { eng = (ascii "y", ascii "2") ∷ [] }

commits : Txn.commit plain store txn_done ≡ some after_commit
unfolding plain Txn.commit apply insert remove bytes_eq compare_bytes
commits = refl

get-commit_example :
    Txn.get plain (record store { txn = some txn_done }) (ascii "x")
    ≡ Txn.get plain after_commit (ascii "x")
get-commit_example =
    get-commit plain plain-AppliesInOrder store opened (record store { txn = some txn_done })
      after_commit txn_done writes refl begins runs refl commits (ascii "x")

abbrev names : List Bytes
names = ascii "a" ∷ ascii "b" ∷ ascii "c" ∷ []

names-Ascending : Ascending names
unfolding compare_bytes
names-Ascending = ((refl, (refl, tt)), ((refl, tt), (tt, tt)))

abbrev by_two : Query
by_two = record {
  db = pos 0;
  key = ascii "s";
  count = pos 2;
  pattern = [];
  glob = λ name pattern. false;
}

abbrev times : List ℤ
times = pos 1000 ∷ pos 1500 ∷ pos 2000 ∷ pos 2500 ∷ []

times-Timely : Timely (pos 60000) times
unfolding expiry ◌+ℤ◌
times-Timely = (refl, (refl, (refl, tt)))

run_scan-all_example :
    run_scan times by_two (pos 0) names (new_resume_table (pos 60000))
    ≡ (all_from by_two 0 names, true)
run_scan-all_example =
    run_scan-all times by_two names (new_resume_table (pos 60000)) names-Ascending times-Timely
      (omega arith)

abbrev sketch : CmsParams
sketch = record { width = pos 7; depth = pos 3 }

sketch_valid : validate sketch ≡ true
unfolding validate
sketch_valid = refl
