-- ===== src/Txn.antt =====
-- crdtstore/txn.go: the write overlay of MULTI/EXEC. The datastore under it is a parameter.
pub mod Reads
use redgeo.Base.{
  Bytes, bytes_eq, be, Map, lookup, remove, insert, ◌==◌, if◌then◌else◌, Bool, true, false, ◌&&◌,
  ◌||◌, Option, none, some, List, [], ◌∷◌, ◌++◌, bytes_key,
}

-- What a read of a key comes to.
pub data Fetched : Type 0 where
  value : Bytes → Fetched
  not_found : Fetched
  failed : Fetched

pub data Probed : Type 0 where
  known : Bool → Probed
  probe_failed : Probed

-- query.Entry; no value is the empty one
pub record Entry : Type 0 where
  pub key : Bytes
  pub val : Bytes

-- The engine and its batch (go-ds-crdt). `none` is an error.
pub record Backend (D B : Type 0) : Type 0 where
  pub put : D → Bytes → Bytes → Option D
  pub delete : D → Bytes → Option D
  pub get : D → Bytes → Fetched
  pub has : D → Bytes → Probed
  pub query : D → Bytes → Bool → Option (List Entry)
  pub batch : D → Option B
  pub batch_put : B → Bytes → Bytes → Option B
  pub batch_delete : B → Bytes → Option B
  pub commit : D → B → Option D

-- txn
pub record Txn (B : Type 0) : Type 0 where
  pub batch : B
  pub puts : Map Bytes Bytes
  pub dels : Map Bytes Unit

-- The two fields of the Store that its reads and writes use.
pub record Store (D B : Type 0) : Type 0 where
  pub eng : D
  pub txn : Option (Txn B)

-- strings.HasPrefix
unfoldable pub has_prefix : Bytes → Bytes → Bool
has_prefix k [] = true
has_prefix [] (p ∷ ps) = false
has_prefix (c ∷ k) (p ∷ ps) = (c == p) && has_prefix k ps

-- entry
unfoldable pub entry : Bytes → Bytes → Bool → Entry
entry k v keys_only = record { key = k; val = if keys_only then [] else v }

module _ {D B : Type 0} (be : Backend D B) where
  -- BeginTxn
  unfoldable pub begin_txn : Store D B → Option (Store D B)
  begin_txn s = elim (be.batch s.eng) [
    | none ↦ none
    | some b ↦ some (record s { txn = some (record { batch = b; puts = []; dels = [] }) })
  ]

  -- its commit func; the store is the one that began it
  unfoldable pub commit : Store D B → Txn B → Option (Store D B)
  commit s t = elim (be.commit s.eng t.batch) [ none ↦ none | some d ↦ some (record s { eng = d }) ]

  unfoldable pub put : Bytes → Bytes → Store D B → Option (Store D B)
  put k v s = elim s.txn [
    | none ↦ elim (be.put s.eng k v) [ none ↦ none | some d ↦ some (record s { eng = d }) ]
    | some t ↦ elim (be.batch_put t.batch k v) [
      | none ↦ none
      | some b ↦ some (record s {
        txn = some (record { batch = b; puts = insert k v t.puts; dels = remove k t.dels });
      })
    ]
  ]

  unfoldable pub del : Bytes → Store D B → Option (Store D B)
  del k s = elim s.txn [
    | none ↦ elim (be.delete s.eng k) [ none ↦ none | some d ↦ some (record s { eng = d }) ]
    | some t ↦ elim (be.batch_delete t.batch k) [
      | none ↦ none
      | some b ↦ some (record s {
        txn = some (record { batch = b; puts = remove k t.puts; dels = insert k tt t.dels });
      })
    ]
  ]

  unfoldable pub get : Store D B → Bytes → Fetched
  get s k = elim s.txn [
    | none ↦ be.get s.eng k
    | some t ↦ elim (lookup k t.dels) [
      | some u ↦ not_found
      | none ↦ elim (lookup k t.puts) [ some v ↦ value v | none ↦ be.get s.eng k ]
    ]
  ]

  unfoldable pub has : Store D B → Bytes → Probed
  has s k = elim s.txn [
    | none ↦ be.has s.eng k
    | some t ↦ elim (lookup k t.dels) [
      | some u ↦ known false
      | none ↦ elim (lookup k t.puts) [ some v ↦ known true | none ↦ be.has s.eng k ]
    ]
  ]

  -- The first loop of query: the entries of the engine under the overlay.
  unfoldable pub overlaid : Txn B → Bool → List Entry → List Entry
  unfolding entry
  overlaid t keys_only [] = []
  overlaid t keys_only (e ∷ base) =
      let rest = overlaid t keys_only base in
      elim (lookup e.key t.dels) [
        | some u ↦ rest
        | none ↦ elim (lookup e.key t.puts) [
          | some v ↦ entry e.key v keys_only ∷ rest
          | none ↦ e ∷ rest
        ]
      ]

  -- inBase
  unfoldable pub in_base : Bytes → List Entry → Bool
  in_base k [] = false
  in_base k (e ∷ base) = bytes_eq e.key k || in_base k base

  -- Its second loop: the keys that only the overlay has.
  unfoldable pub added : Txn B → Bytes → Bool → List Entry → Map Bytes Bytes → List Entry
  unfolding entry in_base has_prefix
  added t prefix keys_only base [] = []
  added t prefix keys_only base ((k, v) ∷ puts) =
      let rest = added t prefix keys_only base puts in
      if in_base k base then rest else elim (lookup k t.dels) [
        | some u ↦ rest
        | none ↦ if has_prefix k prefix then entry k v keys_only ∷ rest else rest
      ]

  unfoldable pub query : Store D B → Bytes → Bool → Option (List Entry)
  unfolding overlaid added
  query s prefix keys_only = elim (be.query s.eng prefix keys_only) [
    | none ↦ none
    | some base ↦ elim s.txn [
      | none ↦ some base
      | some t ↦ some (overlaid t keys_only base ++ added t prefix keys_only base t.puts)
    ]
  ]
