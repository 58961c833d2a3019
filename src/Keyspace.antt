-- ===== src/Keyspace.antt =====
-- crdtstore/probe.go, meta.go, store.go and txn.go, as the repositories use them: the reads and
-- writes of the Store in one logical database. The repositories take these as an interface.
pub mod Node
pub mod Lawful
use redgeo.Base.{
  Bytes, bytes_eq, ascii, pos, length, take, drop, All, In, ◌==◌, if◌then◌else◌, ℕ, ◌≡◌, Bool, true,
  false, Option, none, some, List, map, bytes_key,
}
use redgeo.Exec.{Error, key_type, Exec, pure, raise, ◌>>=◌, ok}
use redgeo.Meta.{Meta}
use redgeo.Keys.Paths.{IsName}
use redgeo.Txn.{Entry, has_prefix}

abbrev pub type_string : ℕ
type_string = 1

abbrev pub type_list : ℕ
type_list = 2

abbrev pub type_set : ℕ
type_set = 3

abbrev pub type_hash : ℕ
type_hash = 4

abbrev pub type_zset : ℕ
type_zset = 5

pub record Keyspace (S : Type 0) : Type 0 where
  -- the type of a live key
  pub probe : Bytes → Exec S (Option ℕ)
  pub query : Bytes → Bool → Exec S (List Entry)
  pub get : Bytes → Exec S (Option Bytes)
  pub has : Bytes → Exec S Bool
  pub put : Bytes → Bytes → Exec S (Unit {0})
  pub del : Bytes → Exec S (Unit {0})
  pub write_meta : Bytes → Meta → Exec S (Unit {0})
  pub delete_meta : Bytes → Exec S (Unit {0})

-- the metadata that the repositories write
abbrev pub meta_of : ℕ → Meta
meta_of type_id = record { type_id = type_id; flavor = 0; etime_ms = pos 0; epoch = 0 }

abbrev pub is_some {ℓ} : {A : Type ℓ} → Option A → Bool
is_some none = false
is_some (some a) = true

module _ {S : Type 0} (ks : Keyspace S) where
  -- ensureSetType and its like
  unfoldable pub ensure_type : ℕ → Bytes → Exec S (Unit {0})
  ensure_type wanted key = do
    found ← ks.probe key
    elim found [ none ↦ pure tt | some t ↦ if t == wanted then pure tt else raise key_type ]

-- strings.TrimPrefix
unfoldable pub trim_prefix : Bytes → Bytes → Bytes
trim_prefix k p = if has_prefix k p then drop (length p) k else k

abbrev pub is_meta : Bytes → Bool
is_meta k = bytes_eq (take 3 (drop 3 k)) (ascii "/m/")

-- A keyspace whose datastore works: no call fails, `view` is what is stored, `kind` the type of a
-- live key. Metadata are stored under /m/, in any bucket.
pub record Works {S : Type 0} (ks : Keyspace S) (view : S → Bytes → Option Bytes)
    (kind : S → Bytes → Option ℕ) : Type 0 where
  pub probed : (k : Bytes) (s : S) → ks.probe k s ≡ (ok (kind s k), s)
  pub has_it : (k : Bytes) (s : S) → ks.has k s ≡ (ok (is_some (view s k)), s)
  pub put_ok : (k v : Bytes) (s : S) → (ks.put k v s).0 ≡ ok tt
  pub put_view :
      (k v : Bytes) (s : S) (j : Bytes)
      → view (ks.put k v s).1 j ≡ (if bytes_eq k j then some v else view s j)
  pub del_ok : (k : Bytes) (s : S) → (ks.del k s).0 ≡ ok tt
  pub del_view :
      (k : Bytes) (s : S) (j : Bytes)
      → view (ks.del k s).1 j ≡ (if bytes_eq k j then none else view s j)
  pub write_meta_ok : (k : Bytes) (m : Meta) (s : S) → (ks.write_meta k m s).0 ≡ ok tt
  pub write_meta_view :
      (k : Bytes) (m : Meta) (s : S) (j : Bytes)
      → IsName k
      → is_meta j ≡ false
      → view (ks.write_meta k m s).1 j ≡ view s j
  pub delete_meta_view :
      (k : Bytes) (s : S) (j : Bytes)
      → IsName k
      → is_meta j ≡ false
      → view (ks.delete_meta k s).1 j ≡ view s j
  pub listed : (p : Bytes) (keys_only : Bool) (s : S) → List Entry
  pub query_ok :
      (p : Bytes) (keys_only : Bool) (s : S)
      → ks.query p keys_only s ≡ (ok (listed p keys_only s), s)
  pub listed_sound :
      (p : Bytes) (keys_only : Bool) (s : S)
      → All
          (λ e. (has_prefix e.key p ≡ true) × (is_some (view s e.key) ≡ true))
          (listed p keys_only s)
  pub listed_complete :
      (p : Bytes) (keys_only : Bool) (s : S) (k : Bytes)
      → has_prefix k p ≡ true
      → is_some (view s k) ≡ true
      → In k (map (λ e. e.key) (listed p keys_only s))
