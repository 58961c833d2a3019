-- ===== src/Scan/Cursor.antt =====
-- Where a cursor leads: the name that it was given for, and the token in the table.
use redgeo.Base.Maps.{nat_key}
use redgeo.Base.{
  Bytes, compare_bytes, Bytes-IsOrder, bytes_eq_iff, ℤ, lez, pos, negsuc, length, get_or, All,
  lookup, lookup-insert, Bool-cases, Option-cases, ℕ, zero, suc, ◌+◌, ◌<◌, Ordering, ◌≡◌, refl, ap,
  ◌∙◌, ◌≢◌, inl, inr, false, some, List, [], ◌∷◌, arith, u64_mod, u64, i64, bytes_key,
}
use redgeo.Scan.{
  Query, ResumeEntry, ResumeTable, search_strings, after_last, expiry, token_after, alloc, get,
  free, gc, resumed, start_of, freed,
}

-- Each name comes before all that follow it.
abbrev pub Ascending : List Bytes → Type 0
Ascending [] = Unit
Ascending (n ∷ names) = All (λ m. compare_bytes n m ≡ Ordering.lt) names × Ascending names

All-get_or :
    (P : Bytes → Type 0) (xs : List Bytes) (i : ℕ) → All P xs → i < length xs → P (get_or xs i [])
All-get_or P [] i h below = absurd (omega arith)
All-get_or P (x ∷ xs) zero h below = h.0
All-get_or P (x ∷ xs) (suc i) h below = All-get_or P xs i h.1 (omega arith)

search_strings-get_or :
    (names : List Bytes) (i : ℕ)
    → Ascending names
    → i < length names
    → search_strings (get_or names i []) names ≡ i
unfolding search_strings
search_strings-get_or [] i h below = absurd (omega arith)
search_strings-get_or (n ∷ names) zero h below = rw (Bytes-IsOrder.self n, search_strings) refl
search_strings-get_or (n ∷ names) (suc i) h below =
    let before = All-get_or (λ m. compare_bytes n m ≡ Ordering.lt) names i h.0 (omega arith) in
    rw (before, search_strings) (ap suc (search_strings-get_or names i h.1 (omega arith)))

pub after_last-get_or :
    (names : List Bytes) (i : ℕ)
    → Ascending names
    → i < length names
    → after_last (get_or names i []) names ≡ i + 1
unfolding after_last
after_last-get_or names i h below =
    rw (search_strings-get_or names i h below)
      (ground (arith, bytes_eq_iff (get_or names i []) (get_or names i [])))

u64-i64 : (w : ℕ) → w < u64_mod → u64 (i64 w) ≡ w
u64-i64 w h = ground arith

token_after-lt : (next : ℕ) → token_after next < u64_mod
unfolding token_after
token_after-lt next = ground arith

pub token_after-pos : (next : ℕ) → 0 < token_after next
unfolding token_after
token_after-pos next = ground arith

pub i64-pos : (w : ℕ) → 0 < w → i64 w ≢ pos 0
i64-pos w h e = ground (arith, e)

-- Each time is before the expiry of a cursor that was given at the time before it.
abbrev pub Timely : ℤ → List ℤ → Type 0
Timely ttl [] = Unit
Timely ttl (now ∷ []) = Unit
Timely ttl (now ∷ now' ∷ times) = (lez (expiry now ttl) now' ≡ false) × Timely ttl (now' ∷ times)

get-found :
    (now : ℤ) (tok : ℕ) (e : ResumeEntry) (rt : ResumeTable)
    → lookup tok rt.entries ≡ some e
    → lez e.expires_ms now ≡ false
    → (get now tok rt).0 ≡ some (record e { expires_ms = expiry now rt.ttl_ms })
unfolding get
get-found now tok e rt found fresh = rw (found, get) (rw fresh refl)

lookup-alloc :
    (now : ℤ) (e : ResumeEntry) (rt : ResumeTable)
    → lookup (token_after rt.next) (alloc now e rt).1.entries
      ≡ some (record e { expires_ms = expiry now rt.ttl_ms })
unfolding alloc
lookup-alloc now e rt =
    lookup-insert (token_after rt.next) (token_after rt.next)
      (record e { expires_ms = expiry now rt.ttl_ms }) (gc now rt).entries
    ∙ ground arith

start_of-nonzero :
    (now : ℤ) (q : Query) (cursor : ℤ) (names : List Bytes) (rt : ResumeTable)
    → cursor ≢ pos 0
    → (start_of now q cursor names rt).0 ≡ resumed q names (get now (u64 cursor) rt).0
unfolding start_of
start_of-nonzero now q (pos zero) names rt h = absurd (h refl)
start_of-nonzero now q (pos (suc n)) names rt h = refl
start_of-nonzero now q (negsuc n) names rt h = refl

resumed-same :
    (q : Query) (names : List Bytes) (e : ResumeEntry)
    → e.scope_key ≡ q.key
    → e.db ≡ q.db
    → resumed q names (some e) ≡ after_last e.last names
unfolding resumed
resumed-same q names e key db = rw key (rw db (ground (arith, bytes_eq_iff q.key q.key)))

-- A token that was given for a query's last name leads behind that name, while it has not expired.
pub start_of-alloc :
    (now now' : ℤ) (q : Query) (e : ResumeEntry) (names : List Bytes) (rt : ResumeTable)
    → e.scope_key ≡ q.key
    → e.db ≡ q.db
    → lez (expiry now rt.ttl_ms) now' ≡ false
    → (start_of now' q (i64 (token_after rt.next)) names (alloc now e rt).1).0
      ≡ after_last e.last names
start_of-alloc now now' q e names rt key db fresh =
    let e' = record e { expires_ms = expiry now rt.ttl_ms } in
    start_of-nonzero now' q (i64 (token_after rt.next)) names (alloc now e rt).1
      (i64-pos (token_after rt.next) (token_after-pos rt.next))
    ∙ rw (u64-i64 (token_after rt.next) (token_after-lt rt.next)) (
        rw
          (get-found now' (token_after rt.next) e' (alloc now e rt).1 (lookup-alloc now e rt) fresh)
          (resumed-same q names (record e' { expires_ms = expiry now' (alloc now e rt).1.ttl_ms })
            key db))

get-ttl : (now : ℤ) (tok : ℕ) (rt : ResumeTable) → (get now tok rt).1.ttl_ms ≡ rt.ttl_ms
unfolding get
get-ttl now tok rt = elim (Option-cases (lookup tok rt.entries)) [
  | inl gone ↦ rw (gone, get) refl
  | inr (e, found) ↦ elim (Bool-cases (lez e.expires_ms now)) [
    | inl late ↦ rw (found, get) (rw late refl)
    | inr fresh ↦ rw (found, get) (rw fresh refl)
  ]
]

-- The table that a page hands on has the same time to live.
pub start_of-freed :
    (now : ℤ) (q : Query) (cursor : ℤ) (names : List Bytes) (rt : ResumeTable)
    → (freed cursor (start_of now q cursor names rt).1).ttl_ms ≡ rt.ttl_ms
unfolding start_of freed free
start_of-freed now q (pos zero) names rt = refl
start_of-freed now q (pos (suc n)) names rt = get-ttl now (u64 (pos (suc n))) rt
start_of-freed now q (negsuc n) names rt = get-ttl now (u64 (negsuc n)) rt
