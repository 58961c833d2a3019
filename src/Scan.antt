-- ===== src/Scan.antt =====
-- crdtstore/scan.go: the table that the cursors of a node resume from, and the paging of one
-- collection by HSCAN, SSCAN and ZSCAN. The wall clock and the glob matcher are arguments.
pub mod Paging
pub mod Cursor
pub mod Ending
pub mod Coverage
use redgeo.Base.Maps.{nat_key}
use redgeo.Base.{
  Bytes, compare_bytes, bytes_eq, ascii, ℤ, ◌+ℤ◌, lez, pos, negsuc, length, get_or, drop, Map,
  lookup, remove, insert, ltb, leb, ◌==◌, if◌then◌else◌, ℕ, zero, suc, ◌+◌, ◌*◌, ◌%◌, Ordering,
  Bool, true, false, ◌&&◌, ◌||◌, Option, none, some, List, [], ◌∷◌, ◌++◌, u64_mod, u64, i64,
  bytes_key,
}

pub record ResumeEntry : Type 0 where
  pub db : ℤ
  pub scope_key : Bytes
  pub partition : ℕ
  pub last : Bytes
  pub expires_ms : ℤ

pub record ResumeTable : Type 0 where
  pub next : ℕ
  pub entries : Map ℕ ResumeEntry
  pub ttl_ms : ℤ

-- newResumeTable
abbrev pub new_resume_table : ℤ → ResumeTable
new_resume_table ttl_ms = record { next = 0; entries = []; ttl_ms = ttl_ms }

-- nowMS() + rt.ttlMS, in int64
unfoldable pub expiry : ℤ → ℤ → ℤ
expiry now ttl_ms = i64 (u64 (now +ℤ ttl_ms))

-- gcLocked
unfoldable pub drop_expired : ℤ → Map ℕ ResumeEntry → Map ℕ ResumeEntry
drop_expired now [] = []
drop_expired now ((tok, e) ∷ entries) =
    let rest = drop_expired now entries in if lez e.expires_ms now then rest else (tok, e) ∷ rest

unfoldable pub gc : ℤ → ResumeTable → ResumeTable
unfolding drop_expired
gc now rt = record rt { entries = drop_expired now rt.entries }

-- the token after `next`, a uint64 that skips 0
unfoldable pub token_after : ℕ → ℕ
token_after next = if (next + 1) % u64_mod == 0 then 1 else (next + 1) % u64_mod

unfoldable pub alloc : ℤ → ResumeEntry → ResumeTable → ℕ × ResumeTable
unfolding gc token_after
alloc now e rt = (
  token_after rt.next,
  record (gc now rt) {
    next = token_after rt.next;
    entries =
        insert (token_after rt.next) (record e { expires_ms = expiry now rt.ttl_ms })
          (gc now rt).entries;
  },
)

unfoldable pub get : ℤ → ℕ → ResumeTable → Option ResumeEntry × ResumeTable
get now tok rt = elim (lookup tok rt.entries) [
  | none ↦ (none, record rt { entries = remove tok rt.entries })
  | some e ↦
      if lez e.expires_ms now then (none, record rt { entries = remove tok rt.entries }) else (
        some (record e { expires_ms = expiry now rt.ttl_ms }),
        record rt {
          entries = insert tok (record e { expires_ms = expiry now rt.ttl_ms }) rt.entries;
        },
      )
]

unfoldable pub free : ℕ → ResumeTable → ResumeTable
free tok rt = record rt { entries = remove tok rt.entries }

-- What scanPage is asked for, with the matcher.
pub record Query : Type 0 where
  pub db : ℤ
  pub key : Bytes
  pub count : ℤ
  pub pattern : Bytes
  pub glob : Bytes → Bytes → Bool

-- the count, by default 10
unfoldable pub page_size : ℤ → ℕ
page_size (pos zero) = 10
page_size (pos (suc n)) = suc n
page_size (negsuc n) = 10

-- Whether a name passes the pattern; none and * pass all
unfoldable pub keeps : Query → Bytes → Bool
keeps q name = length q.pattern == 0 || bytes_eq q.pattern (ascii "*") || q.glob name q.pattern

-- sort.SearchStrings: the first index whose name is not before `x`
unfoldable pub search_strings : Bytes → List Bytes → ℕ
search_strings x [] = 0
search_strings x (n ∷ names) =
    let i = search_strings x names in elim (compare_bytes n x) [ Ordering.lt ↦ suc i | _ ↦ 0 ]

-- where to go on after the name `last`
unfoldable pub after_last : Bytes → List Bytes → ℕ
after_last last names =
    let i = search_strings last names in
    if ltb i (length names) && bytes_eq (get_or names i []) last then i + 1 else i

-- where the page starts by what the table holds of the cursor
unfoldable pub resumed : Query → List Bytes → Option ResumeEntry → ℕ
resumed q names none = 0
resumed q names (some e) =
    if bytes_eq e.scope_key q.key && lez e.db q.db && lez q.db e.db
    then after_last e.last names
    else 0

-- the start of the page, and the table after the look at the cursor
unfoldable pub start_of : ℤ → Query → ℤ → List Bytes → ResumeTable → ℕ × ResumeTable
unfolding resumed
start_of now q (pos zero) names rt = (0, rt)
start_of now q cursor names rt =
    let (found, rt') = get now (u64 cursor) rt in (resumed q names found, rt')

-- the loop over the names from index `i`, with the `taken` matches so far
unfoldable pub page_from : Query → ℕ → ℕ → ℕ → List Bytes → List ℕ
page_from q count taken i [] = []
page_from q count taken i (n ∷ names) =
    let more = page_from q count (taken + 1) (i + 1) names in
    let skipped = page_from q count taken (i + 1) names in
    if keeps q n then if leb count (taken + 1) then i ∷ [] else i ∷ more else skipped

unfoldable pub last_of : List ℕ → Option ℕ
last_of [] = none
last_of (i ∷ []) = some i
last_of (i ∷ j ∷ page) = last_of (j ∷ page)

unfoldable pub freed : ℤ → ResumeTable → ResumeTable
unfolding free
freed (pos zero) rt = rt
freed cursor rt = free (u64 cursor) rt

-- The indexes of the page, the next cursor, and the table.
pub record Page : Type 0 where
  pub found : List ℕ
  pub cursor : ℤ
  pub table : ResumeTable

-- the end of scanPage: no cursor where nothing can be left, or else a new token
unfoldable pub close_page : ℤ → Query → List Bytes → List ℕ → ResumeTable → Page
unfolding alloc
close_page now q names page rt = elim (last_of page) [
  | none ↦ record { found = page; cursor = pos 0; table = rt }
  | some last ↦
      if ltb (length page) (page_size q.count) || last + 1 == length names
      then record { found = page; cursor = pos 0; table = rt }
      else (let (tok, rt') =
            alloc now
              (record {
                db = q.db;
                scope_key = q.key;
                partition = 0;
                last = get_or names last [];
                expires_ms = pos 0;
              })
              rt in
          record { found = page; cursor = i64 tok; table = rt' })
]

-- scanPage
unfoldable pub scan_page : ℤ → Query → ℤ → List Bytes → ResumeTable → Page
unfolding start_of page_from close_page freed
scan_page now q cursor names rt =
    let (start, rt') = start_of now q cursor names rt in
    close_page now q names (page_from q (page_size q.count) 0 start (drop start names))
      (freed cursor rt')

unfoldable pub joined : ℤ → List ℕ → List ℕ × Bool → List ℕ × Bool
joined (pos zero) found rest = (found, true)
joined cursor found (more, over) = (found ++ more, over)

-- A client that calls again with the cursor that it got, at the given times, until it gets 0: the
-- indexes of all pages, and whether it got 0.
unfoldable pub run_scan : List ℤ → Query → ℤ → List Bytes → ResumeTable → List ℕ × Bool
unfolding joined
run_scan [] q cursor names rt = ([], false)
run_scan (now ∷ times) q cursor names rt =
    let p = scan_page now q cursor names rt in
    joined p.cursor p.found (run_scan times q p.cursor names p.table)
