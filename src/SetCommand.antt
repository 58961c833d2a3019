-- ===== src/SetCommand.antt =====
-- command/string/set.go: ParseSet, and the options that Set.Run hands to the store.
pub mod Options
use redgeo.Base.{
  Bytes, ascii, ℤ, ◌-ℤ◌, ltz, pos, negsuc, if◌then◌else◌, ℕ, ◌+◌, ◌*◌, ◌/◌, Bool, true, false,
  Option, none, some, List, [], ◌∷◌, u64, i64,
}
use redgeo.Parser
use redgeo.Parser.{Parser, Error, string, int, flag, named, one_of}
use redgeo.Parser.Pipeline.{run}

-- The command as the parsers fill it in, with the local variables of ParseSet.
pub record Draft : Type 0 where
  pub key : Bytes
  pub value : Bytes
  pub if_nx : Bool
  pub if_xx : Bool
  pub get : Bool
  pub keep_ttl : Bool
  pub ttl_sec : ℤ
  pub ttl_ms : ℤ
  pub at_sec : ℤ
  pub at_ms : ℤ

abbrev pub blank : Draft
blank = record {
  key = [];
  value = [];
  if_nx = false;
  if_xx = false;
  get = false;
  keep_ttl = false;
  ttl_sec = pos 0;
  ttl_ms = pos 0;
  at_sec = pos 0;
  at_ms = pos 0;
}

abbrev pub nx : Parser Draft
nx = flag (ascii "nx") (λ d. record d { if_nx = true })

abbrev pub xx : Parser Draft
xx = flag (ascii "xx") (λ d. record d { if_xx = true })

abbrev pub ttl_parsers : List (Parser Draft)
ttl_parsers =
    named (ascii "ex") (int (λ n d. record d { ttl_sec = n }) ∷ [])
    ∷ named (ascii "px") (int (λ n d. record d { ttl_ms = n }) ∷ [])
    ∷ named (ascii "exat") (int (λ n d. record d { at_sec = n }) ∷ [])
    ∷ named (ascii "pxat") (int (λ n d. record d { at_ms = n }) ∷ [])
    ∷ flag (ascii "keepttl") (λ d. record d { keep_ttl = true })
    ∷ []

abbrev pub set_parsers : List (Parser Draft)
set_parsers =
    string (λ a d. record d { key = a })
    ∷ string (λ a d. record d { value = a })
    ∷ one_of (nx ∷ xx ∷ [])
    ∷ flag (ascii "get") (λ d. record d { get = true })
    ∷ one_of ttl_parsers
    ∷ []

-- The expiry of a Set: `ttl` is a Duration in nanoseconds, an int64; `at` is a time in Unix
-- milliseconds, and `none` stands for the zero time.
pub record SetCmd : Type 0 where
  pub draft : Draft
  pub ttl : ℤ
  pub at : Option ℤ

-- int64 multiplication of a positive factor
unfoldable pub times_i64 : ℤ → ℕ → ℤ
times_i64 (pos n) k = i64 (u64 (pos (n * k)))
times_i64 (negsuc n) k = i64 (u64 (pos 0 -ℤ pos ((n + 1) * k)))

-- Time.UnixMilli of a number of nanoseconds, rounded down
floor_ms : ℤ → ℤ
floor_ms (pos n) = pos (n / 1000000)
floor_ms (negsuc n) = negsuc (n / 1000000)

unfoldable pub with_expiry : Draft → SetCmd
unfolding floor_ms times_i64
with_expiry d =
    if ltz (pos 0) d.ttl_sec
    then record { draft = d; ttl = times_i64 d.ttl_sec 1000000000; at = none }
    else if ltz (pos 0) d.ttl_ms
    then record { draft = d; ttl = times_i64 d.ttl_ms 1000000; at = none }
    else if ltz (pos 0) d.at_sec
    then record { draft = d; ttl = pos 0; at = some (times_i64 d.at_sec 1000) }
    else if ltz (pos 0) d.at_ms
    then record { draft = d; ttl = pos 0; at = some (floor_ms (times_i64 d.at_ms 1000000)) }
    else record { draft = d; ttl = pos 0; at = none }

pub data SetError : Type 0 where
  parse_error : Error → SetError
  invalid_expire_time : SetError

pub data Parsed : Type 0 where
  parsed : SetCmd → Parsed
  refused : SetError → Parsed

checked : Option Error × Draft → Parsed
checked (some e, d) = refused (parse_error e)
checked (none, d) =
    if ltz (with_expiry d).ttl (pos 0) then refused invalid_expire_time else parsed (with_expiry d)

-- ParseSet
unfoldable pub parse_set : List Bytes → Parsed
unfolding checked with_expiry
parse_set args = checked (run 2 set_parsers blank args)
