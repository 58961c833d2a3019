-- ===== src/Commands/Strings.antt =====
-- command/string: the commands of strings and of counters, parsed and run. SET is parsed in
-- SetCommand; those of bits and of HyperLogLogs are left out.
use redgeo.Base.{
  Bytes, ascii, ℤ, ltz, pos, length, Map, lookup, if◌then◌else◌, ℕ, Bool, true, false, not, ◌&&◌,
  Option, none, some, List, [], ◌∷◌, bytes_key,
}
use redgeo.Exec.{Result, ok, err, not_found}
use redgeo.Keyspace.{Keyspace}
use redgeo.Parser.{Parser, string, int, float, any_map, invalid_arg_num}
use redgeo.SetCommand.{SetCmd, times_i64}
use redgeo.ListRepo.{neg64}
use redgeo.Counters.{Number}
use redgeo.StrRepo.{
  Registers, Sketches, SetOpts, SetOut, milliseconds, read_value, get_many, set_many, set_expire,
  set_with, incr, incr_by_float,
}
use redgeo.Commands.{
  Reply, write_int, write_bulk, write_null, write_string, write_array, write_error, Parsed, parsed,
  refused, parse, parse_key, reply_elem, replying,
}

-- Incr and IncrBy
pub record IncrBy : Type 0 where
  pub key : Bytes
  pub delta : ℤ

-- IncrByFloat
pub record IncrByFloat (F : Type 0) : Type 0 where
  pub key : Bytes
  pub delta : F

-- GetSet
pub record GetSet : Type 0 where
  pub key : Bytes
  pub value : Bytes

-- SetEX, with the duration in nanoseconds
pub record SetEx : Type 0 where
  pub key : Bytes
  pub value : Bytes
  pub ttl : ℤ

unfoldable pub parse_get : List Bytes → Parsed Bytes
unfolding parse_key
parse_get args = parse_key args

unfoldable pub parse_strlen : List Bytes → Parsed Bytes
unfolding parse_key
parse_strlen args = parse_key args

-- ParseIncr, for INCR with a sign of 1 and for DECR with -1
unfoldable pub parse_incr : List Bytes → ℤ → Parsed IncrBy
parse_incr (key ∷ []) sign = parsed (record { key = key; delta = sign })
parse_incr _ sign = refused invalid_arg_num

-- cmd.delta *= sign, for a sign of 1 or -1, in int64
unfoldable pub signed : Bool → IncrBy → IncrBy
unfolding neg64
signed negative c = if negative then record c { delta = neg64 c.delta } else c

unfoldable pub with_sign : Bool → Parsed IncrBy → Parsed IncrBy
unfolding signed
with_sign negative (refused e) = refused e
with_sign negative (parsed c) = parsed (signed negative c)

abbrev pub incrby_parsers : List (Parser IncrBy)
incrby_parsers = string (λ a c. record c { key = a }) ∷ int (λ n c. record c { delta = n }) ∷ []

-- ParseIncrBy, for INCRBY and, with the sign, DECRBY
unfoldable pub parse_incrby : List Bytes → Bool → Parsed IncrBy
unfolding parse with_sign
parse_incrby args negative =
    with_sign negative (parse 2 incrby_parsers (record { key = []; delta = pos 0 }) args)

unfoldable pub parse_incrbyfloat :
    {F : Type 0} → (Bytes → F × Bool) → F → List Bytes → Parsed (IncrByFloat F)
unfolding parse
parse_incrbyfloat parse_float nought args =
    parse 2
      (string (λ a c. record c { key = a })
        ∷ float parse_float (λ f c. record c { delta = f })
        ∷ [])
      (record { key = []; delta = nought }) args

unfoldable pub parse_getset : List Bytes → Parsed GetSet
parse_getset (key ∷ value ∷ []) = parsed (record { key = key; value = value })
parse_getset _ = refused invalid_arg_num

unfoldable pub parse_mget : List Bytes → Parsed (List Bytes)
parse_mget [] = refused invalid_arg_num
parse_mget (key ∷ keys) = parsed (key ∷ keys)

unfoldable pub parse_mset : List Bytes → Parsed (Map Bytes Bytes)
unfolding parse
parse_mset args = parse 2 (any_map (λ m c. m) ∷ []) [] args

-- time.Duration(multi*ttl) * time.Millisecond
unfoldable pub in_nanoseconds : ℕ → Parsed SetEx → Parsed SetEx
unfolding times_i64
in_nanoseconds multi (refused e) = refused e
in_nanoseconds multi (parsed c) =
    parsed (record c { ttl = times_i64 (times_i64 c.ttl multi) 1000000 })

-- ParseSetEX, for SETEX with 1000 and PSETEX with 1
unfoldable pub parse_setex : List Bytes → ℕ → Parsed SetEx
unfolding parse in_nanoseconds
parse_setex args multi = in_nanoseconds multi (
    parse 3
      (string (λ a c. record c { key = a })
        ∷ int (λ n c. record c { ttl = n })
        ∷ string (λ a c. record c { value = a })
        ∷ [])
      (record { key = []; value = []; ttl = pos 0 }) args)

unfoldable pub reply_int : Result ℤ → List Reply
reply_int (ok n) = write_int n ∷ []
reply_int (err e) = write_error e ∷ []

-- the length of a value, 0 where there is none
unfoldable pub reply_length : Result Bytes → List Reply
reply_length (ok v) = write_int (pos (length v)) ∷ []
reply_length (err not_found) = write_int (pos 0) ∷ []
reply_length (err e) = write_error e ∷ []

unfoldable pub reply_set : {A : Type 0} → Result A → List Reply
reply_set (ok a) = write_string (ascii "OK") ∷ []
reply_set (err e) = write_error e ∷ []

unfoldable pub write_found : List Bytes → Map Bytes Bytes → List Reply
write_found [] items = []
write_found (key ∷ keys) items =
    let rest = write_found keys items in
    elim (lookup key items) [ none ↦ write_null ∷ rest | some v ↦ write_bulk v ∷ rest ]

unfoldable pub reply_found : List Bytes → Result (Map Bytes Bytes) → List Reply
unfolding write_found
reply_found keys (ok items) = write_array (length keys) ∷ write_found keys items
reply_found keys (err e) = write_error e ∷ []

-- the previous value, null where the key has been created
unfoldable pub reply_previous : Result SetOut → List Reply
reply_previous (ok out) = (if out.created then write_null else write_bulk out.prev) ∷ []
reply_previous (err e) = write_error e ∷ []

-- whether SET counts as done
unfoldable pub is_done : SetCmd → SetOut → Bool
is_done c out = if c.draft.if_xx then out.updated else if c.draft.if_nx then out.created else true

unfoldable pub reply_options : SetCmd → Result SetOut → List Reply
unfolding is_done reply_previous
reply_options c (err e) = write_error e ∷ []
reply_options c (ok out) =
    if c.draft.get
    then reply_previous (ok out)
    else if is_done c out
    then write_string (ascii "OK") ∷ []
    else write_null ∷ []

unfoldable pub is_zero_time : Option ℤ → Bool
is_zero_time none = true
is_zero_time (some t) = false

unfoldable pub at_or_none : Option ℤ → ℤ
at_or_none none = pos 0
at_or_none (some t) = t

-- the options that Set.Run hands on
unfoldable pub opts_of : SetCmd → SetOpts
unfolding milliseconds at_or_none
opts_of c = record {
  ttl_ms = if ltz (pos 0) c.ttl then milliseconds c.ttl else pos 0;
  at_ms = if ltz (pos 0) c.ttl then pos 0 else at_or_none c.at;
  keep_ttl = c.draft.keep_ttl;
  if_exists = c.draft.if_xx;
  if_not_exists = c.draft.if_nx;
  get = c.draft.get;
}

abbrev pub get_opts : SetOpts
get_opts = record {
  ttl_ms = pos 0;
  at_ms = pos 0;
  keep_ttl = false;
  if_exists = false;
  if_not_exists = false;
  get = true;
}

module _ {S F : Type 0} (ks : Keyspace S) (regs : Registers S) (sketches : Sketches S)
    (float64 : Number F) (new_key : Bytes → Bytes) (replica : Bytes) (db : ℤ) where
  unfoldable pub run_get : Bytes → S → List Reply × S
  unfolding reply_elem read_value
  run_get key = replying reply_elem (read_value ks regs sketches float64 new_key replica db key)

  unfoldable pub run_strlen : Bytes → S → List Reply × S
  unfolding reply_length read_value
  run_strlen key =
      replying reply_length (read_value ks regs sketches float64 new_key replica db key)

  unfoldable pub run_incr : IncrBy → S → List Reply × S
  unfolding reply_int incr
  run_incr c = replying reply_int (incr ks regs sketches float64 new_key replica db c.key c.delta)

  -- WriteFloat
  float_written : Result F → List Reply
  float_written (ok f) = write_bulk (float64.format f) ∷ []
  float_written (err e) = write_error e ∷ []

  unfoldable pub run_incrbyfloat : IncrByFloat F → S → List Reply × S
  unfolding float_written incr_by_float
  run_incrbyfloat c =
      replying float_written
        (incr_by_float ks regs sketches float64 new_key replica db c.key c.delta)

  unfoldable pub run_getset : GetSet → S → List Reply × S
  unfolding reply_previous set_with
  run_getset c =
      replying reply_previous
        (set_with ks regs sketches float64 new_key replica db c.key c.value get_opts)

  unfoldable pub run_mget : List Bytes → S → List Reply × S
  unfolding reply_found get_many
  run_mget keys =
      replying (reply_found keys) (get_many ks regs sketches float64 new_key replica db keys)

  unfoldable pub run_mset : Map Bytes Bytes → S → List Reply × S
  unfolding reply_set set_many
  run_mset items = replying reply_set (set_many ks regs sketches float64 new_key replica db items)

  unfoldable pub run_setex : SetEx → S → List Reply × S
  unfolding reply_set set_expire
  run_setex c =
      replying reply_set
        (set_expire ks regs sketches float64 new_key replica db c.key c.value c.ttl)

  -- Set.Run
  unfoldable pub run_set : SetCmd → S → List Reply × S
  unfolding reply_set reply_options set_expire set_with opts_of is_zero_time
  run_set c =
      if not c.draft.if_nx
        && not c.draft.if_xx
        && not c.draft.get
        && not c.draft.keep_ttl
        && is_zero_time c.at
      then replying reply_set
          (set_expire ks regs sketches float64 new_key replica db c.draft.key c.draft.value c.ttl)
      else replying (reply_options c) (
          set_with ks regs sketches float64 new_key replica db c.draft.key c.draft.value
            (opts_of c))
