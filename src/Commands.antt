-- ===== src/Commands.antt =====
-- command: what the commands of the data types share. A command is parsed from its arguments, and run
-- against a repository; what it writes is a list of replies. The text of an error is its value.
pub mod Sets
pub mod Lists
pub mod EndToEnd
pub mod Strings
pub mod Counting
use redgeo.Base.{Bytes, ℤ, pos, length, ℕ, Option, none, some, List, [], ◌∷◌}
use redgeo.Exec
use redgeo.Exec.{Exec, Result, ok, err, not_found}
use redgeo.Parser
use redgeo.Parser.{Parser, invalid_arg_num, string, int, strings, named}
use redgeo.Parser.Pipeline.{run}

-- The calls of redis.Writer.
pub data Reply : Type 0 where
  write_int : ℤ → Reply
  write_bulk : Bytes → Reply
  write_null : Reply
  write_string : Bytes → Reply
  write_array : ℕ → Reply
  write_error : Exec.Error → Reply
  write_out_of_range : Reply

-- What a Parse function returns.
pub data Parsed (C : Type 0) : Type 0 where
  parsed : C → Parsed C
  refused : Parser.Error → Parsed C

unfoldable pub as_parsed : {C : Type 0} → Option Parser.Error × C → Parsed C
as_parsed (some e, c) = refused e
as_parsed (none, c) = parsed c

-- parser.New(...).Required(n).Run(cmd.Args())
unfoldable pub parse : {C : Type 0} → ℕ → List (Parser C) → C → List Bytes → Parsed C
unfolding as_parsed run
parse required ps blank args = as_parsed (run required ps blank args)

-- The commands that take a key and nothing else, and look at len(cmd.Args()) themselves.
unfoldable pub parse_key : List Bytes → Parsed Bytes
parse_key (key ∷ []) = parsed key
parse_key _ = refused invalid_arg_num

unfoldable pub write_bulks : List Bytes → List Reply
write_bulks [] = []
write_bulks (v ∷ vals) = write_bulk v ∷ write_bulks vals

-- WriteArray and the loop after it
unfoldable pub reply_array : Result (List Bytes) → List Reply
unfolding write_bulks
reply_array (ok vals) = write_array (length vals) ∷ write_bulks vals
reply_array (err e) = write_error e ∷ []

unfoldable pub reply_count : Result ℕ → List Reply
reply_count (ok n) = write_int (pos n) ∷ []
reply_count (err e) = write_error e ∷ []

-- An element, or a null reply where there is none.
unfoldable pub reply_elem : Result Bytes → List Reply
reply_elem (ok v) = write_bulk v ∷ []
reply_elem (err not_found) = write_null ∷ []
reply_elem (err e) = write_error e ∷ []

-- The writes of a Run and the state that it leaves.
abbrev pub replying : {S A : Type 0} → (Result A → List Reply) → Exec S A → S → List Reply × S
replying reply m s = (reply (m s).0, (m s).1)
