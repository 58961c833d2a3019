-- ===== src/Parser.antt =====
-- parser/parsers.go and parser/pipeline.go: the combinators that parse command arguments, and the
-- pipeline that runs them. A parser writes its result through a pointer into the command: here it
-- takes the command `S` and a setter, and returns the command with the field set.
pub mod Atoi
pub mod Pipeline
pub mod Behaved
pub mod Run
use redgeo.Base.{
  Bytes, bytes_eq, ℤ, length, Map, insert, contains, ltb, leb, ◌==◌, if◌then◌else◌, ℕ, ◌+◌, ◌%◌,
  Bool, true, false, ◌&&◌, Option, none, some, List, [], ◌∷◌, map, bytes_key,
}
use redgeo.Parser.Atoi.{atoi}

pub data Error : Type 0 where
  invalid_arg_num invalid_float invalid_int syntax_error : Error

-- What a ParserFunc returns, and the command that it has written to.
pub record Outcome (S : Type 0) : Type 0 where
  pub fired : Bool
  pub rest : List Bytes
  pub error : Option Error
  pub dest : S

abbrev pub Parser : Type 0 → Type 0
Parser S = S → List Bytes → Outcome S

-- strings.ToLower and strings.EqualFold, of ASCII text
unfoldable pub lower : ℕ → ℕ
lower c = if leb b'A' c && leb c b'Z' then c + 32 else c

unfoldable pub to_lower : Bytes → Bytes
unfolding lower
to_lower = map lower

unfoldable pub equal_fold : Bytes → Bytes → Bool
unfolding to_lower
equal_fold a b = bytes_eq (to_lower a) (to_lower b)

abbrev pub pass : {S : Type 0} → S → List Bytes → Outcome S
pass s args = record { fired = false; rest = args; error = none; dest = s }

abbrev pub fire : {S : Type 0} → S → List Bytes → Outcome S
fire s args = record { fired = true; rest = args; error = none; dest = s }

abbrev pub fail : {S : Type 0} → Error → S → List Bytes → Outcome S
fail e s args = record { fired = true; rest = args; error = some e; dest = s }

-- The loop of AnyMap: a later pair overwrites an earlier one of the same name.
unfoldable pub any_map_loop : Map Bytes Bytes → List Bytes → Map Bytes Bytes
any_map_loop m (name ∷ value ∷ args) = any_map_loop (insert name value m) args
any_map_loop m _ = m

-- Floats and strconv.ParseFloat are parameters.
unfoldable pub float_map_loop :
    {F : Type 0} → (Bytes → Option F) → Map Bytes F → List Bytes → Map Bytes F × Bool
float_map_loop parse_float m (score ∷ elem ∷ args) = elim (parse_float score) [
  | none ↦ (m, false)
  | some f ↦ float_map_loop parse_float (insert elem f m) args
]
float_map_loop parse_float m _ = (m, true)

module _ {S : Type 0} where
  -- Bytes and String: a Go string is its bytes
  unfoldable pub string : (Bytes → S → S) → Parser S
  string set s [] = pass s []
  string set s (a ∷ args) = fire (set a s) args

  unfoldable pub enum : (Bytes → S → S) → List Bytes → Parser S
  enum set allowed s [] = pass s []
  enum set allowed s (a ∷ args) =
      let val = to_lower a in
      if contains allowed val then fire (set val s) args else fail syntax_error s (a ∷ args)

  -- The destination is written before the error is looked at.
  unfoldable pub int : (ℤ → S → S) → Parser S
  int set s [] = pass s []
  int set s (a ∷ args) =
      let (n, parsed) = atoi a in
      if parsed then fire (set n s) args else fail invalid_int (set n s) (a ∷ args)

  -- Floats and strconv.ParseFloat are parameters, here with the value beside an error.
  unfoldable pub float : {F : Type 0} → (Bytes → F × Bool) → (F → S → S) → Parser S
  float parse_float set s [] = pass s []
  float parse_float set s (a ∷ args) =
      let (f, parsed) = parse_float a in
      if parsed then fire (set f s) args else fail invalid_float (set f s) (a ∷ args)

  -- Strings and Anys
  unfoldable pub strings : (List Bytes → S → S) → Parser S
  strings set s [] = pass s []
  strings set s (a ∷ args) = fire (set (a ∷ args) s) []

  unfoldable pub any_map : (Map Bytes Bytes → S → S) → Parser S
  any_map set s args =
      if length args % 2 == 0 then fire (set (any_map_loop [] args) s) [] else pass s args

  -- A map that is cut off by an error stays in the command, short.
  unfoldable pub float_map : {F : Type 0} → (Bytes → Option F) → (Map Bytes F → S → S) → Parser S
  unfolding float_map_loop
  float_map parse_float set s args =
      let (m, parsed) = float_map_loop parse_float [] args in
      if length args % 2 == 0
      then if parsed then fire (set m s) [] else fail invalid_float (set m s) args
      else pass s args

  unfoldable pub flag : Bytes → (S → S) → Parser S
  flag name set s [] = pass s []
  flag name set s (a ∷ args) = if equal_fold a name then fire (set s) args else pass s (a ∷ args)

  -- The loop of Named: it stops at an error and when no argument is left.
  unfoldable pub named_loop : List (Parser S) → ℕ → S → List Bytes → Outcome S × ℕ
  named_loop [] n s args = (pass s args, n)
  named_loop (p ∷ ps) n s args =
      let o = p s args in
      let count = if o.fired then n + 1 else n in
      elim o.error [
        | some e ↦ (o, n)
        | none ↦ elim o.rest [
          | [] ↦ (pass o.dest [], count)
          | a ∷ rest ↦ named_loop ps count o.dest (a ∷ rest)
        ]
      ]

  all_fired : ℕ → Outcome S × ℕ → Outcome S
  all_fired n (o, fired) = elim o.error [
    | some e ↦ o
    | none ↦ if fired == n then fire o.dest o.rest else fail syntax_error o.dest o.rest
  ]

  unfoldable pub named : Bytes → List (Parser S) → Parser S
  unfolding all_fired
  named name ps s [] = pass s []
  named name ps s (a ∷ args) =
      if equal_fold a name
      then all_fired (length ps) (named_loop ps 0 s args)
      else pass s (a ∷ args)

  unfoldable pub one_of_loop : List (Parser S) → ℕ → S → List Bytes → Outcome S
  one_of_loop [] n s args =
      if ltb 1 n
      then fail syntax_error s args
      else record { fired = ltb 0 n; rest = args; error = none; dest = s }
  one_of_loop (p ∷ ps) n s args =
      let o = p s args in
      elim o.error [
        | some e ↦ o
        | none ↦ one_of_loop ps (if o.fired then n + 1 else n) o.dest o.rest
      ]

  unfoldable pub one_of : List (Parser S) → Parser S
  one_of ps = one_of_loop ps 0
