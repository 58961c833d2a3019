-- ===== src/Parser/Pipeline.antt =====
-- Pipeline.Run: each round tries the parsers in turn until one fires, and takes that one out.
use redgeo.Base.{
  Bytes, length, ltb, if◌then◌else◌, ℕ, zero, suc, true, false, Option, none, some, List, [], ◌∷◌,
}
use redgeo.Parser.{Parser, Outcome, Error, pass, fail, invalid_arg_num, syntax_error}

module _ {S : Type 0} where
  -- One round: its outcome, and the parsers that are left when one has fired.
  unfoldable pub try_parsers : List (Parser S) → S → List Bytes → Outcome S × List (Parser S)
  try_parsers [] s args = (pass s args, [])
  try_parsers (p ∷ ps) s args =
      let o = p s args in
      elim o.error [
        | some e ↦ (o, p ∷ ps)
        | none ↦ elim o.fired [
          | true ↦ (o, ps)
          | false ↦ let (o', others) = try_parsers ps o.dest o.rest in (o', p ∷ others)
        ]
      ]

  -- The rest of the loop: the arguments, the error, the command. A round takes a parser out, so
  -- the number of parsers bounds the rounds.
  unfoldable pub rounds : ℕ → List (Parser S) → S → List Bytes → Outcome S
  rounds fuel ps s [] = pass s []
  rounds fuel [] s (a ∷ args) = pass s (a ∷ args)
  rounds zero (p ∷ ps) s (a ∷ args) = fail invalid_arg_num s (a ∷ args)
  rounds (suc fuel) (p ∷ ps) s (a ∷ args) =
      let (o, others) = try_parsers (p ∷ ps) s (a ∷ args) in
      elim o.error [
        | some e ↦ o
        | none ↦ elim o.fired [
          | true ↦ rounds fuel others o.dest o.rest
          | false ↦ pass o.dest o.rest
        ]
      ]

  -- Run: the error, and the command as the parsers have left it.
  finish : Outcome S → Option Error × S
  finish o = elim o.error [
    | some e ↦ (some e, o.dest)
    | none ↦ elim o.rest [ [] ↦ (none, o.dest) | a ∷ args ↦ (some syntax_error, o.dest) ]
  ]

  unfoldable pub run : ℕ → List (Parser S) → S → List Bytes → Option Error × S
  unfolding finish
  run required ps s args =
      if ltb (length args) required
      then (some invalid_arg_num, s)
      else finish (rounds (length ps) ps s args)
