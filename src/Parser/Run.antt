-- ===== src/Parser/Run.antt =====
-- What a run of the pipeline does: it ends, and it refuses what no parser takes.
use redgeo.Base.{
  Bytes, length, ℕ, zero, suc, ◌+◌, ◌≤◌, ◌≡◌, refl, true, false, none, some, List, [], ◌∷◌, arith,
}
use redgeo.Parser.{Parser, pass, syntax_error}
use redgeo.Parser.Pipeline.{try_parsers, rounds, run}
use redgeo.Parser.Behaved.{AllBehaved}

module _ {S : Type 0} where
  -- A round that fires takes a parser out.
  length-try_parsers :
      (ps : List (Parser S)) (s : S) (args : List Bytes)
      → (try_parsers ps s args).0.error ≡ none
      → (try_parsers ps s args).0.fired ≡ true
      → length (try_parsers ps s args).1 + 1 ≡ length ps
  unfolding try_parsers
  length-try_parsers [] s args h k = absurd (cc)
  length-try_parsers (p ∷ ps) s args h k =
      ground (arith, length-try_parsers ps (p s args).dest (p s args).rest)

  -- The loop of Run ends: of two bounds on the rounds, each at least the number of parsers, the
  -- outcome is the same, whatever the parsers do.
  pub rounds_enough :
      (f g : ℕ) (ps : List (Parser S)) (s : S) (args : List Bytes)
      → length ps ≤ f
      → length ps ≤ g
      → rounds f ps s args ≡ rounds g ps s args
  unfolding rounds
  rounds_enough f g ps s [] h k = refl
  rounds_enough f g [] s (a ∷ args) h k = refl
  rounds_enough zero g (p ∷ ps) s (a ∷ args) h k = absurd (omega arith)
  rounds_enough (suc f) zero (p ∷ ps) s (a ∷ args) h k = absurd (omega arith)
  rounds_enough (suc f) (suc g) (p ∷ ps) s (a ∷ args) h k =
      let o = (try_parsers (p ∷ ps) s (a ∷ args)).0 in
      let others = (try_parsers (p ∷ ps) s (a ∷ args)).1 in
      ground
        (arith, length-try_parsers (p ∷ ps) s (a ∷ args), rounds_enough f g others o.dest o.rest)

  -- No parser of the list fires or fails on these arguments.
  abbrev pub NoneTakes : List (Parser S) → S → List Bytes → Type 0
  NoneTakes [] s args = Unit
  NoneTakes (p ∷ ps) s args =
      ((p s args).fired ≡ false) × ((p s args).error ≡ none) × NoneTakes ps s args

  try_parsers_none :
      (ps : List (Parser S)) (s : S) (args : List Bytes)
      → AllBehaved ps
      → NoneTakes ps s args
      → (try_parsers ps s args).0 ≡ pass s args
  unfolding try_parsers
  try_parsers_none [] s args b h = refl
  try_parsers_none (p ∷ ps) s args b h =
      ground (arith, b.0.stays s args, try_parsers_none ps s args b.1)

  -- Run refuses arguments that none of its parsers takes, and leaves the command alone.
  pub run_unknown :
      (required : ℕ) (ps : List (Parser S)) (s : S) (a : Bytes) (args : List Bytes)
      → required ≤ length (a ∷ args)
      → AllBehaved ps
      → NoneTakes ps s (a ∷ args)
      → run required ps s (a ∷ args) ≡ (some syntax_error, s)
  unfolding run rounds
  run_unknown required [] s a args h b n = ground arith
  run_unknown required (p ∷ ps) s a args h b n =
      ground (arith, try_parsers_none (p ∷ ps) s (a ∷ args) b n)
