-- ===== src/Parser/Behaved.antt =====
-- The contract that the pipeline relies on, and that every combinator keeps: a parser that does not
-- fire leaves the arguments and the command alone, and one that fires takes an argument.
use redgeo.Base.{
  Bytes, ℤ, length, Map, if◌then◌else◌, Bool-cases, ℕ, suc, ◌+◌, ◌-◌, ◌≤◌, ◌≡◌, refl, inl, inr,
  true, false, none, List, [], ◌∷◌, arith,
}
use redgeo.Parser.{
  Parser, string, enum, int, strings, any_map, flag, named_loop, named, one_of_loop, one_of,
}

pub record Behaved {S : Type 0} (p : Parser S) : Type 0 where
  pub stays :
      (s : S) (args : List Bytes)
      → (p s args).fired ≡ false
      → (p s args).error ≡ none
      → ((p s args).rest ≡ args) × ((p s args).dest ≡ s)
  pub eats :
      (s : S) (args : List Bytes)
      → (p s args).fired ≡ true
      → (p s args).error ≡ none
      → length (p s args).rest ≤ length args - 1

module _ {S : Type 0} where
  pub string-Behaved : (set : Bytes → S → S) → Behaved (string set)
  unfolding string
  string-Behaved set = record {
    stays = λ s. elim [ [] ↦ λ h k. (refl, refl) | a ∷ args ↦ λ h k. absurd (cc) ];
    eats = λ s. elim [ [] ↦ λ h k. omega arith | a ∷ args ↦ λ h k. omega arith ];
  }

  pub enum-Behaved : (set : Bytes → S → S) (allowed : List Bytes) → Behaved (enum set allowed)
  unfolding enum
  enum-Behaved set allowed = record {
    stays = λ s. elim [ [] ↦ λ h k. (refl, refl) | a ∷ args ↦ λ h k. absurd (ground arith) ];
    eats = λ s. elim [ [] ↦ λ h k. omega arith | a ∷ args ↦ λ h k. ground arith ];
  }

  pub int-Behaved : (set : ℤ → S → S) → Behaved (int set)
  unfolding int
  int-Behaved set = record {
    stays = λ s. elim [ [] ↦ λ h k. (refl, refl) | a ∷ args ↦ λ h k. absurd (ground arith) ];
    eats = λ s. elim [ [] ↦ λ h k. omega arith | a ∷ args ↦ λ h k. ground arith ];
  }

  pub strings-Behaved : (set : List Bytes → S → S) → Behaved (strings set)
  unfolding strings
  strings-Behaved set = record {
    stays = λ s. elim [ [] ↦ λ h k. (refl, refl) | a ∷ args ↦ λ h k. absurd (cc) ];
    eats = λ s. elim [ [] ↦ λ h k. omega arith | a ∷ args ↦ λ h k. omega arith ];
  }

  pub flag-Behaved : (name : Bytes) (set : S → S) → Behaved (flag name set)
  unfolding flag
  flag-Behaved name set = record {
    stays = λ s. elim [ [] ↦ λ h k. (refl, refl) | a ∷ args ↦ λ h k. ground arith ];
    eats = λ s. elim [ [] ↦ λ h k. omega arith | a ∷ args ↦ λ h k. ground arith ];
  }

  pub any_map-Behaved : (set : Map Bytes Bytes → S → S) → Behaved (any_map set)
  unfolding any_map
  any_map-Behaved set = record {
    stays = λ s args h k. ground arith;
    eats = λ s args h k. ground arith;
  }

  -- Every parser of a list is behaved.
  abbrev pub AllBehaved : List (Parser S) → Type 0
  AllBehaved [] = Unit
  AllBehaved (p ∷ ps) = Behaved p × AllBehaved ps

  Behaved-rest-le :
      (p : Parser S) (s : S) (args : List Bytes)
      → Behaved p
      → (p s args).error ≡ none
      → length (p s args).rest ≤ length args
  Behaved-rest-le p s args b k = elim (Bool-cases (p s args).fired) [
    | inl h ↦ omega (arith, b.eats s args h k)
    | inr h ↦ rw ((b.stays s args h k).0) (omega arith)
  ]

  named_loop-le :
      (ps : List (Parser S)) (n : ℕ) (s : S) (args : List Bytes)
      → AllBehaved ps
      → (named_loop ps n s args).0.error ≡ none
      → length (named_loop ps n s args).0.rest ≤ length args
  unfolding named_loop
  named_loop-le [] n s args b k = omega arith
  named_loop-le (p ∷ ps) n s args b k =
      let o = p s args in
      let count = if o.fired then n + 1 else n in
      ground (arith, Behaved-rest-le p s args b.0, named_loop-le ps count o.dest o.rest b.1)

  -- Named is behaved if its parsers are.
  pub named-Behaved :
      (name : Bytes) (ps : List (Parser S)) → AllBehaved ps → Behaved (named name ps)
  unfolding named
  named-Behaved name ps b = record {
    stays = λ s. elim [ [] ↦ λ h k. (refl, refl) | a ∷ args ↦ λ h k. named_stays s a args h k ];
    eats = λ s. elim [
      | [] ↦ λ h k. omega arith
      | a ∷ args ↦ λ h k. ground (arith, named_loop-le ps 0 s args b)
    ];
  }
    where
      named_stays :
          (s : S) (a : Bytes) (args : List Bytes)
          → (named name ps s (a ∷ args)).fired ≡ false
          → (named name ps s (a ∷ args)).error ≡ none
          → ((named name ps s (a ∷ args)).rest ≡ a ∷ args) × ((named name ps s (a ∷ args)).dest ≡ s)
      named_stays s a args h k = ground arith

  one_of_loop-le :
      (ps : List (Parser S)) (n : ℕ) (s : S) (args : List Bytes)
      → AllBehaved ps
      → (one_of_loop ps n s args).error ≡ none
      → length (one_of_loop ps n s args).rest ≤ length args
  unfolding one_of_loop
  one_of_loop-le [] n s args b k = ground arith
  one_of_loop-le (p ∷ ps) n s args b k =
      let o = p s args in
      ground (
        arith,
        Behaved-rest-le p s args b.0,
        one_of_loop-le ps (if o.fired then n + 1 else n) o.dest o.rest b.1,
      )

  -- Once a parser has fired the loop cannot report that none has.
  one_of_loop-fired :
      (ps : List (Parser S)) (n : ℕ) (s : S) (args : List Bytes)
      → (one_of_loop ps (suc n) s args).error ≡ none
      → (one_of_loop ps (suc n) s args).fired ≡ true
  unfolding one_of_loop
  one_of_loop-fired [] n s args k = ground arith
  one_of_loop-fired (p ∷ ps) n s args k =
      let o = p s args in
      ground
        (arith, one_of_loop-fired ps n o.dest o.rest, one_of_loop-fired ps (suc n) o.dest o.rest)

  one_of_loop-stays :
      (ps : List (Parser S)) (s : S) (args : List Bytes)
      → AllBehaved ps
      → (one_of_loop ps 0 s args).fired ≡ false
      → (one_of_loop ps 0 s args).error ≡ none
      → ((one_of_loop ps 0 s args).rest ≡ args) × ((one_of_loop ps 0 s args).dest ≡ s)
  unfolding one_of_loop
  one_of_loop-stays [] s args b h k = ground arith
  one_of_loop-stays (p ∷ ps) s args b h k =
      let o = p s args in
      ground (
        arith,
        b.0.stays s args,
        one_of_loop-stays ps o.dest o.rest b.1,
        one_of_loop-fired ps 0 o.dest o.rest,
      )

  one_of_loop-eats :
      (ps : List (Parser S)) (s : S) (args : List Bytes)
      → AllBehaved ps
      → (one_of_loop ps 0 s args).fired ≡ true
      → (one_of_loop ps 0 s args).error ≡ none
      → length (one_of_loop ps 0 s args).rest ≤ length args - 1
  unfolding one_of_loop
  one_of_loop-eats [] s args b h k = ground arith
  one_of_loop-eats (p ∷ ps) s args b h k =
      let o = p s args in
      ground (
        arith,
        b.0.stays s args,
        b.0.eats s args,
        one_of_loop-eats ps o.dest o.rest b.1,
        one_of_loop-le ps 1 o.dest o.rest b.1,
      )

  -- OneOf is behaved if its parsers are.
  pub one_of-Behaved : (ps : List (Parser S)) → AllBehaved ps → Behaved (one_of ps)
  unfolding one_of
  one_of-Behaved ps b = record {
    stays = λ s args h k. one_of_loop-stays ps s args b h k;
    eats = λ s args h k. one_of_loop-eats ps s args b h k;
  }
