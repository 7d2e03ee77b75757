-- ===== src/Webhook/Glob.antt =====
-- `path.Match` of Go's standard library, with its error as false: the shell patterns in the
-- allowlists of pkg/webhook/service. It goes by runes; Go skips single bytes at a star.
use webapp_wago.Base.{
  ℕ, zero, suc, Bool, true, false, not, ◌&&◌, ◌||◌, List, [], ◌∷◌, Option, none, some, leb, ◌==◌,
  if◌then◌else◌, is_empty, any, all, length,
}
use webapp_wago.Base.Text.{Text}

pub data Token : Type 0 where
  lit : ℕ → Token
  any_rune : Token
  class : Bool → List (ℕ × ℕ) → Token
  star : Token

-- `getEsc`: one rune of a class, after which something must follow.
abbrev followed : ℕ → Text → Option (ℕ × Text)
followed c [] = none
followed c (d ∷ s) = some (c, d ∷ s)

abbrev escaped : Text → Option (ℕ × Text)
escaped [] = none
escaped (c ∷ s) = followed c s

unfoldable pub get_esc : Text → Option (ℕ × Text)
get_esc [] = none
get_esc (c ∷ s) =
    if c == b'-' || c == b']' then none else if c == b'\\' then escaped s else followed c s

-- The upper end of a range, which is the lower one where no dash follows.
abbrev range_end : ℕ → Text → Option (ℕ × Text)
range_end lo [] = none
range_end lo (c ∷ s) = if c == b'-' then get_esc s else some (lo, c ∷ s)

-- What is left after the bracket that ends a class; a class has a range before it.
abbrev closing : Bool → Text → Option Text
closing some_range [] = none
closing some_range (c ∷ s) = if some_range && c == b']' then some s else none

-- The ranges of a class up to its bracket; `some_range` after the first.
unfoldable pub ranges : ℕ → Bool → Text → Option (List (ℕ × ℕ) × Text)
unfolding get_esc
ranges zero some_range s = none
ranges (suc fuel) some_range s = elim (closing some_range s) [
  | some rest ↦ some ([], rest)
  | none ↦ elim (get_esc s) [
    | none ↦ none
    | some (lo, s') ↦ elim (range_end lo s') [
      | none ↦ none
      | some (hi, s'') ↦ elim (ranges fuel true s'') [
        | none ↦ none
        | some (rs, rest) ↦ some ((lo, hi) ∷ rs, rest)
      ]
    ]
  ]
]

abbrev xor : Bool → Bool → Bool
xor true b = not b
xor false b = b

abbrev in_range : ℕ → ℕ × ℕ → Bool
in_range c (lo, hi) = leb lo c && leb c hi

abbrev pub with_token : Token → Option (List Token) → Option (List Token)
with_token t none = none
with_token t (some ts) = some (t ∷ ts)

abbrev negation : Text → Bool × Text
negation [] = (false, [])
negation (c ∷ s) = if c == b'^' then (true, s) else (false, c ∷ s)

-- The first token of a pattern that is not empty, and what follows it; `none` is
-- `ErrBadPattern`.
unfoldable pub scan : ℕ → Text → Option (Token × Text)
unfolding ranges
scan c s =
    if c == b'*'
    then some (star, s)
    else if c == b'?'
    then some (any_rune, s)
    else if c == b'['
    then (let (negated, s') = negation s in
        elim (ranges (suc (length s')) false s') [
          | none ↦ none
          | some (rs, rest) ↦ some (class negated rs, rest)
        ])
    else if c == b'\\'
    then elim s [ [] ↦ none | d ∷ s' ↦ some (lit d, s') ]
    else some (lit c, s)

abbrev pub and_then : Option (Token × Text) → (Text → Option (List Token)) → Option (List Token)
and_then none k = none
and_then (some (t, rest)) k = with_token t (k rest)

-- A token takes at least one rune, so that the length of the pattern is enough fuel.
unfoldable pub parse : ℕ → Text → Option (List Token)
unfolding scan
parse fuel [] = some []
parse zero (c ∷ s) = none
parse (suc fuel) (c ∷ s) = and_then (scan c s) (parse fuel)

-- The chunks of a pattern: what comes before the first star, and what follows each run of
-- stars. This is `scanChunk`, applied until the pattern is used up.
abbrev pub add_token : Token → List Token × List (List Token) → List Token × List (List Token)
add_token t (lead, starred) = (t ∷ lead, starred)

-- A star before a star adds nothing.
abbrev pub add_star : List Token × List (List Token) → List Token × List (List Token)
add_star ([], c ∷ cs) = ([], c ∷ cs)
add_star ([], []) = ([], [] ∷ [])
add_star (t ∷ ts, cs) = ([], (t ∷ ts) ∷ cs)

unfoldable pub chunks : List Token → List Token × List (List Token)
chunks [] = ([], [])
chunks (star ∷ ts) = add_star (chunks ts)
chunks (lit c ∷ ts) = add_token (lit c) (chunks ts)
chunks (any_rune ∷ ts) = add_token any_rune (chunks ts)
chunks (class n rs ∷ ts) = add_token (class n rs) (chunks ts)

-- Whether a token takes a rune.
unfoldable pub takes : Token → ℕ → Bool
takes (lit d) c = d == c
takes any_rune c = not (c == b'/')
takes (class negated rs) c = xor negated (any (in_range c) rs)
takes star c = false

-- `matchChunk`: what is left of the name.
unfoldable pub match_chunk : List Token → Text → Option Text
unfolding takes
match_chunk [] s = some s
match_chunk (t ∷ ts) [] = none
match_chunk (t ∷ ts) (c ∷ s) = let rest = match_chunk ts s in if takes t c then rest else none

-- The last chunk has to use up the name.
unfoldable pub fits : Bool → Option Text → Option Text
fits last none = none
fits last (some s) = if last && not (is_empty s) then none else some s

abbrev pub or_else : Option Text → Option Text → Option Text
or_else none o = o
or_else (some s) o = some s

-- A chunk after a star: the first place at which it fits, where the star skips no slash.
unfoldable pub seek : List Token → Bool → Text → Option Text
unfolding match_chunk fits
seek chunk last [] = fits last (match_chunk chunk [])
seek chunk last (c ∷ s) =
    let rest = seek chunk last s in
    or_else (fits last (match_chunk chunk (c ∷ s))) (if c == b'/' then none else rest)

abbrev pub left_over : Option Text → (Text → Bool) → Bool
left_over none k = false
left_over (some s) k = k s

unfoldable pub match_starred : List (List Token) → Text → Bool
unfolding seek
match_starred [] s = is_empty s
match_starred ([] ∷ []) s = all (λ c. not (c == b'/')) s
match_starred ([] ∷ d ∷ cs) s = left_over (seek [] false s) (match_starred (d ∷ cs))
match_starred ((t ∷ ts) ∷ cs) s = left_over (seek (t ∷ ts) (is_empty cs) s) (match_starred cs)

unfoldable pub match_tokens : List Token → Text → Bool
unfolding chunks match_chunk fits match_starred
match_tokens ts s =
    let (lead, starred) = chunks ts in
    left_over (fits (is_empty starred) (match_chunk lead s)) (match_starred starred)

abbrev pub well_formed : Option (List Token) → (List Token → Bool) → Bool
well_formed none k = false
well_formed (some ts) k = k ts

-- `path.Match(pattern, name)`.
unfoldable pub glob : Text → Text → Bool
unfolding parse match_tokens
glob pattern name = well_formed (parse (length pattern) pattern) (λ ts. match_tokens ts name)
