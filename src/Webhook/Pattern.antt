-- ===== src/Webhook/Pattern.antt =====
-- What a pattern of an allowlist matches, as a relation that knows no chunks and no greed.
use webapp_wago.Base.{
  ℕ, Bool, true, false, not, List, [], ◌∷◌, ◌++◌, Option, none, some, ◌==◌, all, is_empty, ◌≡◌,
  refl, arith, Option-cases, Bool-cases, subst, ◌⊎◌, ◌∙◌, inl, inr, if◌then◌else◌,
}
use webapp_wago.Base.Text.{Text}
use webapp_wago.Webhook.Glob.{
  Token, lit, any_rune, class, star, chunks, add_star, add_token, takes, match_chunk, fits, seek,
  match_starred, match_tokens, left_over,
}

-- A star takes any runes but a slash; each other token takes one rune.
pub data Matches : List Token → Text → Type 0 where
  done : Matches [] []
  one :
      {t : Token} {c : ℕ} {ts : List Token} {s : Text}
      → takes t c ≡ true
      → Matches ts s
      → Matches (t ∷ ts) (c ∷ s)
  stop : {ts : List Token} {s : Text} → Matches ts s → Matches (star ∷ ts) s
  skip :
      {c : ℕ} {ts : List Token} {s : Text}
      → (c == b'/') ≡ false
      → Matches (star ∷ ts) s
      → Matches (star ∷ ts) (c ∷ s)

abbrev flat : List (List Token) → List Token
flat [] = []
flat (c ∷ cs) = star ∷ c ++ flat cs

match_chunk-Matches :
    (chunk rest : List Token) (s r : Text)
    → match_chunk chunk s ≡ some r
    → Matches rest r
    → Matches (chunk ++ rest) s
unfolding match_chunk
match_chunk-Matches [] rest s r e m = subst (Matches rest) (let e' : r ≡ s = cc in e') m
match_chunk-Matches (t ∷ ts) rest [] r e m = cc
match_chunk-Matches (t ∷ ts) rest (c ∷ s) r e m = elim (Bool-cases (takes t c)) [
  | inl h ↦ one h (match_chunk-Matches ts rest s r (rw h at e) m)
  | inr h ↦ (let e' : none ≡ some r = rw h at e in cc)
]

fits_some : (last : Bool) (o : Option Text) (r : Text) → fits last o ≡ some r → o ≡ some r
unfolding fits
fits_some last none r e = cc
fits_some last (some s) r e = ground arith

left_over-some :
    (o : Option Text) (k : Text → Bool)
    → left_over o k ≡ true
    → (r : Text) × (o ≡ some r) × (k r ≡ true)
left_over-some none k h = cc
left_over-some (some s) k h = (s, refl, h)

seek-Matches :
    (chunk rest : List Token) (last : Bool) (s r : Text)
    → seek chunk last s ≡ some r
    → Matches rest r
    → Matches (star ∷ chunk ++ rest) s
unfolding seek
seek-Matches chunk rest last [] r e m =
    stop (match_chunk-Matches chunk rest [] r (fits_some last (match_chunk chunk []) r e) m)
seek-Matches chunk rest last (c ∷ s) r e m =
    elim (Option-cases (fits last (match_chunk chunk (c ∷ s)))) [
      | inl h ↦ of (Bool-cases (c == b'/')) (rw h at e) (seek-Matches chunk rest last s r)
      | inr (a, h) ↦ stop (
          match_chunk-Matches chunk rest (c ∷ s) r
            (fits_some last (match_chunk chunk (c ∷ s)) r (h ∙ (rw h at e))) m)
    ]
  where
    of :
        {o : Option Text}
        → ((c == b'/') ≡ true) ⊎ ((c == b'/') ≡ false)
        → (if c == b'/' then none else o) ≡ some r
        → (o ≡ some r → Matches rest r → Matches (star ∷ chunk ++ rest) s)
        → Matches (star ∷ chunk ++ rest) (c ∷ s)
    of {o} (inl h) e' k = let e'' : none ≡ some r = rw h at e' in cc
    of {o} (inr h) e' k = skip h (k (rw h at e') m)

no_slash-Matches : (s : Text) → all (λ c. not (c == b'/')) s ≡ true → Matches (star ∷ []) s
no_slash-Matches [] h = stop done
no_slash-Matches (c ∷ s) h = elim (Bool-cases (c == b'/')) [
  | inl e ↦ (let h' : false ≡ true = rw e at h in cc)
  | inr e ↦ skip e (no_slash-Matches s (rw e at h))
]

empty-Matches : (s : Text) → is_empty s ≡ true → Matches [] s
empty-Matches [] h = done
empty-Matches (c ∷ s) h = cc

match_starred-Matches :
    (cs : List (List Token)) (s : Text) → match_starred cs s ≡ true → Matches (flat cs) s
unfolding match_starred
match_starred-Matches [] s h = empty-Matches s h
match_starred-Matches ([] ∷ []) s h = no_slash-Matches s h
match_starred-Matches ([] ∷ d ∷ cs) s h =
    let (r, e, h') = left_over-some (seek [] false s) (match_starred (d ∷ cs)) h in
    seek-Matches [] (flat (d ∷ cs)) false s r e (match_starred-Matches (d ∷ cs) r h')
match_starred-Matches ((t ∷ ts) ∷ cs) s h =
    let (r, e, h') = left_over-some (seek (t ∷ ts) (is_empty cs) s) (match_starred cs) h in
    seek-Matches (t ∷ ts) (flat cs) (is_empty cs) s r e (match_starred-Matches cs r h')

-- The tokens of a pattern against its chunks.
under_star :
    {ks ts : List Token}
    → ((s : Text) → Matches ks s → Matches ts s)
    → (s : Text) → Matches (star ∷ ks) s
    → Matches (star ∷ ts) s
unfolding takes
under_star f s (one h m) = cc
under_star f s (stop m) = stop (f s m)
under_star f (c ∷ s) (skip h m) = skip h (under_star f s m)

under_token :
    {t : Token} {ks ts : List Token}
    → (t ≡ star → ⊥)
    → ((s : Text) → Matches ks s → Matches ts s)
    → (s : Text) → Matches (t ∷ ks) s
    → Matches (t ∷ ts) s
under_token n f (c ∷ s) (one h m) = one h (f s m)
under_token n f s (stop m) = absurd (n refl)
under_token n f s (skip h m) = absurd (n refl)

whole : List Token × List (List Token) → List Token
whole (lead, starred) = lead ++ flat starred

add_star_lem :
    (p : List Token × List (List Token)) (ts : List Token)
    → ((s : Text) → Matches (whole p) s → Matches ts s)
    → (s : Text) → Matches (whole (add_star p)) s
    → Matches (star ∷ ts) s
unfolding whole
add_star_lem ([], c ∷ cs) ts f s m = stop (f s m)
add_star_lem ([], []) ts f s m = under_star f s m
add_star_lem (t ∷ lead, cs) ts f s m = under_star f s m

add_token_lem :
    (t : Token) (p : List Token × List (List Token)) (ts : List Token)
    → (t ≡ star → ⊥)
    → ((s : Text) → Matches (whole p) s → Matches ts s)
    → (s : Text) → Matches (whole (add_token t p)) s
    → Matches (t ∷ ts) s
unfolding whole
add_token_lem t (lead, cs) ts n f s m = under_token n f s m

chunks-Matches : (ts : List Token) (s : Text) → Matches (whole (chunks ts)) s → Matches ts s
unfolding chunks whole
chunks-Matches [] s m = m
chunks-Matches (star ∷ ts) s m = add_star_lem (chunks ts) ts (chunks-Matches ts) s m
chunks-Matches (lit c ∷ ts) s m = add_token_lem (lit c) (chunks ts) ts (cc) (chunks-Matches ts) s m
chunks-Matches (any_rune ∷ ts) s m =
    add_token_lem any_rune (chunks ts) ts (cc) (chunks-Matches ts) s m
chunks-Matches (class n rs ∷ ts) s m =
    add_token_lem (class n rs) (chunks ts) ts (cc) (chunks-Matches ts) s m

pub match_tokens-Matches : (ts : List Token) (s : Text) → match_tokens ts s ≡ true → Matches ts s
unfolding match_tokens whole
match_tokens-Matches ts s h =
    let (r, e, h') =
      left_over-some (fits (is_empty (chunks ts).1) (match_chunk (chunks ts).0 s))
        (match_starred (chunks ts).1) h in
    chunks-Matches ts s (
      match_chunk-Matches (chunks ts).0 (flat (chunks ts).1) s r
        (fits_some (is_empty (chunks ts).1) (match_chunk (chunks ts).0 s) r e)
        (match_starred-Matches (chunks ts).1 r h'))
