-- ===== src/Webhook/Affix.antt =====
-- Two forms of pattern of path.Match with one star, `549*` and `*@g.us`, and what they match.
use webapp_wago.Base.{
  ℕ, suc, zero, ◌+◌, Bool, true, false, not, ◌&&◌, List, [], ◌∷◌, ◌++◌, map, all, All, Option, none,
  some, length, length-append, ◌≡◌, refl, arith, sym, subst, ap, ap₂, append-nil, ◌∙◌, ◌==◌, ==_iff,
}
use webapp_wago.Base.Text.{Text}
use webapp_wago.Webhook.Glob.{
  Token, lit, star, glob, parse, scan, chunks, takes, match_chunk, fits, seek, match_starred,
  match_tokens, or_else,
}
use webapp_wago.Webhook.Pattern.{Matches, one, stop, skip}

-- A rune that stands for itself in a pattern, and a rune other than a slash.
abbrev pub is_plain : ℕ → Bool
is_plain c = not (c == b'*') && not (c == b'?') && not (c == b'[') && not (c == b'\\')

abbrev pub IsPlain : Text → Type 0
IsPlain s = All (λ c. is_plain c ≡ true) s

abbrev pub NoSlash : Text → Type 0
NoSlash s = All (λ c. (c == b'/') ≡ false) s

scan_plain : (c : ℕ) (s : Text) → is_plain c ≡ true → scan c s ≡ some (lit c, s)
unfolding scan
scan_plain c s h = ground arith

parse-append :
    (p t : Text) (n m : ℕ) {ts : List Token}
    → m ≡ length p + n
    → IsPlain p
    → parse n t ≡ some ts
    → parse m (p ++ t) ≡ some (map lit p ++ ts)
unfolding parse
parse-append [] t n m em h e = let em' : m ≡ n = omega arith in rw em' e
parse-append (c ∷ p) t n zero em h e = absurd (omega arith)
parse-append (c ∷ p) t n (suc m) em (hc, h) e =
    rw (scan_plain c (p ++ t) hc, parse-append p t n m (omega arith) h e) refl

pub glob_of_tokens :
    (a v : Text) (ts : List Token)
    → parse (length a) a ≡ some ts
    → match_tokens ts v ≡ true
    → glob a v ≡ true
unfolding glob
glob_of_tokens a v ts e h = rw e h

chunks_star : (p : Text) → chunks (map lit p ++ star ∷ []) ≡ (map lit p, [] ∷ [])
unfolding chunks
chunks_star [] = refl
chunks_star (c ∷ p) = rw (chunks_star p) refl

chunks_plain : (p : Text) → chunks (map lit p) ≡ (map lit p, [])
unfolding chunks
chunks_plain [] = refl
chunks_plain (c ∷ p) = rw (chunks_plain p) refl

match_chunk_plain : (p r : Text) → match_chunk (map lit p) (p ++ r) ≡ some r
unfolding match_chunk takes
match_chunk_plain [] r = refl
match_chunk_plain (c ∷ p) r = rw (match_chunk_plain p r, (==_iff c c).1 refl) refl

no_slash : (w : Text) → NoSlash w → all (λ c. not (c == b'/')) w ≡ true
no_slash [] h = refl
no_slash (c ∷ w) (hc, h) = rw (hc, no_slash w h) refl

pub parse_prefix :
    (p : Text)
    → IsPlain p
    → parse (length (p ++ b'*' ∷ [])) (p ++ b'*' ∷ []) ≡ some (map lit p ++ star ∷ [])
unfolding parse scan
parse_prefix p h =
    parse-append p (b'*' ∷ []) 1 (length (p ++ b'*' ∷ [])) (length-append p (b'*' ∷ [])) h refl

match_prefix : (p w : Text) → NoSlash w → match_tokens (map lit p ++ star ∷ []) (p ++ w) ≡ true
unfolding match_tokens match_starred fits
match_prefix p w h = rw (chunks_star p, match_chunk_plain p w, no_slash w h) refl

pub glob_prefix : (p w : Text) → IsPlain p → NoSlash w → glob (p ++ b'*' ∷ []) (p ++ w) ≡ true
glob_prefix p w hp hw =
    glob_of_tokens (p ++ b'*' ∷ []) (p ++ w) (map lit p ++ star ∷ []) (parse_prefix p hp)
      (match_prefix p w hw)

-- A chunk that fits at the end of the name is found there, if not before.
seek_end : (s w : Text) → NoSlash w → seek (map lit s) true (w ++ s) ≡ some []
unfolding seek fits
seek_end s [] h = at_end s refl
  where
    fit : (t : Text) → t ≡ s → match_chunk (map lit s) t ≡ some []
    fit t e =
        subst (λ u. match_chunk (map lit s) u ≡ some []) (append-nil s ∙ sym e)
          (match_chunk_plain s [])

    at_end : (t : Text) → t ≡ s → seek (map lit s) true t ≡ some []
    at_end [] e = rw (fit [] e) refl
    at_end (c ∷ t) e = rw (fit (c ∷ t) e) refl
seek_end s (c ∷ w) (hc, h) = rw (hc, seek_end s w h) (of (match_chunk (map lit s) (c ∷ w ++ s)))
  where
    of : (o : Option Text) → or_else (fits true o) (some []) ≡ some []
    of none = refl
    of (some []) = refl
    of (some (d ∷ t)) = refl

pub prefix_of :
    (p v : Text) → Matches (map lit p ++ star ∷ []) v → (w : Text) × (v ≡ p ++ w) × NoSlash w
unfolding takes
prefix_of [] v m = of v m
  where
    of : (v : Text) → Matches (star ∷ []) v → (w : Text) × (v ≡ w) × NoSlash w
    of v (one h m') = cc
    of [] (stop m') = ([], refl, tt)
    of (c ∷ v) (stop m') = elim m' [ ]
    of (c ∷ v) (skip h m') = let (w, e, n) = of v m' in (c ∷ w, ap (λ z. c ∷ z) e, (h, n))
prefix_of (c ∷ p) [] m = elim m [ ]
prefix_of (c ∷ p) (d ∷ v) (one h m) =
    let (w, e, n) = prefix_of p v m in (w, ap₂ (λ x y. x ∷ y) (sym ((==_iff c d).0 h)) e, n)

pub suffix_of :
    {s : Text} {ks : List Token}
    → ((v : Text) → Matches ks v → v ≡ s)
    → (v : Text) → Matches (star ∷ ks) v
    → (w : Text) × (v ≡ w ++ s) × NoSlash w
unfolding takes
suffix_of f v (one h m) = cc
suffix_of f v (stop m) = ([], f v m, tt)
suffix_of f (c ∷ v) (skip h m) =
    let (w, e, n) = suffix_of f v m in (c ∷ w, ap (λ z. c ∷ z) e, (h, n))

pub plain : (s v : Text) → Matches (map lit s) v → v ≡ s
unfolding takes
plain [] [] m = refl
plain [] (c ∷ v) m = elim m [ ]
plain (c ∷ s) [] m = elim m [ ]
plain (c ∷ s) (d ∷ v) (one h m) = ap₂ (λ x y. x ∷ y) (sym ((==_iff c d).0 h)) (plain s v m)

match_any : (w : Text) → NoSlash w → match_tokens (star ∷ []) (w ++ []) ≡ true
unfolding match_tokens match_starred match_chunk fits chunks
match_any w h = rw (append-nil w, no_slash w h) refl

pub match_suffix : (s w : Text) → NoSlash w → match_tokens (star ∷ map lit s) (w ++ s) ≡ true
unfolding match_tokens match_starred match_chunk fits
match_suffix [] w h = match_any w h
match_suffix (c ∷ s) w h =
    let k : seek (lit c ∷ map lit s) true (w ++ c ∷ s) ≡ some [] = seek_end (c ∷ s) w h in
    rw (chunks_plain s, k) refl

pub parse_suffix :
    (s : Text) → IsPlain s → parse (length (b'*' ∷ s)) (b'*' ∷ s) ≡ some (star ∷ map lit s)
unfolding parse scan
parse_suffix s h =
    let e : parse (length s) (s ++ []) ≡ some (map lit s ++ []) =
      parse-append s [] 0 (length s) (omega arith) h (parse_nil 0) in
    let e' : parse (length s) s ≡ some (map lit s) =
      ap (parse (length s)) (sym (append-nil s)) ∙ e ∙ ap some (append-nil (map lit s)) in
    rw e' refl
  where
    parse_nil : (n : ℕ) → parse n [] ≡ some []
    parse_nil n = refl
