-- ===== src/Webhook/Allowlist.antt =====
-- What an allowlist of pkg/webhook/service/webhook_service.go lets through, in general and for
-- the two forms of pattern that the comment of matchPatternAllowlist names.
use webapp_wago.Base.{
  true, ◌&&◌, ◌||◌, List, [], ◌∷◌, ◌++◌, Any, Option, none, some, length, ◌≡◌, ◌≢◌, ◌↔◌, ◌⊎◌, inl,
  inr, refl, arith, Bool-cases, and-true, sym, subst, ◌∙◌, map, any-middle, ◌==◌,
}
use webapp_wago.Base.Text.{Text, text_eq, text_eq→eq}
use webapp_wago.Webhook.Glob.{glob, parse, Token, match_tokens, well_formed, lit, star}
use webapp_wago.Webhook.Filter.{match_pattern_allowlist, match_entry, has_meta}
use webapp_wago.Webhook.Pattern.{Matches, match_tokens-Matches}
use webapp_wago.Webhook.Firing.{IsAdmitted, admitted, Any-map}
use webapp_wago.Webhook.Affix.{
  NoSlash, IsPlain, glob_prefix, parse_prefix, glob_of_tokens, parse_suffix, match_suffix,
  prefix_of, suffix_of, plain,
}

pub glob-Matches :
    (a v : Text)
    → glob a v ≡ true
    → (ts : List Token) × (parse (length a) a ≡ some ts) × Matches ts v
unfolding glob
glob-Matches a v h = of (parse (length a) a) refl h
  where
    of :
        (o : Option (List Token))
        → parse (length a) a ≡ o
        → well_formed o (λ ts. match_tokens ts v) ≡ true
        → (ts : List Token) × (parse (length a) a ≡ some ts) × Matches ts v
    of none e h' = cc
    of (some ts) e h' = (ts, e, match_tokens-Matches ts v h')

-- A value that an allowlist lets through is not filtered at all, or it is not missing and some
-- entry either equals it or is a well-formed pattern that matches it, where a star takes any
-- runes but a slash.
pub match_pattern_allowlist_sound :
    (allow : List Text) (value : Text)
    → match_pattern_allowlist allow value ≡ true
    → (allow ≡ [])
      ⊎ ((value ≢ [])
          × Any
              (λ a.
                (a ≡ value)
                ⊎ ((ts : List Token) × (parse (length a) a ≡ some ts) × Matches ts value))
              allow)
match_pattern_allowlist_sound allow value h = of ((admitted allow value).0 h)
  where
    of :
        IsAdmitted allow value
        → (allow ≡ [])
          ⊎ ((value ≢ [])
              × Any
                  (λ a.
                    (a ≡ value)
                    ⊎ ((ts : List Token) × (parse (length a) a ≡ some ts) × Matches ts value))
                  allow)
    of (inl e) = inl e
    of (inr (n, k)) = inr (n, Any-map entry allow k)
      where
        entry :
            (a : Text)
            → (a ≡ value) ⊎ ((has_meta a ≡ true) × (glob a value ≡ true))
            → (a ≡ value) ⊎ ((ts : List Token) × (parse (length a) a ≡ some ts) × Matches ts value)
        entry a (inl e) = inl e
        entry a (inr (m, g)) = inr (glob-Matches a value g)

only :
    (a v : Text)
    → v ≢ []
    → match_pattern_allowlist (a ∷ []) v ≡ (text_eq a v || (has_meta a && glob a v))
unfolding match_pattern_allowlist match_entry
only a [] n = absurd (n refl)
only a (c ∷ v) n = ground arith

some-injective : {a b : List Token} → ◌≡◌ {A = Option (List Token)} (some a) (some b) → a ≡ b
some-injective e = cc

nonempty : (a v : Text) → match_pattern_allowlist (a ∷ []) v ≡ true → v ≢ []
unfolding match_pattern_allowlist
nonempty a [] h = cc
nonempty a (c ∷ v) h = λ e. cc

equal_or_Matches :
    (a v : Text) (ts : List Token)
    → parse (length a) a ≡ some ts
    → match_pattern_allowlist (a ∷ []) v ≡ true
    → (a ≡ v) ⊎ Matches ts v
equal_or_Matches a v ts e h = elim (Bool-cases (text_eq a v)) [
  | inl k ↦ inl (text_eq→eq a v k)
  | inr k ↦
      (let h' : (text_eq a v || (has_meta a && glob a v)) ≡ true =
          sym (only a v (nonempty a v h)) ∙ h in
        let (m, g) = and-true (has_meta a) (glob a v) (rw k at h') in
        let (ts', e', m') = glob-Matches a v g in
        let e'' : ts' ≡ ts = some-injective (sym e' ∙ e) in inr (subst (λ us. Matches us v) e'' m'))
]

meta_end : (p : Text) → has_meta (p ++ b'*' ∷ []) ≡ true
unfolding has_meta
meta_end p = any-middle (λ c. c == b'*' || c == b'?' || c == b'[') p b'*' [] refl

meta_start : (s : Text) → has_meta (b'*' ∷ s) ≡ true
unfolding has_meta
meta_start s = refl

lets_through :
    (a v : Text)
    → v ≢ []
    → has_meta a ≡ true
    → glob a v ≡ true
    → match_pattern_allowlist (a ∷ []) v ≡ true
lets_through a v n m g = only a v n ∙ rw (m, g) (ground arith)

-- An allowlist of one pattern `p*`, with no metacharacter in `p`, lets through exactly the values
-- that are not missing and are `p` with some runes after it, none of them a slash.
pub match_pattern_allowlist_prefix :
    (p v : Text)
    → IsPlain p
    → (match_pattern_allowlist ((p ++ b'*' ∷ []) ∷ []) v ≡ true)
      ↔ ((v ≢ []) × ((w : Text) × (v ≡ p ++ w) × NoSlash w))
match_pattern_allowlist_prefix p v h = (
  λ k. (nonempty _ v k, of (equal_or_Matches _ v _ (parse_prefix p h) k)),
  λ (n, (w, e, hw)). lets_through (p ++ b'*' ∷ []) v n (meta_end p) (rw e (glob_prefix p w h hw)),
)
  where
    of :
        ((p ++ b'*' ∷ []) ≡ v) ⊎ Matches (map lit p ++ star ∷ []) v
        → (w : Text) × (v ≡ p ++ w) × NoSlash w
    of (inl e) = (b'*' ∷ [], sym e, (refl, tt))
    of (inr m) = prefix_of p v m

-- An allowlist of one pattern `*s`, with no metacharacter in `s`, lets through exactly the values
-- that are not missing and are `s` with some runes before it, none of them a slash.
pub match_pattern_allowlist_suffix :
    (s v : Text)
    → IsPlain s
    → (match_pattern_allowlist ((b'*' ∷ s) ∷ []) v ≡ true)
      ↔ ((v ≢ []) × ((w : Text) × (v ≡ w ++ s) × NoSlash w))
match_pattern_allowlist_suffix s v h = (
  λ k. (nonempty _ v k, of (equal_or_Matches _ v _ (parse_suffix s h) k)),
  λ (n, (w, e, hw)). lets_through (b'*' ∷ s) v n (meta_start s) (
      glob_of_tokens (b'*' ∷ s) v (star ∷ map lit s) (parse_suffix s h)
        (rw e (match_suffix s w hw))),
)
  where
    of : ((b'*' ∷ s) ≡ v) ⊎ Matches (star ∷ map lit s) v → (w : Text) × (v ≡ w ++ s) × NoSlash w
    of (inl e) = (b'*' ∷ [], sym e, (refl, tt))
    of (inr m) = suffix_of (plain s) v m
