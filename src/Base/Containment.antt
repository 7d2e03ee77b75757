-- ===== src/Base/Containment.antt =====
-- Prefixes, suffixes and parts of texts.
use Prim.Native.Nat.{ℕ}
use mathlib.Core.Path.{◌≡◌, refl, ap, ap₂, ◌∙◌, sym}
use mathlib.Core.Logic.{◌≢◌, inl, inr}
use mathlib.Core.Bool.{Bool, false≢true, true, false}
use mathlib.Core.List.{[], ◌∷◌, ◌++◌}
use native.Mathlib.Omega.{arith}
use webapp_wago.Base.Tests.{◌==◌, or-true, and-true, ==_iff}
use webapp_wago.Base.Lists.{All}
use webapp_wago.Base.Text.{
  Text, text_eq, text_eq_refl, text_eq→eq, has_prefix, has_suffix, contains, remove, split_first,
}

pub has_prefix-append : (s t : Text) → has_prefix (s ++ t) s ≡ true
unfolding has_prefix
has_prefix-append [] [] = refl
has_prefix-append [] (c ∷ t) = refl
has_prefix-append (c ∷ s) t = ground (arith, has_prefix-append s t)

-- A text begins with another exactly where it is that and a rest.
pub has_prefix→append : (s p : Text) → has_prefix s p ≡ true → (t : Text) × (s ≡ p ++ t)
unfolding has_prefix
has_prefix→append s [] h = (s, refl)
has_prefix→append [] (d ∷ p) h = cc
has_prefix→append (c ∷ s) (d ∷ p) h =
    let (here, later) = and-true (c == d) (has_prefix s p) h in
    let (t, e) = has_prefix→append s p later in (t, ap₂ (λ a b. a ∷ b) ((==_iff c d).0 here) e)

has_prefix_refl : (s : Text) → has_prefix s s ≡ true
unfolding has_prefix
has_prefix_refl [] = refl
has_prefix_refl (c ∷ s) = ground (arith, has_prefix_refl s)

pub contains-append : (s t : Text) → contains (s ++ t) t ≡ true
unfolding contains has_prefix
contains-append [] [] = refl
contains-append [] (c ∷ t) = ground (arith, has_prefix_refl (c ∷ t))
contains-append (c ∷ s) t = ground (arith, contains-append s t)

pub has_suffix-append : (s t : Text) → has_suffix (s ++ t) t ≡ true
unfolding has_suffix
has_suffix-append [] [] = text_eq_refl []
has_suffix-append [] (c ∷ t) = ground (arith, text_eq_refl (c ∷ t))
has_suffix-append (c ∷ s) t = ground (arith, has_suffix-append s t)

pub has_suffix→append : (s t : Text) → has_suffix s t ≡ true → (p : Text) × (s ≡ p ++ t)
unfolding has_suffix
has_suffix→append [] t h = ([], text_eq→eq [] t h)
has_suffix→append (c ∷ s) t h = elim (or-true (text_eq (c ∷ s) t) (has_suffix s t) h) [
  | inl e ↦ ([], text_eq→eq (c ∷ s) t e)
  | inr e ↦ let (p, q) = has_suffix→append s t e in (c ∷ p, ap (λ r. c ∷ r) q)
]

-- A text without a rune.
abbrev pub Lacks : ℕ → Text → Type 0
Lacks c s = All (λ d. d ≢ c) s

-- It holds no text that begins with the rune.
pub contains-Lacks : (c : ℕ) (s t : Text) → Lacks c s → contains s (c ∷ t) ≡ false
unfolding contains has_prefix
contains-Lacks c [] t h = refl
contains-Lacks c (d ∷ s) t (ne, h) = ground (arith, contains-Lacks c s t h)

pub split_first-Lacks : (c : ℕ) (s : Text) → Lacks c (split_first c s)
unfolding split_first
split_first-Lacks c [] = tt
split_first-Lacks c (d ∷ s) = ground (arith, split_first-Lacks c s)

pub split_first_of_Lacks : (c : ℕ) (s : Text) → Lacks c s → split_first c s ≡ s
unfolding split_first
split_first_of_Lacks c [] h = refl
split_first_of_Lacks c (d ∷ s) (ne, h) = ground (arith, split_first_of_Lacks c s h)

pub split_first-append : (c : ℕ) (s t : Text) → Lacks c s → split_first c (s ++ c ∷ t) ≡ s
unfolding split_first
split_first-append c [] t h = ground arith
split_first-append c (d ∷ s) t (ne, h) = ground (arith, split_first-append c s t h)

pub remove_of_Lacks : (c : ℕ) (s : Text) → Lacks c s → remove c s ≡ s
unfolding remove
remove_of_Lacks c [] h = refl
remove_of_Lacks c (d ∷ s) (ne, h) = ground (arith, remove_of_Lacks c s h)

-- Every rune passes a test that a rune fails.
pub Lacks-of_All :
    (p : ℕ → Bool) (c : ℕ) (s : Text) → p c ≡ false → All (λ d. p d ≡ true) s → Lacks c s
Lacks-of_All p c [] fails h = tt
Lacks-of_All p c (d ∷ s) fails (here, h) =
    (λ e. false≢true (sym fails ∙ ap p (sym e) ∙ here), Lacks-of_All p c s fails h)

-- A text without the first rune of what is looked for does not help to find it.
pub contains-append_of_Lacks :
    (c : ℕ) (s t p : Text) → Lacks c s → contains (s ++ t) (c ∷ p) ≡ contains t (c ∷ p)
unfolding contains has_prefix
contains-append_of_Lacks c [] t p h = refl
contains-append_of_Lacks c (d ∷ s) t p (ne, h) = ground (arith, contains-append_of_Lacks c s t p h)
