-- ===== src/Base/Splitting.antt =====
-- A text that was joined from parts, split again.
use mathlib.Core.Path.{◌≡◌, refl, ap, ◌∙◌}
use mathlib.Core.Bool.{true, false}
use mathlib.Core.List.{List, [], ◌∷◌, ◌++◌}
use Prim.Native.Nat.{ℕ}
use native.Mathlib.Omega.{arith}
use webapp_wago.Base.Tests.{◌==◌}
use webapp_wago.Base.Lists.{All}
use webapp_wago.Base.Text.{Text, split, join}
use webapp_wago.Base.Containment.{Lacks}

pub split_of_Lacks : (c : ℕ) (s : Text) → Lacks c s → split c s ≡ s ∷ []
unfolding split
split_of_Lacks c [] h = refl
split_of_Lacks c (d ∷ s) (ne, h) =
    let f : (d == c) ≡ false = ground arith in rw (f, split_of_Lacks c s h) refl

pub split-append : (c : ℕ) (s t : Text) → Lacks c s → split c (s ++ c ∷ t) ≡ s ∷ split c t
unfolding split
split-append c [] t h = let f : (c == c) ≡ true = ground arith in rw f refl
split-append c (d ∷ s) t (ne, h) =
    let f : (d == c) ≡ false = ground arith in rw (f, split-append c s t h) refl

-- Parts without the separator come back, if there are any.
pub split-join :
    (c : ℕ) (p : Text) (ps : List Text)
    → All (Lacks c) (p ∷ ps)
    → split c (join c (p ∷ ps)) ≡ p ∷ ps
unfolding join
split-join c p [] (h, t) = split_of_Lacks c p h
split-join c p (q ∷ ps) (h, t) =
    split-append c p (join c (q ∷ ps)) h ∙ ap (λ r. p ∷ r) (split-join c q ps t)
