-- ===== src/Base/Table.antt =====
-- A `switch` or a map over texts that are written out, as a list of pairs.
use mathlib.Core.Path.{◌≡◌, sym, subst}
use mathlib.Core.Logic.{inl, inr}
use mathlib.Core.Option.{Option, none, some}
use mathlib.Core.List.{List, [], ◌∷◌}
use webapp_wago.Base.Tests.{if◌then◌else◌, Bool-cases}
use webapp_wago.Base.Lists.{All}
use webapp_wago.Base.Text.{Text, text_eq, text_eq→eq}

module _ {ℓ} {A : Type ℓ} where
  unfoldable pub assoc : Text → List (Text × A) → Option A
  assoc k [] = none
  assoc k ((j, a) ∷ ps) = let rest = assoc k ps in if text_eq k j then some a else rest

  -- What holds of each pair holds of the key that was looked up and its value.
  pub assoc-All {κ} :
      (P : Text × A → Type κ) (k : Text) (a : A) (ps : List (Text × A))
      → All P ps
      → assoc k ps ≡ some a
      → P (k, a)
  unfolding assoc
  assoc-All P k a [] h e = cc
  assoc-All P k a ((j, b) ∷ ps) (hp, h) e = elim (Bool-cases (text_eq k j)) [
    | inl t ↦
        (let e' : ◌≡◌ {A = Option A} (some b) (some a) = rw t at e in
          let v : b ≡ a = cc in
          subst (λ x. P (k, x)) v (subst (λ x. P (x, b)) (sym (text_eq→eq k j t)) hp))
    | inr f ↦ assoc-All P k a ps h (rw f at e)
  ]
