-- ===== src/Routing/Finding.antt =====
-- Find of pkg/utils/utils.go, by which pkg/whatsmeow/service/whatsmeow.go looks names up.
use webapp_wago.Base.{
  Bool, true, false, ◌||◌, List, [], ◌∷◌, ◌++◌, any, map, ◌≡◌, inl, inr, refl, arith, Bool-cases,
}
use webapp_wago.Base.Text.{Text, text_eq, text_eq_refl, text_eq→eq}
use webapp_wago.Routing.{find}

-- A text is one of a list.
abbrev pub IsIn : Text → List Text → Type 0
IsIn x xs = find xs x ≡ true

pub or_right : (a b : Bool) → b ≡ true → (a || b) ≡ true
or_right true b e = refl
or_right false b e = e

pub find-map : (f : Text → Text) (x : Text) (xs : List Text) → IsIn x xs → IsIn (f x) (map f xs)
unfolding find
find-map f x [] h = cc
find-map f x (y ∷ ys) h = elim (Bool-cases (text_eq y x)) [
  | inl e ↦ rw (text_eq→eq y x e, text_eq_refl (f x)) refl
  | inr e ↦
      (let ih : any (λ z. text_eq z (f x)) (map f ys) ≡ true = find-map f x ys (rw e at h) in
        ground (arith, ih))
]

pub find-append : (x : Text) (xs ys : List Text) → find (xs ++ ys) x ≡ (find xs x || find ys x)
unfolding find
find-append x [] ys = refl
find-append x (z ∷ xs) ys = ground (arith, find-append x xs ys)
