-- ===== src/Validation/Loop.antt =====
-- The loop over the field names of ValidateJIDFields of pkg/middleware/jid_validation_middleware.go.
use webapp_wago.Base.{
  ◌≡◌, refl, sym, ◌∙◌, subst, Bool, false, ◌||◌, List, [], ◌∷◌, ok, err, Result-cases, Bool-cases,
  ◌⊎◌, inl, inr, All, or-false,
}
use webapp_wago.Base.Text.{Text, text_eq, text_eq→eq}
use webapp_wago.Json.{Fields, get}
use webapp_wago.Validation.{Reject}
use webapp_wago.Validation.Named.{check_field, check_fields}
use webapp_wago.Validation.Canonical.{
  IsCanonical, IsAcceptable, IsCanonical-IsAcceptable, Accepts, check_field-IsAcceptable,
  check_field-Accepts,
}

-- What the loop does to the map when every field is acceptable.
pub record AcceptsAll (names : List Text) (m : Fields) (b : Bool) (r : Fields × Bool) : Type 0 where
  pub canonical : All (λ name. IsCanonical (get name (r.0))) names
  pub keeps : (k : Text) → IsCanonical (get k m) → IsCanonical (get k (r.0))
  pub others : (k : Text) → All (λ name. text_eq name k ≡ false) names → get k (r.0) ≡ get k m
  pub untouched : r.1 ≡ false → (r.0 ≡ m) × (b ≡ false)

module _ {name : Text} {m : Fields} {r : Fields × Bool} (a : Accepts name m r) where
  Accepts-keeps : (k : Text) → IsCanonical (get k m) → IsCanonical (get k (r.0))
  Accepts-keeps k h = elim (Bool-cases (text_eq name k)) [
    | inl same ↦ subst (λ k. IsCanonical (get k (r.0))) (text_eq→eq name k same) a.canonical
    | inr other ↦ subst IsCanonical (sym (a.others k other)) h
  ]

  Accepts-forward : (k : Text) → IsAcceptable (get k m) → IsAcceptable (get k (r.0))
  Accepts-forward k h = elim (Bool-cases (text_eq name k)) [
    | inl same ↦
        subst (λ k. IsAcceptable (get k (r.0))) (text_eq→eq name k same)
          (IsCanonical-IsAcceptable (get name (r.0)) a.canonical)
    | inr other ↦ subst IsAcceptable (sym (a.others k other)) h
  ]

  Accepts-back :
      IsAcceptable (get name m) → (k : Text) → IsAcceptable (get k (r.0)) → IsAcceptable (get k m)
  Accepts-back here k h = elim (Bool-cases (text_eq name k)) [
    | inl same ↦ subst (λ k. IsAcceptable (get k m)) (text_eq→eq name k same) here
    | inr other ↦ subst IsAcceptable (a.others k other) h
  ]

abbrev pub AllAcceptable : List Text → Fields → Type 0
AllAcceptable names m = All (λ name. IsAcceptable (get name m)) names

All-map {ℓ κ μ} :
    {A : Type ℓ} (P : A → Type κ) (Q : A → Type μ) (xs : List A)
    → ((x : A) → P x → Q x)
    → All P xs
    → All Q xs
All-map P Q [] f h = tt
All-map P Q (x ∷ xs) f (p, h) = (f x p, All-map P Q xs f h)

pub check_fields-step :
    (name : Text) (names : List Text) (m : Fields) (b : Bool) (r : Fields × Bool)
    → check_field name m ≡ ok r
    → check_fields (name ∷ names) m b ≡ check_fields names (r.0) (b || r.1)
unfolding check_fields
check_fields-step name names m b r e = rw e refl

pub check_fields-nil : (m : Fields) (b : Bool) → check_fields [] m b ≡ ok (m, b)
unfolding check_fields
check_fields-nil m b = refl

check_fields-err :
    (name : Text) (names : List Text) (m : Fields) (b : Bool) (e : Reject)
    → check_field name m ≡ err e
    → check_fields (name ∷ names) m b ≡ err e
unfolding check_fields
check_fields-err name names m b e h = rw h refl

pub check_fields-AcceptsAll :
    (names : List Text) (m : Fields) (b : Bool)
    → AllAcceptable names m
    → (r : Fields × Bool) × (check_fields names m b ≡ ok r) × AcceptsAll names m b r
check_fields-AcceptsAll [] m b h = (
  (m, b),
  check_fields-nil m b,
  record { canonical = tt; keeps = λ k c. c; others = λ k _. refl; untouched = λ f. (refl, f) },
)
check_fields-AcceptsAll (name ∷ names) m b (here, later) =
    let (r, e, a) = check_field-Accepts name m here in
    let (q, e', c) = check_fields-AcceptsAll names (r.0) (b || r.1) (
      All-map (λ k. IsAcceptable (get k m)) (λ k. IsAcceptable (get k (r.0))) names
        (Accepts-forward a) later) in
    (
      q,
      check_fields-step name names m b r e ∙ e',
      record {
        canonical = (c.keeps name a.canonical, c.canonical);
        keeps = λ k h. c.keeps k (Accepts-keeps a k h);
        others = λ k h. c.others k (h.1) ∙ a.others k (h.0);
        untouched = λ f.
            let (same, flags) = c.untouched f in
            let (old, new) = or-false b (r.1) flags in (same ∙ a.untouched new, old);
      },
    )

pub check_fields-AllAcceptable :
    (names : List Text) (m : Fields) (b : Bool) (r : Fields × Bool)
    → check_fields names m b ≡ ok r
    → AllAcceptable names m
check_fields-AllAcceptable [] m b r e = tt
check_fields-AllAcceptable (name ∷ names) m b r e =
    of (λ m b. check_fields-AllAcceptable names m b r) (Result-cases (check_field name m))
  where
    of :
        ((m : Fields) (b : Bool) → check_fields names m b ≡ ok r → AllAcceptable names m)
        → ((q : Fields × Bool) × (check_field name m ≡ ok q))
          ⊎ ((f : Reject) × (check_field name m ≡ err f))
        → AllAcceptable (name ∷ names) m
    of later (inl (q, h)) =
        let here = check_field-IsAcceptable name m h in
        let (p, h', a) = check_field-Accepts name m here in
        (
          here,
          All-map (λ k. IsAcceptable (get k (p.0))) (λ k. IsAcceptable (get k m)) names
              (Accepts-back a here)
              (later (p.0) (b || p.1) (sym (check_fields-step name names m b p h') ∙ e)),
        )
    of later (inr (f, h)) = cc (check_fields-err name names m b f h)
