-- ===== src/Validation/Passed.antt =====
-- What a handler finds behind ValidateJIDFields of pkg/middleware/jid_validation_middleware.go.
use webapp_wago.Base.{
  ◌≡◌, refl, sym, ◌∙◌, ap, subst, Bool, true, false, List, [], ◌∷◌, Option, none, some, ok, err,
  Result-cases, ◌⊎◌, inl, inr, ◌↔◌, All,
}
use webapp_wago.Base.Text.{Text, text_eq, text_eq_refl}
use webapp_wago.Json.{Json, text, Fields, get}
use webapp_wago.Validation.{Reject, Request, Body, decoded, abort, next, conclude, is_json}
use webapp_wago.Validation.Named.{check_field, check_fields, validate_jid_fields}
use webapp_wago.Validation.Canonical.{IsCanonical, check_field-ok, check_field-absent}
use webapp_wago.Validation.Loop.{
  AllAcceptable, AcceptsAll, check_fields-AcceptsAll, check_fields-AllAcceptable, check_fields-step,
  check_fields-nil,
}

-- A request with a JSON body that decodes to a map.
abbrev pub json_request : Text → (Text → Text) → Fields → Request
json_request content_type form m = record {
  content_type = content_type;
  body = decoded m;
  form = form;
}

module _ (names : List Text) (ct : Text) (form : Text → Text) (m : Fields)
    (json : is_json ct ≡ true) where
  run :
      validate_jid_fields names (json_request ct form m)
      ≡ conclude (decoded m) (check_fields names m false)
  unfolding validate_jid_fields
  run = rw json refl

  -- What is passed on is the checked map, modified or not.
  conclude-ok :
      (r : Fields × Bool)
      → AcceptsAll names m false r
      → conclude (decoded m) (ok r) ≡ next (decoded (r.0))
  unfolding conclude
  conclude-ok (m', true) a = refl
  conclude-ok (m', false) a = ap (λ m. next (decoded m)) (sym ((a.untouched refl).0))

  passed :
      AllAcceptable names m
      → (m' : Fields) × (validate_jid_fields names (json_request ct form m) ≡ next (decoded m'))
        × All (λ name. IsCanonical (get name m')) names
        × ((k : Text) → All (λ name. text_eq name k ≡ false) names → get k m' ≡ get k m)
  passed h =
      let (r, e, a) = check_fields-AcceptsAll names m false h in
      (r.0, run ∙ ap (conclude (decoded m)) e ∙ conclude-ok r a, a.canonical, a.others)

  turned_away : (e : Reject) → conclude (decoded m) (err e) ≡ abort e
  unfolding conclude
  turned_away e = refl

  accepted :
      (body : Body)
      → validate_jid_fields names (json_request ct form m) ≡ next body
      → AllAcceptable names m
  accepted body h = of (Result-cases (check_fields names m false))
    where
      of :
          ((r : Fields × Bool) × (check_fields names m false ≡ ok r))
            ⊎ ((e : Reject) × (check_fields names m false ≡ err e))
          → AllAcceptable names m
      of (inl (r, e)) = check_fields-AllAcceptable names m false r e
      of (inr (e, f)) = cc (sym run ∙ h, ap (conclude (decoded m)) f, turned_away e)

check_field-canonical :
    (name : Text) (m : Fields) → IsCanonical (get name m) → check_field name m ≡ ok (m, false)
check_field-canonical name m h = of (get name m) refl h
  where
    of : (v : Option Json) → get name m ≡ v → IsCanonical v → check_field name m ≡ ok (m, false)
    of none g h = check_field-absent name m g
    of (some (text s)) g h = check_field-ok name m s s g h ∙ rw (text_eq_refl s) refl
    of (some _) g h = absurd h

check_fields-canonical :
    (names : List Text) (m : Fields)
    → All (λ name. IsCanonical (get name m)) names
    → check_fields names m false ≡ ok (m, false)
check_fields-canonical [] m h = check_fields-nil m false
check_fields-canonical (name ∷ names) m (here, later) =
    check_fields-step name names m false (m, false) (check_field-canonical name m here)
    ∙ check_fields-canonical names m later

-- A JSON request whose body is a map passes ValidateJIDFields exactly where every named field is
-- absent or holds a text that CreateJID accepts; a number, an array or the empty text under one of
-- the names turns it away.
pub validate_jid_fields-next_iff :
    (names : List Text) (ct : Text) (form : Text → Text) (m : Fields)
    → is_json ct ≡ true
    → ((body : Body) × (validate_jid_fields names (json_request ct form m) ≡ next body))
      ↔ AllAcceptable names m
validate_jid_fields-next_iff names ct form m json = (
  λ (body, h). accepted names ct form m json body h,
  λ h. let (m', e, _, _) = passed names ct form m json h in (decoded m', e),
)

-- Of a body that decodes to a map, with numbers as float64, a handler behind ValidateJIDFields that
-- decodes to a map again reads one in which every named field is absent or holds an address that
-- CreateJID leaves as it is, and in which all other fields are those of the first map.
pub validate_jid_fields-IsCanonical :
    (names : List Text) (ct : Text) (form : Text → Text) (m : Fields) (body : Body)
    → is_json ct ≡ true
    → validate_jid_fields names (json_request ct form m) ≡ next body
    → (m' : Fields) × (body ≡ decoded m')
      × All (λ name. IsCanonical (get name m')) names
      × ((k : Text) → All (λ name. text_eq name k ≡ false) names → get k m' ≡ get k m)
validate_jid_fields-IsCanonical names ct form m body json h =
    let (m', e, canonical, others) =
      passed names ct form m json (accepted names ct form m json body h) in
    (m', next-injective (sym h ∙ e), canonical, others)
  where
    next-injective : {b c : Body} → next b ≡ next c → b ≡ c
    next-injective e = cc

-- Sent through ValidateJIDFields once more, the body that passed it passes unchanged.
pub validate_jid_fields_twice :
    (names : List Text) (ct : Text) (form : Text → Text) (m m' : Fields)
    → is_json ct ≡ true
    → validate_jid_fields names (json_request ct form m) ≡ next (decoded m')
    → validate_jid_fields names (json_request ct form m') ≡ next (decoded m')
validate_jid_fields_twice names ct form m m' json h =
    let (n, same, canonical, _) =
      validate_jid_fields-IsCanonical names ct form m (decoded m') json h in
    let canonical' =
      subst (λ k. All (λ name. IsCanonical (get name k)) names) (sym (decoded-injective same))
        canonical in
    run names ct form m' json
    ∙ ap (conclude (decoded m')) (check_fields-canonical names m' canonical')
    ∙ untouched m'
  where
    decoded-injective : {b c : Fields} → decoded b ≡ decoded c → b ≡ c
    decoded-injective e = cc

    untouched : (k : Fields) → conclude (decoded k) (ok (k, false)) ≡ next (decoded k)
    untouched k = unfold conclude in refl
