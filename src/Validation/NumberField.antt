-- ===== src/Validation/NumberField.antt =====
-- The guarantees of ValidateNumberField and ValidateNumberFieldWithFormatJid of
-- pkg/middleware/jid_validation_middleware.go.
use webapp_wago.Base.{
  ℕ, ◌≡◌, ◌||◌, ◌+◌, refl, sym, ◌∙◌, ap, subst, Bool, true, false, not, [], ◌∷◌, Option, none, some,
  ok, err, if◌then◌else◌, fun_ext, Bool-cases, ok-injective, ◌⊎◌, inl, inr, >>=-eq-ok,
}
use webapp_wago.Base.Text.{Text, codes, text_eq, text_eq→eq}
use webapp_wago.Json.{Json, text, array, Items, nil, cons, Fields, get}
use webapp_wago.Jid.{create_jid}
use webapp_wago.Jid.Canonical.{create_jid_idempotent}
use webapp_wago.Validation.{Body, decoded, next, Checked, conclude, run_json, is_json, normalize}
use webapp_wago.Validation.Numbers.{
  Rule, check_item, check_items, check_number_value, number_key, check_number,
  validate_number_field, format_jid_of, number_rule, validate_number_field_with_format_jid,
}
use webapp_wago.Validation.Passed.{json_request}
use webapp_wago.Validation.Recipients.{IsGoodNumber, Leaves, check_number_value-good}

-- An address that CreateJID leaves as it is.
abbrev pub IsAddress : Text → Type 0
IsAddress s = create_jid s ≡ ok s

normalize_sound :
    (s j : Text) (b : Bool) → normalize s ≡ ok (j, b) → IsAddress j × (b ≡ false → j ≡ s)
unfolding normalize
normalize_sound s j b h =
    let (k, e, h') = >>=-eq-ok (create_jid s) _ h in
    subst (λ (q : Text × Bool). IsAddress (q.0) × (q.1 ≡ false → q.0 ≡ s)) (ok-injective h')
      (create_jid_idempotent s k e, λ f. text_eq→eq k s (not-false (text_eq k s) f))
  where
    not-false : (b : Bool) → not b ≡ false → b ≡ true
    not-false true f = refl
    not-false false f = cc

raw_sound :
    (s j : Text) (b : Bool) → number_rule false s ≡ ok (j, b) → (Unit {0}) × (b ≡ false → j ≡ s)
unfolding number_rule
raw_sound s j b h = (tt, λ f. sym (ap (λ (q : Text × Bool). q.0) (ok-injective h)))

check_number-Leaves :
    (rule : Rule) (Good : Text → Type 0)
    (sound : (s j : Text) (b : Bool) → rule s ≡ ok (j, b) → Good j × (b ≡ false → j ≡ s))
    (m : Fields) (r : Fields × Bool)
    → check_number rule m ≡ ok r
    → Leaves Good m r
unfolding check_number
check_number-Leaves rule Good sound m r h =
    check_number_value-good rule Good sound m (get number_key m) r refl h

-- What a JSON request that passes a check of its map hands on.
passes :
    (check : Fields → Checked) (m : Fields) (body : Body)
    → run_json check (decoded m) ≡ next body
    → (r : Fields × Bool) × (check m ≡ ok r) × (body ≡ decoded (if r.1 then r.0 else m))
unfolding run_json
passes check m body h = of (check m) refl h
  where
    of :
        (c : Checked)
        → check m ≡ c
        → conclude (decoded m) c ≡ next body
        → (r : Fields × Bool) × (check m ≡ ok r) × (body ≡ decoded (if r.1 then r.0 else m))
    of (ok (k, true)) e h = ((k, true), e, cc)
    of (ok (k, false)) e h = ((k, false), e, cc)
    of (err f) e h = cc

-- The map that is handed on, as its readers see it.
abbrev pub Delivers : (Text → Type 0) → Fields → Body → Type 0
Delivers Good m body =
    (m' : Fields) × (body ≡ decoded m')
    × IsGoodNumber Good (get number_key m')
    × ((k : Text) → text_eq number_key k ≡ false → get k m' ≡ get k m)

Leaves-Delivers :
    (Good : Text → Type 0) (m : Fields) (r : Fields × Bool) (body : Body)
    → Leaves Good m r
    → body ≡ decoded (if r.1 then r.0 else m)
    → Delivers Good m body
Leaves-Delivers Good m (k, true) body l e = (k, e, l.good, l.others)
Leaves-Delivers Good m (k, false) body l e = (m, e, l.good, λ k ne. refl)

check_number-Delivers :
    (rule : Rule) (Good : Text → Type 0)
    (sound : (s j : Text) (b : Bool) → rule s ≡ ok (j, b) → Good j × (b ≡ false → j ≡ s))
    (m : Fields) (body : Body)
    → run_json (check_number rule) (decoded m) ≡ next body
    → Delivers Good m body
check_number-Delivers rule Good sound m body h =
    let (r, e, same) = passes (check_number rule) m body h in
    Leaves-Delivers Good m r body (check_number-Leaves rule Good sound m r e) same

-- Behind ValidateNumberField a JSON request has no number, one address that CreateJID leaves as it
-- is, or an array of such addresses that is not empty; all other fields are as they were sent.
pub validate_number_field-IsGoodNumber :
    (ct : Text) (form : Text → Text) (m : Fields) (body : Body)
    → is_json ct ≡ true
    → validate_number_field (json_request ct form m) ≡ next body
    → Delivers IsAddress m body
unfolding validate_number_field
validate_number_field-IsGoodNumber ct form m body json h =
    check_number-Delivers normalize IsAddress normalize_sound m body (rw json at h)

abbrev pub format_key : Text
format_key = codes "formatJid"

with_format :
    (ct : Text) (form : Text → Text) (m : Fields) (b : Bool)
    → is_json ct ≡ true
    → format_jid_of (get format_key m) ≡ b
    → validate_number_field_with_format_jid (json_request ct form m)
      ≡ run_json (check_number (number_rule b)) (decoded m)
unfolding validate_number_field_with_format_jid run_json
with_format ct form m b json f = rw (json, f) refl

number_rule-true : number_rule true ≡ normalize
unfolding number_rule
number_rule-true = fun_ext (λ s. refl)

-- Where formatting is off nothing is modified.
raw_item :
    (name : Text) (i : ℕ) (v : Json) (r : Json × Bool)
    → check_item true name i (number_rule false) v ≡ ok r
    → r.1 ≡ false
unfolding check_item number_rule
raw_item name i (text (c ∷ s)) r h = sym (ap (λ (q : Json × Bool). q.1) (ok-injective h))
raw_item name i v r h = cc

raw_items :
    (name : Text) (i : ℕ) (vs : Items) (b : Bool) (r : Items × Bool)
    → check_items true name i (number_rule false) vs b ≡ ok r
    → r.1 ≡ b
unfolding check_items
raw_items name i nil b r h = sym (ap (λ (q : Items × Bool). q.1) (ok-injective h))
raw_items name i (cons v vs) b r h =
    let (q, e, h') = >>=-eq-ok (check_item true name i (number_rule false) v) _ h in
    let (rest, e', h'') =
      >>=-eq-ok (check_items true name (i + 1) (number_rule false) vs (b || q.1)) _ h' in
    sym (ap (λ (q : Items × Bool). q.1) (ok-injective h''))
    ∙ raw_items name (i + 1) vs (b || q.1) rest e'
    ∙ rw (raw_item name i v q e) (or-false_right b)
  where
    or-false_right : (b : Bool) → (b || false) ≡ b
    or-false_right true = refl
    or-false_right false = refl

raw_value :
    (m : Fields) (v : Option Json) (r : Fields × Bool)
    → check_number_value (number_rule false) m v ≡ ok r
    → r.1 ≡ false
unfolding check_number_value number_rule
raw_value m none r h = sym (ap (λ (q : Fields × Bool). q.1) (ok-injective h))
raw_value m (some (array nil)) r h = cc
raw_value m (some (array (cons v vs))) r h =
    let (q, e, h') =
      >>=-eq-ok (check_items true number_key 0 (number_rule false) (cons v vs) false) _ h in
    sym (ap (λ (q : Fields × Bool). q.1) (ok-injective h'))
    ∙ raw_items number_key 0 (cons v vs) false q e
raw_value m (some (text [])) r h = cc
raw_value m (some (text (c ∷ s))) r h = sym (ap (λ (q : Fields × Bool). q.1) (ok-injective h))
raw_value m (some _) r h = cc

raw_number :
    (m : Fields) (r : Fields × Bool) → check_number (number_rule false) m ≡ ok r → r.1 ≡ false
unfolding check_number
raw_number m r h = raw_value m (get number_key m) r h

check_number-raw :
    (m : Fields) (body : Body)
    → run_json (check_number (number_rule false)) (decoded m) ≡ next body
    → (body ≡ decoded m) × IsGoodNumber (λ _. Unit {0}) (get number_key m)
check_number-raw m body h =
    let (r, e, same) = passes (check_number (number_rule false)) m body h in
    let kept : (if r.1 then r.0 else m) ≡ m = rw (raw_number m r e) refl in
    (
      same ∙ ap decoded kept,
      subst (λ k. IsGoodNumber (λ _. Unit {0}) (get number_key k)) kept
          (Leaves.good (check_number-Leaves (number_rule false) (λ _. Unit {0}) raw_sound m r e)),
    )

-- The same holds behind ValidateNumberFieldWithFormatJid, unless the body has "formatJid" false;
-- then the request passes as it was sent or not at all, and what passes has no number, one text,
-- or an array of texts that is not empty.
pub validate_number_field_with_format_jid_lem :
    (ct : Text) (form : Text → Text) (m : Fields) (body : Body)
    → is_json ct ≡ true
    → validate_number_field_with_format_jid (json_request ct form m) ≡ next body
    → ((format_jid_of (get format_key m) ≡ true) × Delivers IsAddress m body)
      ⊎ ((format_jid_of (get format_key m) ≡ false)
          × ((body ≡ decoded m) × IsGoodNumber (λ _. Unit {0}) (get number_key m)))
validate_number_field_with_format_jid_lem ct form m body json h =
    elim (Bool-cases (format_jid_of (get format_key m))) [
      | inl on ↦ inl (
        on,
        check_number-Delivers normalize IsAddress normalize_sound m body (
            ap (λ rule. run_json (check_number rule) (decoded m)) (sym number_rule-true)
            ∙ sym (with_format ct form m true json on)
            ∙ h),
      )
      | inr off ↦
          inr (off, check_number-raw m body (sym (with_format ct form m false json off) ∙ h))
    ]
