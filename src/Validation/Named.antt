-- ===== src/Validation/Named.antt =====
-- ValidateJIDFields and validateFormFields of pkg/middleware/jid_validation_middleware.go.
use webapp_wago.Base.{
  Bool, true, false, ◌||◌, List, [], ◌∷◌, Option, none, some, Result, ok, err, ◌>>=◌, if◌then◌else◌,
}
use webapp_wago.Base.Text.{Text, codes, text_eq}
use webapp_wago.Json.{Json, text, Fields, get, put}
use webapp_wago.Jid.{Error, create_jid}
use webapp_wago.Validation.{
  Reject, invalid_field, empty_field, Request, Outcome, abort, next, Checked, run_json, is_json,
  is_multipart, normalize,
}

-- `requestData[fieldName] = normalizedJID` where it was normalized.
abbrev pub store : Text → Fields → Text × Bool → Fields × Bool
store name m (j, changed) = if changed then (put name (text j) m, true) else (m, false)

abbrev pub rejecting : Text → Result Error (Text × Bool) → Result Reject (Text × Bool)
rejecting name (err e) = err (invalid_field name e)
rejecting name (ok r) = ok r

-- One field: absent, a text that is not empty, or anything else, which counts as empty.
unfoldable pub check_value : Text → Fields → Option Json → Checked
unfolding normalize put
check_value name m none = ok (m, false)
check_value name m (some (text (c ∷ s))) =
    rejecting name (normalize (c ∷ s)) >>= λ r. ok (store name m r)
check_value name m (some _) = err (empty_field name)

unfoldable pub check_field : Text → Fields → Checked
unfolding check_value get
check_field name m = check_value name m (get name m)

-- The loop over the field names, with its flag.
unfoldable pub check_fields : List Text → Fields → Bool → Checked
check_fields [] m modified = ok (m, modified)
check_fields (name ∷ names) m modified =
    check_field name m >>= λ r. check_fields names (r.0) (modified || r.1)

unfoldable pub form_value : Text → Text → Option Reject
unfolding create_jid text_eq codes
form_value name [] = if text_eq name (codes "number") then some (empty_field name) else none
form_value name (c ∷ s) = elim (create_jid (c ∷ s)) [
  | ok j ↦ none
  | err e ↦ some (invalid_field name e)
]

-- `validateFormFields`: a form is checked and passed on as it is.
unfoldable pub validate_form_fields : List Text → Request → Outcome
unfolding form_value
validate_form_fields [] r = next r.body
validate_form_fields (name ∷ names) r = elim (form_value name (r.form name)) [
  | none ↦ validate_form_fields names r
  | some e ↦ abort e
]

-- `ValidateJIDFields`.
unfoldable pub validate_jid_fields : List Text → Request → Outcome
unfolding is_json is_multipart run_json validate_form_fields check_fields check_field
validate_jid_fields names r =
    if is_json r.content_type
    then run_json (λ m. check_fields names m false) r.body
    else if is_multipart r.content_type
    then validate_form_fields names r
    else next r.body
