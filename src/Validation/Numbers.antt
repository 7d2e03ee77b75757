-- ===== src/Validation/Numbers.antt =====
-- ValidateNumberField, ValidateMultipleNumbers and ValidateNumberFieldWithFormatJid of
-- pkg/middleware/jid_validation_middleware.go.
use webapp_wago.Base.{
  ℕ, ◌+◌, Bool, true, false, ◌||◌, [], ◌∷◌, Option, none, some, Result, ok, err, ◌>>=◌,
  if◌then◌else◌,
}
use webapp_wago.Base.Text.{Text, codes}
use webapp_wago.Json.{Json, boolean, text, array, Items, nil, cons, Fields, get, put}
use webapp_wago.Jid.{Error}
use webapp_wago.Validation.{
  Reject, empty_field, empty_array, wrong_type, invalid_item, empty_item, Request, Outcome, next,
  Checked, run_json, is_json, is_multipart, normalize,
}
use webapp_wago.Validation.Named.{store, rejecting, validate_form_fields}

-- What a loop over an array does with a text that is not empty: `none` where it leaves it.
abbrev pub Rule : Type 0
Rule = Text → Result Error (Text × Bool)

abbrev pub rejecting_item : Text → ℕ → Result Error (Text × Bool) → Result Reject (Text × Bool)
rejecting_item name i (err e) = err (invalid_item name i e)
rejecting_item name i (ok r) = ok r

-- One element. `strict` is the branch that turns an empty text, or what is no text, away.
unfoldable pub check_item : Bool → Text → ℕ → Rule → Json → Result Reject (Json × Bool)
check_item strict name i rule (text (c ∷ s)) =
    rejecting_item name i (rule (c ∷ s)) >>= λ (j, changed).
    ok (if changed then (text j, true) else (text (c ∷ s), false))
check_item strict name i rule v = if strict then err (empty_item name i) else ok (v, false)

-- The loop over the array, which writes into it.
unfoldable pub check_items : Bool → Text → ℕ → Rule → Items → Bool → Result Reject (Items × Bool)
unfolding check_item
check_items strict name i rule nil modified = ok (nil, modified)
check_items strict name i rule (cons v vs) modified = check_item strict name i rule v >>= λ r.
    check_items strict name (i + 1) rule vs (modified || r.1) >>= λ rest.
    ok (cons (r.0) (rest.0), rest.1)

abbrev pub number_key : Text
number_key = codes "number"

-- The array stands in the map, so a change in it is one of the map.
abbrev pub store_array : Text → Fields → Items × Bool → Fields × Bool
store_array name m (vs, modified) = (put name (array vs) m, modified)

-- The number of a request: an array of texts, or a text. An array that is empty, an element or a
-- text that is empty, and any other value are turned away.
unfoldable pub check_number_value : Rule → Fields → Option Json → Checked
unfolding check_items put codes
check_number_value rule m none = ok (m, false)
check_number_value rule m (some (array nil)) = err empty_array
check_number_value rule m (some (array (cons v vs))) =
    check_items true number_key 0 rule (cons v vs) false >>= λ r. ok (store_array number_key m r)
check_number_value rule m (some (text [])) = err (empty_field number_key)
check_number_value rule m (some (text (c ∷ s))) =
    rejecting number_key (rule (c ∷ s)) >>= λ r. ok (store number_key m r)
check_number_value rule m (some _) = err wrong_type

unfoldable pub check_number : Rule → Fields → Checked
unfolding check_number_value get codes
check_number rule m = check_number_value rule m (get number_key m)

-- `ValidateNumberField`.
unfoldable pub validate_number_field : Request → Outcome
unfolding is_json is_multipart run_json validate_form_fields check_number normalize codes
validate_number_field r =
    if is_json r.content_type
    then run_json (check_number normalize) r.body
    else if is_multipart r.content_type
    then validate_form_fields (number_key ∷ []) r
    else next r.body

unfoldable pub check_multiple_value : Text → Fields → Option Json → Checked
unfolding check_items normalize put
check_multiple_value name m (some (array vs)) =
    check_items false name 0 normalize vs false >>= λ r. ok (store_array name m r)
check_multiple_value name m _ = ok (m, false)

-- `ValidateMultipleNumbers`.
unfoldable pub validate_multiple_numbers : Text → Request → Outcome
unfolding is_json run_json check_multiple_value get
validate_multiple_numbers name r =
    if is_json r.content_type
    then run_json (λ m. check_multiple_value name m (get name m)) r.body
    else next r.body

-- `formatJid`, true unless the body says false.
abbrev pub format_jid_of : Option Json → Bool
format_jid_of (some (boolean b)) = b
format_jid_of _ = true

-- Numbers are kept as received where formatting is off.
unfoldable pub number_rule : Bool → Rule
unfolding normalize
number_rule true s = normalize s
number_rule false s = ok (s, false)

unfoldable pub check_number_with_format_jid : Fields → Checked
unfolding check_number number_rule get codes
check_number_with_format_jid m =
    check_number (number_rule (format_jid_of (get (codes "formatJid") m))) m

-- `ValidateNumberFieldWithFormatJid`.
unfoldable pub validate_number_field_with_format_jid : Request → Outcome
unfolding is_json run_json check_number_with_format_jid
validate_number_field_with_format_jid r =
    if is_json r.content_type then run_json check_number_with_format_jid r.body else next r.body
