-- ===== src/Validation/Tests.antt =====
-- The middleware of pkg/middleware/jid_validation_middleware.go at concrete requests, and the
-- theorems about it.
use webapp_wago.Base.{◌≡◌, refl, true, false, [], ◌∷◌, All}
use webapp_wago.Base.Text.{Text, codes, text_eq}
use webapp_wago.Json.{null, boolean, text, array, object, nil, cons, Fields, end, field, get, put}
use webapp_wago.Jid.{create_jid, invalid_format}
use webapp_wago.Validation.{
  empty_field, invalid_item, invalid_vcard, decoded, unreadable, abort, next,
}
use webapp_wago.Validation.Named.{validate_jid_fields}
use webapp_wago.Validation.Numbers.{
  validate_number_field, validate_multiple_numbers, validate_number_field_with_format_jid,
}
use webapp_wago.Validation.Contact.{validate_contact_fields}
use webapp_wago.Validation.Canonical.{IsCanonical}
use webapp_wago.Validation.Passed.{json_request, validate_jid_fields-IsCanonical}
use webapp_wago.Validation.NumberField.{}

middleware : Unit {0}
unfolding validate_jid_fields validate_number_field validate_multiple_numbers
    validate_contact_fields validate_number_field_with_format_jid create_jid get put text_eq codes
middleware = tt

abbrev json : Text
json = codes "application/json"

abbrev no_form : Text → Text
no_form name = []

-- A request with one field, and it behind the middleware.
abbrev sent : Fields
sent = field (codes "number") (text (codes "54 11")) (field (codes "text") (text (codes "hi")) end)

abbrev received : Fields
received =
    field (codes "number") (text (codes "+5411@s.whatsapp.net"))
      (field (codes "text") (text (codes "hi")) end)

normalized_field :
    validate_jid_fields (codes "number" ∷ []) (json_request json no_form sent)
    ≡ next (decoded received)
unfolding middleware
normalized_field = refl

wrong_kind :
    validate_jid_fields
      (codes "number" ∷ [])
      (json_request json no_form (field (codes "number") (boolean true) end))
    ≡ abort (empty_field (codes "number"))
unfolding middleware
wrong_kind = refl

empty_form :
    validate_jid_fields
      (codes "number" ∷ [])
      (record { content_type = codes "multipart/form-data"; body = unreadable; form = no_form })
    ≡ abort (empty_field (codes "number"))
unfolding middleware
empty_form = refl

abbrev listed : Fields
listed = field (codes "number") (array (cons (text (codes "54")) (cons (text (codes "x")) nil))) end

second_item :
    validate_number_field (json_request json no_form listed)
    ≡ abort (invalid_item (codes "number") 1 invalid_format)
unfolding middleware
second_item = refl

abbrev raw : Fields
raw = field (codes "formatJid") (boolean false) listed

unformatted :
    validate_number_field_with_format_jid (json_request json no_form raw) ≡ next (decoded raw)
unfolding middleware
unformatted = refl

lenient_array :
    validate_multiple_numbers
      (codes "number")
      (json_request json no_form (field (codes "number") (array (cons null nil)) end))
    ≡ next (decoded (field (codes "number") (array (cons null nil)) end))
unfolding middleware
lenient_array = refl

bad_card :
    validate_contact_fields (
      json_request json no_form
        (field (codes "vcard") (object (field (codes "phone") (text (codes "x")) end)) end))
    ≡ abort (invalid_vcard invalid_format)
unfolding middleware
bad_card = refl

validate_jid_fields-IsCanonical_example :
    (m' : Fields) × (decoded received ≡ decoded m')
    × All (λ name. IsCanonical (get name m')) (codes "number" ∷ [])
    × ((k : Text)
        → All (λ name. text_eq name k ≡ false) (codes "number" ∷ [])
        → get k m' ≡ get k sent)
unfolding middleware
validate_jid_fields-IsCanonical_example =
    validate_jid_fields-IsCanonical (codes "number" ∷ []) json no_form sent (decoded received) refl
      refl
