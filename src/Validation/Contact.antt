-- ===== src/Validation/Contact.antt =====
-- ValidateContactFields of pkg/middleware/jid_validation_middleware.go.
use webapp_wago.Base.{false, ◌∷◌, Option, none, some, Result, ok, err, ◌>>=◌, if◌then◌else◌}
use webapp_wago.Base.Text.{codes}
use webapp_wago.Json.{Json, text, object, Fields, get}
use webapp_wago.Jid.{create_jid}
use webapp_wago.Validation.{
  Reject, invalid_vcard, Request, Outcome, next, Checked, run_json, is_json, normalize,
}
use webapp_wago.Validation.Named.{store, rejecting}
use webapp_wago.Validation.Numbers.{number_key}

-- The number of a contact: a text that is not empty is checked, any other value is passed over.
unfoldable pub check_contact_number : Fields → Option Json → Checked
unfolding normalize codes
check_contact_number m (some (text (c ∷ s))) =
    rejecting number_key (normalize (c ∷ s)) >>= λ r. ok (store number_key m r)
check_contact_number m _ = ok (m, false)

-- The telephone of a vcard is checked and left as it is.
unfoldable pub vcard_phone : Option Json → Option Reject
unfolding create_jid
vcard_phone (some (text (c ∷ s))) = elim (create_jid (c ∷ s)) [
  | ok j ↦ none
  | err e ↦ some (invalid_vcard e)
]
vcard_phone _ = none

unfoldable pub vcard_check : Option Json → Option Reject
unfolding vcard_phone get codes
vcard_check (some (object card)) = vcard_phone (get (codes "phone") card)
vcard_check _ = none

abbrev pub unless {ℓ} : {A : Type ℓ} → Option Reject → A → Result Reject A
unless none a = ok a
unless (some e) a = err e

unfoldable pub check_contact : Fields → Checked
unfolding check_contact_number vcard_check get codes
check_contact m = check_contact_number m (get number_key m) >>= λ r.
    unless (vcard_check (get (codes "vcard") (r.0))) r

-- `ValidateContactFields`.
unfoldable pub validate_contact_fields : Request → Outcome
unfolding is_json run_json check_contact
validate_contact_fields r =
    if is_json r.content_type then run_json check_contact r.body else next r.body
