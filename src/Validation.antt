-- ===== src/Validation.antt =====
-- pkg/middleware/jid_validation_middleware.go: the middleware that checks and rewrites addresses in
-- request bodies. A JSON body is the map that encoding/json decodes from it; the logging is left
-- out, and so is the failure of json.Marshal, which a decoded map does not provoke.
pub mod Named
pub mod Numbers
pub mod Contact
pub mod Canonical
pub mod Loop
pub mod Passed
pub mod Recipients
pub mod NumberField
mod Tests
use webapp_wago.Base.{
  ℕ, suc, ◌+◌, ◌≡◌, Bool, true, false, not, ◌&&◌, ◌||◌, List, [], ◌∷◌, Option, none, some, Result,
  ok, err, ◌>>=◌, if◌then◌else◌, is_empty,
}
use webapp_wago.Base.Text.{Text, codes, text_eq, contains}
use webapp_wago.Json.{Json, text, Fields}
use webapp_wago.Jid.{Error, create_jid}

-- Why a request is turned away; every such answer has status 400.
pub data Reject : Type 0 where
  unreadable_body invalid_json : Reject
  invalid_field : Text → Error → Reject
  empty_field : Text → Reject
  empty_array wrong_type : Reject
  invalid_item : Text → ℕ → Error → Reject
  empty_item : Text → ℕ → Reject
  invalid_vcard : Error → Reject

-- The body as the middleware finds it.
pub data Body : Type 0 where
  unreadable malformed : Body
  decoded : Fields → Body

pub record Request : Type 0 where
  pub content_type : Text
  pub body : Body
  pub form : Text → Text

-- `c.Abort()` behind an answer, or `c.Next()` with the body that the handlers then read.
pub data Outcome : Type 0 where
  abort : Reject → Outcome
  next : Body → Outcome

-- A checked map, and whether it differs from the one that was sent.
abbrev pub Checked : Type 0
Checked = Result Reject (Fields × Bool)

-- The body is replaced only where the map was modified.
unfoldable pub conclude : Body → Checked → Outcome
conclude body (err e) = abort e
conclude body (ok (m, modified)) = if modified then next (decoded m) else next body

-- What the middleware does with a JSON request, by its check of the map.
unfoldable pub run_json : (Fields → Checked) → Body → Outcome
unfolding conclude
run_json check unreadable = abort unreadable_body
run_json check malformed = abort invalid_json
run_json check (decoded m) = conclude (decoded m) (check m)

unfoldable pub is_json : Text → Bool
unfolding contains codes
is_json content_type = contains content_type (codes "application/json")

unfoldable pub is_multipart : Text → Bool
unfolding contains codes
is_multipart content_type = contains content_type (codes "multipart/form-data")

-- `CreateJID`, and whether its answer differs from the text.
unfoldable pub normalize : Text → Result Error (Text × Bool)
unfolding create_jid text_eq
normalize s = create_jid s >>= λ j. ok (j, not (text_eq j s))
