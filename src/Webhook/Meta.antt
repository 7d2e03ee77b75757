-- ===== src/Webhook/Meta.antt =====
-- ExtractEventMeta of pkg/webhook/service/webhook_service.go: chat, sender and origin of an event.
use webapp_wago.Base.{Bool, true, false, List, [], ◌∷◌, Option, none, some, ◌≡◌, ◌↔◌, refl, ap}
use webapp_wago.Base.Text.{Text, codes}
use webapp_wago.Json.{Json, null, boolean, number, text, array, object, Fields, get, pick_string}

-- `v.(map[string]interface{})` and `v.(bool)`.
abbrev pub as_object : Option Json → Option Fields
as_object (some (object m)) = some m
as_object _ = none

abbrev pub is_true : Option Json → Bool
is_true (some (boolean b)) = b
is_true _ = false

abbrev or_pick : Text → Fields → List Text → Text
or_pick [] m keys = pick_string m keys
or_pick (c ∷ s) m keys = c ∷ s

abbrev meta_with : Fields → Option Fields → Text → Text → Text × Text × Bool
meta_with inner none chat sender = (chat, sender, false)
meta_with inner (some info) chat sender = (
  or_pick chat info (codes "Chat" ∷ codes "chat" ∷ []),
  or_pick sender info (codes "Sender" ∷ codes "sender" ∷ []),
  is_true (get (codes "IsFromMe") info),
)

abbrev meta_of : Option Fields → Text × Text × Bool
meta_of none = ([], [], false)
meta_of (some inner) =
    meta_with inner (as_object (get (codes "Info") inner))
      (pick_string inner (codes "Chat" ∷ codes "chat" ∷ codes "RemoteJid" ∷ codes "remoteJid" ∷ []))
      (pick_string inner
        (codes "Sender" ∷ codes "sender" ∷ codes "Participant" ∷ codes "participant" ∷ []))

unfoldable pub extract_event_meta : Fields → Text × Text × Bool
unfolding codes get pick_string
extract_event_meta m = meta_of (as_object (get (codes "data") m))

as_object_lem : (o : Option Json) (m : Fields) → as_object o ≡ some m → o ≡ some (object m)
as_object_lem none m h = cc
as_object_lem (some null) m h = cc
as_object_lem (some (boolean b)) m h = cc
as_object_lem (some (number s)) m h = cc
as_object_lem (some (text s)) m h = cc
as_object_lem (some (array v)) m h = cc
as_object_lem (some (object k)) m h = cc

is_true_lem : (o : Option Json) → is_true o ≡ true → o ≡ some (boolean true)
is_true_lem none h = cc
is_true_lem (some null) h = cc
is_true_lem (some (boolean b)) h = ap (λ x. some (boolean x)) h
is_true_lem (some (number s)) h = cc
is_true_lem (some (text s)) h = cc
is_true_lem (some (array v)) h = cc
is_true_lem (some (object k)) h = cc

-- The places at which an event says that it is the account's own.
abbrev pub IsOwn : Fields → Type 0
IsOwn m =
    (inner : Fields) × (info : Fields) × (get (codes "data") m ≡ some (object inner))
    × (get (codes "Info") inner ≡ some (object info))
    × (get (codes "IsFromMe") info ≡ some (boolean true))

-- An event counts as the account's own exactly where `data.Info.IsFromMe` is the Boolean true,
-- with objects on the way there; a text "true" or a missing object does not count.
pub extract_event_meta-IsOwn : (m : Fields) → (((extract_event_meta m).2) ≡ true) ↔ IsOwn m
unfolding extract_event_meta
extract_event_meta-IsOwn m = (λ h. of (as_object (get (codes "data") m)) refl h, back)
  where
    inside :
        (inner : Fields)
        → get (codes "data") m ≡ some (object inner)
        → (o : Option Fields) (chat sender : Text) → as_object (get (codes "Info") inner) ≡ o
        → (meta_with inner o chat sender).2 ≡ true
        → IsOwn m
    inside inner e none chat sender k h = cc
    inside inner e (some info) chat sender k h =
        (inner, info, e, as_object_lem _ info k, is_true_lem _ h)

    of : (o : Option Fields) → as_object (get (codes "data") m) ≡ o → (meta_of o).2 ≡ true → IsOwn m
    of none e h = cc
    of (some inner) e h = inside inner (as_object_lem _ inner e) _ _ _ refl h

    back : IsOwn m → (meta_of (as_object (get (codes "data") m))).2 ≡ true
    back (inner, info, e, k, l) = rw (e, k, l) refl
