-- ===== src/EventTypes.antt =====
-- pkg/internal/event_types/event_types.go: the names of the kinds of event.
use webapp_wago.Base.{Bool, List, [], ◌∷◌, any}
use webapp_wago.Base.Text.{Text, codes, text_eq}

abbrev pub all_name : Text
all_name = codes "ALL"

-- `AllEventTypes`.
abbrev pub all_event_types : List Text
all_event_types =
    codes "MESSAGE"
    ∷ codes "SEND_MESSAGE"
    ∷ codes "READ_RECEIPT"
    ∷ codes "PRESENCE"
    ∷ codes "HISTORY_SYNC"
    ∷ codes "CHAT_PRESENCE"
    ∷ codes "CALL"
    ∷ codes "CONNECTION"
    ∷ codes "LABEL"
    ∷ codes "CONTACT"
    ∷ codes "GROUP"
    ∷ codes "NEWSLETTER"
    ∷ codes "QRCODE"
    ∷ codes "BUTTON_CLICK"
    ∷ []

-- `IsEventType`: the keys of the map `validEventTypes`.
unfoldable pub is_event_type : Text → Bool
unfolding text_eq codes
is_event_type event_type = any (λ name. text_eq name event_type) (all_name ∷ all_event_types)
