-- ===== src/Sending/Recipients.antt =====
-- validateMessageFields, checkSingleUserExists and validateAndCheckUserExists of
-- pkg/sendMessage/service/send_service.go: to whom a message goes. The text of an address and the
-- answers of `IsOnWhatsApp` are parameters.
use webapp_wago.Base.{
  Bool, true, false, ◌||◌, List, [], ◌∷◌, Option, none, some, value_or, Result, ok, err,
  if◌then◌else◌,
}
use webapp_wago.Base.Text.{Text, codes, contains}
use webapp_wago.Jid.{Error, JidLibrary, create_jid, parse_jid, raw_number, prepare_numbers}

pub data FieldError : Type 0 where
  unparsed_phone : Text → FieldError
  unparsed_formatted : FieldError
  missing_participant : FieldError
  missing_stanza_id : FieldError
  not_connected : FieldError
  not_registered : Text → FieldError

-- The checks of the quoted message.
abbrev pub quoted : {A : Type 0} → A → Option Text → Option Text → Result FieldError A
quoted recipient (some message_id) none = err missing_participant
quoted recipient none (some participant) = err missing_stanza_id
quoted recipient none none = ok recipient
quoted recipient (some message_id) (some participant) = ok recipient

-- `QuotedStruct`.
pub record QuotedStruct : Type 0 where
  pub message_id : Text
  pub participant : Text

module _ (lib : JidLibrary) (string : lib.Jid → Text) where
  abbrev pub fallback : Text → Option lib.Jid → Result FieldError Text
  fallback phone none = err (unparsed_phone phone)
  fallback phone (some recipient) = ok (string recipient)

  abbrev pub normalized : Text → Result Error Text → Result FieldError Text
  normalized phone (ok jid) = ok jid
  normalized phone (err e) = fallback phone (parse_jid lib phone)

  -- The text that is parsed in the end.
  abbrev pub final_phone : Text → Bool → Result FieldError Text
  final_phone phone should_format =
      if should_format then normalized phone (create_jid (raw_number phone)) else ok phone

  abbrev pub to_parsed : Option lib.Jid → Option Text → Option Text → Result FieldError lib.Jid
  to_parsed none message_id participant = err unparsed_formatted
  to_parsed (some recipient) message_id participant = quoted recipient message_id participant

  abbrev pub to_final :
      Result FieldError Text → Option Text → Option Text → Result FieldError lib.Jid
  to_final (err e) message_id participant = err e
  to_final (ok phone) message_id participant =
      to_parsed (parse_jid lib phone) message_id participant

  unfoldable pub validate_message_fields :
      Text → Option Bool → Option Text → Option Text → Result FieldError lib.Jid
  unfolding create_jid raw_number parse_jid
  validate_message_fields phone format_jid message_id participant =
      to_final (final_phone phone (value_or format_jid true)) message_id participant

  -- What a request to WhatsApp tells: nothing when it fails, else for each number whether it is
  -- registered, and under which address.
  abbrev pub Answer : Type 0
  Answer = Option (List (Bool × lib.Jid))

  -- `err tt` for each of the errors, `ok none` for a number that is not registered.
  abbrev pub first_answer : Answer → Result (Unit {0}) (Option Text)
  first_answer none = err tt
  first_answer (some []) = err tt
  first_answer (some ((is_in, jid) ∷ rest)) = ok (if is_in then some (string jid) else none)

  module _ (is_on_whatsapp : Bool → List Text → Answer) where
    unfoldable pub check_single_user_exists : Text → Bool → Result (Unit {0}) (Option Text)
    unfolding prepare_numbers
    check_single_user_exists phone format_jid =
        first_answer (is_on_whatsapp format_jid (prepare_numbers (phone ∷ []) (some format_jid)))

    abbrev pub registered :
        Text → Option Text → Option Text → Option Text → Result FieldError lib.Jid
    registered phone none message_id participant = err (not_registered phone)
    registered phone (some jid) message_id participant =
        validate_message_fields jid (some false) message_id participant

    abbrev pub on_second :
        Text
        → Result (Unit {0}) (Option Text)
        → Option Text
        → Option Text
        → Result FieldError lib.Jid
    on_second phone (err e) message_id participant = err (not_registered phone)
    on_second phone (ok found) message_id participant =
        registered phone found message_id participant

    abbrev pub on_first :
        Text
        → Option Bool
        → Result (Unit {0}) (Option Text)
        → Option Text
        → Option Text
        → Result FieldError lib.Jid
    on_first phone format_jid (err e) message_id participant =
        validate_message_fields phone format_jid message_id participant
    on_first phone format_jid (ok none) message_id participant =
        on_second phone (check_single_user_exists phone true) message_id participant
    on_first phone format_jid (ok (some jid)) message_id participant =
        registered phone (some jid) message_id participant

    -- Groups and the like, which are not asked for.
    abbrev pub is_special : Text → Bool
    is_special phone =
        (contains phone (codes "@g.us") || contains phone (codes "@broadcast"))
        || (contains phone (codes "@newsletter") || contains phone (codes "@lid"))

    -- `config.CheckUserExists`, and whether `ensureClientConnected` finds a client.
    unfoldable pub validate_and_check_user_exists :
        Bool → Bool → Text → Option Bool → Option Text → Option Text → Result FieldError lib.Jid
    unfolding contains codes validate_message_fields check_single_user_exists
    validate_and_check_user_exists config connected phone format_jid message_id participant =
        if config
        then if is_special phone
          then validate_message_fields phone format_jid message_id participant
          else if connected
          then on_first phone format_jid (check_single_user_exists phone false) message_id
              participant
          else err not_connected
        else validate_message_fields phone format_jid message_id participant

    -- The call in `SendMessage`, which hands on the message id in both places.
    unfoldable pub recipient_of :
        Bool → Bool → Text → Option Bool → QuotedStruct → Result FieldError lib.Jid
    unfolding validate_and_check_user_exists
    recipient_of config connected phone format_jid q =
        validate_and_check_user_exists config connected phone format_jid (some q.message_id)
          (some q.message_id)
