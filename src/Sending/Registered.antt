-- ===== src/Sending/Registered.antt =====
-- To whom validateAndCheckUserExists of pkg/sendMessage/service sends.
use webapp_wago.Base.{
  Bool, true, false, List, [], ◌∷◌, Option, none, some, value_or, Result, ok, err, if◌then◌else◌,
  ◌≡◌, ◌⊎◌, inl, inr, refl, sym, ap, ◌∙◌, ok-injective,
}
use webapp_wago.Base.Text.{Text, codes, contains}
use webapp_wago.Jid.{Error, JidLibrary, create_jid, parsed, parse_jid, raw_number, prepare_numbers}
use webapp_wago.Jid.Canonical.{create_jid_idempotent}
use webapp_wago.Sending.Recipients.{
  FieldError, not_connected, QuotedStruct, fallback, normalized, to_parsed, to_final,
  validate_message_fields, Answer, first_answer, check_single_user_exists, on_second, on_first,
  is_special, validate_and_check_user_exists, recipient_of,
}

abbrev pub to_option : {A : Type 0} → Result FieldError A → Option A
to_option (ok x) = some x
to_option (err e) = none

module _ (lib : JidLibrary) (string : lib.Jid → Text) where
  parse_jid_lem : (arg : Text) → parse_jid lib arg ≡ parsed lib (create_jid arg)
  unfolding parse_jid create_jid
  parse_jid_lem [] = refl
  parse_jid_lem (c ∷ arg) = refl

  to_parsed_lem :
      (o : Option lib.Jid) (q : Option Text) → to_option (to_parsed lib string o q q) ≡ o
  to_parsed_lem none q = refl
  to_parsed_lem (some recipient) none = refl
  to_parsed_lem (some recipient) (some id) = refl

  fallback_lem :
      (phone : Text) (o : Option lib.Jid) (q : Option Text)
      → parse_jid lib phone ≡ o
      → o ≡ none
      → to_option (to_final lib string (fallback lib string phone o) q q) ≡ o
  fallback_lem phone none q e h = refl
  fallback_lem phone (some recipient) q e h = cc

  -- An address that CreateJID makes is read as the number it was made of.
  normalized_lem :
      (phone : Text) (r : Result Error Text) (q : Option Text)
      → create_jid phone ≡ r
      → to_option (to_final lib string (normalized lib string phone r) q q) ≡ parse_jid lib phone
  normalized_lem phone (ok j) q e =
      to_parsed_lem (parse_jid lib j) q
      ∙ parse_jid_lem j
      ∙ ap (parsed lib) (create_jid_idempotent phone j e ∙ sym e)
      ∙ sym (parse_jid_lem phone)
  normalized_lem phone (err x) q e =
      fallback_lem phone (parse_jid lib phone) q refl (parse_jid_lem phone ∙ ap (parsed lib) e)

  raw_number_lem :
      (phone : Text) → contains phone (codes "@s.whatsapp.net") ≡ false → raw_number phone ≡ phone
  unfolding raw_number
  raw_number_lem phone h = rw h refl

  final_lem :
      (b : Bool) (phone raw : Text) (q : Option Text)
      → raw ≡ phone
      → to_option (
          to_final lib string
            (if b then normalized lib string phone (create_jid raw) else ok phone)
            q
            q)
        ≡ parse_jid lib phone
  final_lem true phone raw q e = normalized_lem phone (create_jid raw) q (ap create_jid (sym e))
  final_lem false phone raw q e = to_parsed_lem (parse_jid lib phone) q

  -- With the id of a quoted message in both places or in neither, a number without @s.whatsapp.net
  -- is sent to the recipient that ParseJID reads, or to none, whether formatJid is true, false or
  -- left out.
  pub validate_message_fields-format_jid :
      (phone : Text) (format_jid : Option Bool) (q : Option Text)
      → contains phone (codes "@s.whatsapp.net") ≡ false
      → to_option (validate_message_fields lib string phone format_jid q q) ≡ parse_jid lib phone
  unfolding validate_message_fields
  validate_message_fields-format_jid phone format_jid q h =
      final_lem (value_or format_jid true) phone (raw_number phone) q (raw_number_lem phone h)

  to_parsed-some :
      (o : Option lib.Jid) (q : Text) (r : lib.Jid)
      → to_parsed lib string o (some q) (some q) ≡ ok r
      → o ≡ some r
  to_parsed-some none q r h = cc
  to_parsed-some (some recipient) q r h = ap some (ok-injective h)

  validated-some :
      (t q : Text) (r : lib.Jid)
      → validate_message_fields lib string t (some false) (some q) (some q) ≡ ok r
      → parse_jid lib t ≡ some r
  unfolding validate_message_fields
  validated-some t q r h = to_parsed-some (parse_jid lib t) q r h

  module _ (is_on_whatsapp : Bool → List Text → Answer lib string) where
    -- One of the two requests tells that the number is registered, under an address that is read
    -- as the recipient.
    abbrev pub IsRegistered : Text → lib.Jid → Type 0
    IsRegistered phone r =
        (b : Bool) × (j : lib.Jid) × (rest : List (Bool × lib.Jid)) × (is_on_whatsapp b
            (prepare_numbers (phone ∷ []) (some b))
          ≡ some ((true, j) ∷ rest))
        × (parse_jid lib (string j) ≡ some r)

    found_lem :
        (phone : Text) (b : Bool) (a : Answer lib string) (t q : Text) (r : lib.Jid)
        → is_on_whatsapp b (prepare_numbers (phone ∷ []) (some b)) ≡ a
        → first_answer lib string a ≡ ok (some t)
        → validate_message_fields lib string t (some false) (some q) (some q) ≡ ok r
        → IsRegistered phone r
    found_lem phone b none t q r e h k = cc
    found_lem phone b (some []) t q r e h k = cc
    found_lem phone b (some ((false, j) ∷ rest)) t q r e h k = cc
    found_lem phone b (some ((true, j) ∷ rest)) t q r e h k =
        let s : string j ≡ t = cc in (b, j, rest, e, ap (parse_jid lib) s ∙ validated-some t q r k)

    second_lem :
        (phone q : Text) (r : lib.Jid) (s : Result (Unit {0}) (Option Text))
        → check_single_user_exists lib string is_on_whatsapp phone true ≡ s
        → on_second lib string is_on_whatsapp phone s (some q) (some q) ≡ ok r
        → IsRegistered phone r
    unfolding check_single_user_exists
    second_lem phone q r (err x) e h = cc
    second_lem phone q r (ok none) e h = cc
    second_lem phone q r (ok (some t)) e h = found_lem phone true _ t q r refl e h

    first_lem :
        (phone q : Text) (format_jid : Option Bool) (r : lib.Jid)
        (s : Result (Unit {0}) (Option Text))
        → check_single_user_exists lib string is_on_whatsapp phone false ≡ s
        → on_first lib string is_on_whatsapp phone format_jid s (some q) (some q) ≡ ok r
        → (check_single_user_exists lib string is_on_whatsapp phone false ≡ err tt)
          ⊎ IsRegistered phone r
    unfolding check_single_user_exists
    first_lem phone q f r (err tt) e h = inl e
    first_lem phone q f r (ok none) e h = inr (second_lem phone q r _ refl h)
    first_lem phone q f r (ok (some t)) e h = inr (found_lem phone false _ t q r refl e h)

    -- With the check of users on, a message for a number that is no group, broadcast, newsletter or
    -- LID is sent only with a connected client and, unless the first request about the number
    -- fails, only to an address under which WhatsApp answers that the number is registered.
    pub recipient_of-IsRegistered :
        (connected : Bool) (phone : Text) (format_jid : Option Bool) (q : QuotedStruct)
        (r : lib.Jid)
        → is_special lib string is_on_whatsapp phone ≡ false
        → recipient_of lib string is_on_whatsapp true connected phone format_jid q ≡ ok r
        → (connected ≡ true)
          × ((check_single_user_exists lib string is_on_whatsapp phone false ≡ err tt)
              ⊎ IsRegistered phone r)
    unfolding recipient_of validate_and_check_user_exists
    recipient_of-IsRegistered true phone format_jid q r h k =
        (refl, first_lem phone q.message_id format_jid r _ refl (rw h at k))
    recipient_of-IsRegistered false phone format_jid q r h k =
        (let c : err not_connected ≡ ok r = rw h at k in cc)
