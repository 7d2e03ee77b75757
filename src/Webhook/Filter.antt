-- ===== src/Webhook/Filter.antt =====
-- pkg/webhook/service/webhook_service.go: which events a webhook is for.
use webapp_wago.Base.{Bool, true, false, not, ◌&&◌, ◌||◌, List, is_empty, any, ◌==◌, if◌then◌else◌}
use webapp_wago.Base.Text.{Text, codes, text_eq, has_suffix, equal_fold}
use webapp_wago.EventTypes.{all_name}
use webapp_wago.Webhook.{Webhook, chat_type_any, chat_type_group, chat_type_individual}
use webapp_wago.Webhook.Glob.{glob}

unfoldable pub match_events : List Text → Text → Bool
unfolding text_eq equal_fold codes
match_events events event_type =
    is_empty events || any (λ e. text_eq e all_name || equal_fold e event_type) events

abbrev pub group_suffix : Text
group_suffix = codes "@g.us"

-- A chat of one person: not a group, a newsletter or a broadcast list.
unfoldable pub match_chat_type : Text → Text → Bool
unfolding text_eq has_suffix codes
match_chat_type chat_type chat_jid =
    if is_empty chat_type || text_eq chat_type chat_type_any
    then true
    else if text_eq chat_type chat_type_group
    then has_suffix chat_jid group_suffix
    else if text_eq chat_type chat_type_individual
    then not (is_empty chat_jid)
      && (not (has_suffix chat_jid group_suffix)
          && (not (has_suffix chat_jid (codes "@newsletter"))
              && not (has_suffix chat_jid (codes "@broadcast"))))
    else true

-- `strings.ContainsAny(a, "*?[")`.
unfoldable pub has_meta : Text → Bool
has_meta a = any (λ c. c == b'*' || c == b'?' || c == b'[') a

unfoldable pub match_entry : Text → Text → Bool
unfolding text_eq has_meta glob
match_entry value a = text_eq a value || (has_meta a && glob a value)

unfoldable pub match_pattern_allowlist : List Text → Text → Bool
unfolding match_entry
match_pattern_allowlist allow value =
    is_empty allow || (not (is_empty value) && any (match_entry value) allow)

-- What `MatchesFilter` is told of an event.
pub record Event : Type 0 where
  pub event_type : Text
  pub chat_jid : Text
  pub sender_jid : Text
  pub chat_name : Text
  pub sender_name : Text
  pub is_from_me : Bool

unfoldable pub matches_filter : Webhook → Event → Bool
unfolding match_events match_chat_type match_pattern_allowlist
matches_filter w e =
    if not w.enabled
    then false
    else if e.is_from_me && w.ignore_from_me
    then false
    else if not (match_events w.events e.event_type)
    then false
    else if not (match_chat_type w.chat_type e.chat_jid)
    then false
    else if not (match_pattern_allowlist w.chat_ids e.chat_jid)
    then false
    else if not (match_pattern_allowlist w.senders e.sender_jid)
    then false
    else if not (match_pattern_allowlist w.chat_names e.chat_name)
    then false
    else match_pattern_allowlist w.sender_names e.sender_name

unfoldable pub webhook_needs_names : Webhook → Bool
webhook_needs_names w = not (is_empty w.chat_names) || not (is_empty w.sender_names)
