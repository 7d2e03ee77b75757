-- ===== src/Routing/Forwarding.antt =====
-- CallWebhook of pkg/whatsmeow/service/whatsmeow.go: which events reach the producers that the
-- instance itself names.
use webapp_wago.Base.{
  Bool, true, false, not, ◌&&◌, ◌||◌, List, [], ◌∷◌, ◌++◌, Option, some, if◌then◌else◌, ◌≡◌, refl,
  ap, ap₂, ◌∙◌,
}
use webapp_wago.Base.Text.{Text, codes, split}
use webapp_wago.Json.{Json, Fields, get, as_map}
use webapp_wago.Webhook.Meta.{extract_event_meta}
use webapp_wago.Instances.{Instance}
use webapp_wago.Webhook.Dispatch.{Channel}
use webapp_wago.Routing.{
  subscriptions_of, contains, is_wanted, Handoff, Action, dispatched, invalidated, handed,
  handed_all, maybe_invalidate_names, call_service, from_me, changes_names, string_of, call_event,
  call_map, call_webhook, send_to_queue_or_webhook, legacy,
}
use webapp_wago.Routing.Asking.{asked, all-IsName, is_subscribed, is_wanted_lem}

-- The calls of the instance's own producers among what is done.
abbrev pub handoffs : List Action → List Handoff
handoffs [] = []
handoffs (dispatched c ∷ rest) = handoffs rest
handoffs (invalidated i ∷ rest) = handoffs rest
handoffs (handed h ∷ rest) = h ∷ handoffs rest

handoffs-handed_all : (hs : List Handoff) → handoffs (handed_all hs) ≡ hs
handoffs-handed_all [] = refl
handoffs-handed_all (h ∷ hs) = ap (λ k. h ∷ k) (handoffs-handed_all hs)

module _ (works : Channel → Bool) (i : Instance) (queue payload : Text) (m : Fields)
    (event_type : Text) where
  legacy_lem :
      (own : Bool)
      → legacy works own i queue payload event_type m ≡ (
          if not (own && i.settings.ignore_from_me) && asked (split b',' i.events) event_type m
          then send_to_queue_or_webhook works i queue payload
          else [])
  unfolding legacy
  legacy_lem own = of (own && i.settings.ignore_from_me)
    where
      of :
          (b : Bool)
          → (if b
              then []
              else if contains (subscriptions_of i.events) (codes "ALL")
                  || is_wanted (subscriptions_of i.events) event_type m
              then send_to_queue_or_webhook works i queue payload
              else [])
            ≡ (if not b && asked (split b',' i.events) event_type m
                then send_to_queue_or_webhook works i queue payload
                else [])
      of true = refl
      of false =
          ap₂
            (λ (a b : Bool). if a || b then send_to_queue_or_webhook works i queue payload else [])
            (is_subscribed i.events (codes "ALL") all-IsName) (is_wanted_lem i.events event_type m)

  handoffs-call_event :
      (service : Bool) (meta : Text × Text × Bool) (hs : List Handoff)
      → handoffs (
          call_service service i event_type payload meta
          ++ maybe_invalidate_names service i.id event_type
          ++ handed_all hs)
        ≡ hs
  unfolding maybe_invalidate_names
  handoffs-call_event false meta hs = handoffs-handed_all hs
  handoffs-call_event true meta hs = of (changes_names event_type)
    where
      of : (b : Bool) → handoffs ((if b then invalidated i.id ∷ [] else []) ++ handed_all hs) ≡ hs
      of true = handoffs-handed_all hs
      of false = handoffs-handed_all hs

  -- Of a payload that decodes to an object with the event's name, the instance's own producers are
  -- called exactly where what is between the commas of its stored events asks for the event: for
  -- all events, for its kind, for the group or newsletter in which a message, a message sent or a
  -- receipt belongs, or for messages where a button is clicked. The exception is an event of the
  -- account itself where the instance ignores those, which is known only with a webhook service.
  pub call_webhook-handoffs :
      (unmarshal : Text → Option Json) (service : Bool)
      → as_map (unmarshal payload) ≡ some m
      → string_of (get (codes "event") m) ≡ some event_type
      → handoffs (call_webhook unmarshal works service i queue payload) ≡ (
          if not (service && (extract_event_meta m).2 && i.settings.ignore_from_me)
            && asked (split b',' i.events) event_type m
          then send_to_queue_or_webhook works i queue payload
          else [])
  unfolding call_webhook
  call_webhook-handoffs unmarshal service e e' =
      ap (λ o. handoffs (call_map works service i queue payload o)) e
      ∙ ap (λ o. handoffs (call_event works service i queue payload m o)) e'
      ∙ handoffs-call_event service (extract_event_meta m) _
      ∙ legacy_lem (from_me service (extract_event_meta m))
