-- ===== src/Webhook/Outcome.antt =====
-- What Dispatch of pkg/webhook/service/webhook_service.go sends, and what the lookups of names
-- change about it.
use webapp_wago.Base.{
  Bool, true, false, not, ◌&&◌, ◌||◌, List, [], ◌∷◌, any, is_empty, map, select, Option, none,
  if◌then◌else◌, ◌≡◌, inl, inr, refl, ap, ap₂, ◌∙◌, arith, Bool-cases,
}
use webapp_wago.Base.Text.{Text}
use webapp_wago.Webhook.{Webhook}
use webapp_wago.Webhook.Filter.{matches_filter, match_pattern_allowlist, webhook_needs_names}
use webapp_wago.Webhook.Names.{NameResolver, NameState}
use webapp_wago.Webhook.Store.{Repository, Table, Laws, IsListing, rows_of}
use webapp_wago.Webhook.Service.{State, Surroundings, get_cached}
use webapp_wago.Webhook.Steps.{Op, steps}
use webapp_wago.Webhook.Cache.{Readable, steps_cached}
use webapp_wago.Webhook.Dispatch.{
  Transports, Channel, http, to_rabbitmq, to_websocket, to_nats, Delivery, Call, event_of, publish,
  deliveries, names, names_if_needed, fire, dispatch,
}

empty_allowlist :
    (allow : List Text) (v : Text)
    → not (is_empty allow) ≡ false
    → match_pattern_allowlist allow v ≡ true
unfolding match_pattern_allowlist
empty_allowlist [] v h = refl
empty_allowlist (a ∷ allow) v h = cc

no_names : (a b : Bool) → (a || b) ≡ false → (a ≡ false) × (b ≡ false)
no_names true b h = cc
no_names false b h = (refl, h)

module _ (t : Transports) (c : Call) (a b a' b' : Text) where
  matches_lem :
      (w : Webhook)
      → webhook_needs_names w ≡ false
      → matches_filter w (event_of c a b) ≡ matches_filter w (event_of c a' b')
  unfolding matches_filter webhook_needs_names
  matches_lem w h =
      let (k, k') = no_names (not (is_empty w.chat_names)) (not (is_empty w.sender_names)) h in
      rw
        (
          empty_allowlist w.chat_names a k,
          empty_allowlist w.chat_names a' k,
          empty_allowlist w.sender_names b k',
          empty_allowlist w.sender_names b' k',
        )
        refl

  deliveries_lem :
      (ws : List Webhook)
      → any (λ w. webhook_needs_names w) ws ≡ false
      → deliveries t c a b ws ≡ deliveries t c a' b' ws
  unfolding deliveries
  deliveries_lem [] h = refl
  deliveries_lem (w ∷ ws) h =
      let (k, k') = no_names (webhook_needs_names w) (any (λ w. webhook_needs_names w) ws) h in
      ap₂ (λ (m : Bool) (rest : List Delivery). if not m then rest else publish t c w rest)
        (matches_lem w k) (deliveries_lem ws k')

names_needed :
    (r : Option NameResolver) (c : Call) (ws : List Webhook) (st : NameState)
    → any (λ w. webhook_needs_names w) ws ≡ true
    → names_if_needed r c ws st ≡ names r c st
unfolding names_if_needed
names_needed r c ws st e = rw e refl

-- The calls that `Dispatch` makes are those that it would make if it looked both names up for
-- every event: leaving the lookups out where no webhook asks for a name changes no call.
pub fire-deliveries :
    (r : Option NameResolver) (t : Transports) (c : Call) (ws : List Webhook) (st : NameState)
    → (fire r t c ws st).0 ≡ deliveries t c (names r c st).0 (names r c st).1 ws
unfolding fire deliveries names_if_needed
fire-deliveries r t c [] st = refl
fire-deliveries r t c (w ∷ ws) st = elim (Bool-cases (any (λ v. webhook_needs_names v) (w ∷ ws))) [
  | inl e ↦ ap (λ q. deliveries t c q.0 q.1 (w ∷ ws)) (names_needed r c (w ∷ ws) st e)
  | inr e ↦ deliveries_lem t c _ _ _ _ (w ∷ ws) e
]

abbrev pub same_channel : Channel → Channel → Bool
same_channel http http = true
same_channel to_rabbitmq to_rabbitmq = true
same_channel to_websocket to_websocket = true
same_channel to_nats to_nats = true
same_channel _ _ = false

-- The addresses to which a channel is told to send, in order.
abbrev pub urls_on : Channel → List Delivery → List Text
urls_on ch ds = map (λ d. d.url) (select (λ d. same_channel ch d.channel) ds)

-- HTTP is always used; another channel where the webhook asks for it and it is there.
abbrev pub wanted : Channel → Transports → Webhook → Bool
wanted http t w = true
wanted to_rabbitmq t w = w.rabbitmq_enable && t.rabbitmq
wanted to_websocket t w = w.websocket_enable && t.websocket
wanted to_nats t w = w.nats_enable && t.nats

published :
    (ch : Channel) (t : Transports) (c : Call) (w : Webhook) (ds : List Delivery)
    → urls_on ch (publish t c w ds)
      ≡ (if wanted ch t w then w.url ∷ urls_on ch ds else urls_on ch ds)
published http t c w ds = ground arith
published to_rabbitmq t c w ds = ground arith
published to_websocket t c w ds = ground arith
published to_nats t c w ds = ground arith

-- What a channel is told of the webhooks in the list.
urls_on-deliveries :
    (ch : Channel) (t : Transports) (c : Call) (a b : Text) (ws : List Webhook)
    → urls_on ch (deliveries t c a b ws)
      ≡ map (λ w. w.url) (select (λ w. matches_filter w (event_of c a b) && wanted ch t w) ws)
unfolding deliveries
urls_on-deliveries ch t c a b [] = refl
urls_on-deliveries ch t c a b (w ∷ ws) = elim (Bool-cases (matches_filter w (event_of c a b))) [
  | inl e ↦ rw e (
      published ch t c w (deliveries t c a b ws)
      ∙ onto (wanted ch t w) _ _ (urls_on-deliveries ch t c a b ws))
  | inr e ↦ rw e (urls_on-deliveries ch t c a b ws)
]
  where
    onto :
        (q : Bool) (us : List Text) (vs : List Webhook)
        → us ≡ map (λ v. v.url) vs
        → (if q then w.url ∷ us else us) ≡ map (λ v. v.url) (if q then w ∷ vs else vs)
    onto true us vs e = ap (λ rest. w.url ∷ rest) e
    onto false us vs e = e

module _ {D E : Type 0} (r : Repository D E) (t : Table D) (laws : Laws r t)
    (env : Surroundings) where
  -- Where the table can be read, and after any operations on a service that starts with an empty
  -- cache, Dispatch calls the producer of each channel with exactly the addresses of those rows of
  -- the event's instance in the table that match the event and ask for the channel, those of older
  -- rows first. HTTP is asked for by every webhook, another channel needs its producer too.
  pub dispatch-urls_on :
      (ops : List Op) (d : D) (resolver : Option NameResolver) (tr : Transports) (c : Call)
      (st : NameState) (ch : Channel)
      → Readable r t laws
      → let s : State D = steps r env ops (record { db = d; cache = λ j. none }) in
        let (chat, sender, st') = names resolver c st in
        (ws : List Webhook) × IsListing ws (rows_of t c.instance_id s.db)
        × (urls_on ch (dispatch r resolver tr c s st).0
            ≡ map
                (λ w. w.url)
                (select (λ w. matches_filter w (event_of c chat sender) && wanted ch tr w) ws))
  unfolding dispatch
  dispatch-urls_on ops d resolver tr c st ch reads =
      let s : State D = steps r env ops (record { db = d; cache = λ j. none }) in
      let ws : List Webhook = (get_cached r c.instance_id s).0 in
      (
        ws,
        steps_cached r t laws env ops d c.instance_id reads,
        ap (urls_on ch) (fire-deliveries resolver tr c ws st)
            ∙ urls_on-deliveries ch tr c (names resolver c st).0 (names resolver c st).1 ws,
      )
