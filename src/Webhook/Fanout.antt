-- ===== src/Webhook/Fanout.antt =====
-- Dispatch of pkg/webhook/service/webhook_service.go joined to the producers of pkg/events: what
-- the calls of Produce that it makes come to.
use webapp_wago.Base.{
  ℕ, ◌≤◌, Bool, true, false, ◌&&◌, ◌||◌, List, [], ◌∷◌, ◌++◌, All, map, select, is_empty, length,
  Option, none, some, ltb, ◌==◌, if◌then◌else◌, ◌≡◌, inl, inr, refl, ap, ap₂, ◌∙◌, arith,
  Bool-cases,
}
use webapp_wago.Base.Text.{Text, codes, text_eq, split, cons_first, lower_rune, to_lower}
use webapp_wago.Producers.{Message, is_on}
use webapp_wago.Producers.Http
use webapp_wago.Producers.Http.{Post}
use webapp_wago.Producers.Nats
use webapp_wago.Producers.Nats.{NatsState, produce_on, publish_if}
use webapp_wago.Webhook.{Webhook}
use webapp_wago.Webhook.Filter.{matches_filter}
use webapp_wago.Webhook.Dispatch.{
  Transports, Channel, http, to_rabbitmq, to_websocket, to_nats, Delivery, Call, event_of, produce,
  when, publish, deliveries,
}

abbrev is_http : Channel → Bool
is_http http = true
is_http _ = false

-- What the HTTP producer starts to send for the calls that are made of it.
unfoldable pub posts : Text → List Delivery → List Post
unfolding Http.produce
posts global [] = []
posts global (d ∷ ds) =
    let rest = posts global ds in
    let sent = Http.produce global d.queue_name d.json_data d.url in
    if is_http d.channel then sent ++ rest else rest

-- The global address before each address of a webhook.
abbrev pub after_global : Text → List Text → List Text
after_global global [] = []
after_global global (u ∷ us) = global ∷ u ∷ after_global global us

length-split_pos : (c : ℕ) (s : Text) → 1 ≤ length (split c s)
unfolding split
length-split_pos c [] = omega arith
length-split_pos c (d ∷ s) = elim (Bool-cases (d == c)) [
  | inl e ↦ rw e (omega arith)
  | inr e ↦ rw e (of (split c s))
]
  where
    of : (ps : List Text) → 1 ≤ length (cons_first d ps)
    of [] = omega arith
    of (p ∷ ps) = omega arith

length-cons_first : (d : ℕ) (ps : List Text) → length ps ≤ length (cons_first d ps)
length-cons_first d [] = omega arith
length-cons_first d (p ∷ ps) = omega arith

-- A text with the separator in it has two parts.
two_parts : (c : ℕ) (s t : Text) → 2 ≤ length (split c (s ++ c ∷ t))
unfolding split
two_parts c [] t = ground (arith, length-split_pos c t)
two_parts c (d ∷ s) t = ground (arith, two_parts c s t, length-cons_first d (split c (s ++ c ∷ t)))

to_lower-append :
    (s : Text) (c : ℕ) (t : Text) → to_lower (s ++ c ∷ t) ≡ to_lower s ++ lower_rune c ∷ to_lower t
unfolding to_lower
to_lower-append [] c t = refl
to_lower-append (d ∷ s) c t = ap (λ r. lower_rune d ∷ r) (to_lower-append s c t)

-- The name of a queue always has a dot.
queue_lem : (s t : Text) → ltb (length (split b'.' (to_lower (s ++ b'.' ∷ t)))) 2 ≡ false
queue_lem s t = rw (to_lower-append s b'.' t) (of _ (two_parts b'.' (to_lower s) (to_lower t)))
  where
    of : (n : ℕ) → 2 ≤ n → ltb n 2 ≡ false
    of n h = ground arith

module _ (global : Text) where
  abbrev urls : List Post → List Text
  urls ps = map (λ p. p.url) ps

  urls-append : (ps qs : List Post) → urls (ps ++ qs) ≡ urls ps ++ urls qs
  urls-append [] qs = refl
  urls-append (p ∷ ps) qs = ap (λ r. p.url ∷ r) (urls-append ps qs)

  produce-urls :
      (queue payload url : Text)
      → ltb (length (split b'.' queue)) 2 ≡ false
      → is_empty global ≡ false
      → is_empty url ≡ false
      → urls (Http.produce global queue payload url) ≡ global ∷ url ∷ []
  unfolding Http.produce
  produce-urls queue payload url e e' e'' = rw (e, e', e'') refl

  posts-when :
      (b : Bool) (d : Delivery) (ds : List Delivery)
      → is_http d.channel ≡ false
      → posts global (when b d ds) ≡ posts global ds
  unfolding posts
  posts-when true d ds e = rw e refl
  posts-when false d ds e = refl

  posts-publish :
      (t : Transports) (c : Call) (w : Webhook) (ds : List Delivery)
      → is_empty global ≡ false
      → is_empty w.url ≡ false
      → urls (posts global (publish t c w ds)) ≡ global ∷ w.url ∷ urls (posts global ds)
  unfolding posts
  posts-publish t c w ds e e' =
      urls-append (Http.produce global (produce c w http).queue_name c.json_data w.url) _
      ∙ ap₂ (λ (r r' : List Text). r ++ r')
          (produce-urls (produce c w http).queue_name c.json_data w.url
            (queue_lem c.instance_id c.event_type) e e')
          (ap urls (
            posts-when (w.rabbitmq_enable && t.rabbitmq) (produce c w to_rabbitmq) _ refl
            ∙ posts-when (w.websocket_enable && t.websocket) (produce c w to_websocket) _ refl
            ∙ posts-when (w.nats_enable && t.nats) (produce c w to_nats) ds refl))

  -- Where a global address is configured and no webhook has an empty address, the posts that an
  -- event leads to are, for each webhook that matches, one to the global address and one to the
  -- webhook's: the global address is sent the event again for every webhook.
  pub posts-deliveries :
      (t : Transports) (c : Call) (a b : Text) (ws : List Webhook)
      → is_empty global ≡ false
      → All (λ w. is_empty w.url ≡ false) ws
      → map (λ p. p.url) (posts global (deliveries t c a b ws))
        ≡ after_global global
            (map (λ w. w.url) (select (λ w. matches_filter w (event_of c a b)) ws))
  unfolding deliveries posts
  posts-deliveries t c a b [] e h = refl
  posts-deliveries t c a b (w ∷ ws) e (hw, h) =
      elim (Bool-cases (matches_filter w (event_of c a b))) [
        | inl k ↦ rw k (
            posts-publish t c w (deliveries t c a b ws) e hw
            ∙ ap (λ r. global ∷ w.url ∷ r) (posts-deliveries t c a b ws e h))
        | inr k ↦ rw k (posts-deliveries t c a b ws e h)
      ]

abbrev is_nats : Channel → Bool
is_nats to_nats = true
is_nats _ = false

module _ {W : Type 0} where
  -- With a third text that does not ask for it, NATS is left alone.
  produce-off :
      (queue payload enable : Text) (s : NatsState W)
      → is_on enable ≡ false
      → Nats.produce queue payload enable s ≡ (true, s)
  unfolding Nats.produce
  produce-off queue payload enable s e =
      of (text_eq enable (codes "global")) (text_eq enable (codes "enabled")) s.conn refl refl e
    where
      of :
          (a b : Bool) (conn : Option (Message → W → Bool × W))
          → text_eq enable (codes "global") ≡ a
          → text_eq enable (codes "enabled") ≡ b
          → (a || b) ≡ false
          → produce_on conn (record { queue = queue; payload = payload }) enable s ≡ (true, s)
      of true b conn e e' h = cc
      of false true conn e e' h = cc
      of false false none e e' h = refl
      of false false (some f) e e' h = rw (e, e') refl

  -- The calls of the NATS producer among those of Dispatch, on its state.
  unfoldable pub run_nats : List Delivery → NatsState W → NatsState W
  unfolding Nats.produce
  run_nats [] s = s
  run_nats (d ∷ ds) s =
      let there = run_nats ds (Nats.produce d.queue_name d.json_data d.url s).1 in
      let passed = run_nats ds s in if is_nats d.channel then there else passed

  run_nats-when :
      (b : Bool) (d : Delivery) (ds : List Delivery) (s : NatsState W)
      → is_on d.url ≡ false
      → run_nats (when b d ds) s ≡ run_nats ds s
  unfolding run_nats
  run_nats-when false d ds s e = refl
  run_nats-when true d ds s e = elim (Bool-cases (is_nats d.channel)) [
    | inl k ↦ rw k (ap (λ r. run_nats ds r.1) (produce-off d.queue_name d.json_data d.url s e))
    | inr k ↦ rw k refl
  ]

  -- Dispatch hands the webhook's address to NATS as the text that says whether to publish. So no
  -- event is published for a webhook of which the address is neither "global" nor "enabled", which
  -- no address is, even where the webhook asks for NATS and the producer is there.
  pub run_nats-deliveries :
      (t : Transports) (c : Call) (a b : Text) (ws : List Webhook) (s : NatsState W)
      → All (λ w. is_on w.url ≡ false) ws
      → run_nats (deliveries t c a b ws) s ≡ s
  unfolding deliveries run_nats
  run_nats-deliveries t c a b [] s h = refl
  run_nats-deliveries t c a b (w ∷ ws) s (hw, h) =
      elim (Bool-cases (matches_filter w (event_of c a b))) [
        | inl k ↦ rw k (
            run_nats-when (w.rabbitmq_enable && t.rabbitmq) (produce c w to_rabbitmq) _ s hw
            ∙ run_nats-when (w.websocket_enable && t.websocket) (produce c w to_websocket) _ s hw
            ∙ run_nats-when (w.nats_enable && t.nats) (produce c w to_nats) _ s hw
            ∙ run_nats-deliveries t c a b ws s h)
        | inr k ↦ rw k (run_nats-deliveries t c a b ws s h)
      ]
