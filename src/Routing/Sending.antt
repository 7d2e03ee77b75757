-- ===== src/Routing/Sending.antt =====
-- sendToQueueOrWebhook of pkg/whatsmeow/service/whatsmeow.go: the order of the producers and what
-- a failure of one does to the later ones; and what the flags mean to RabbitMQ and NATS.
use webapp_wago.Base.{
  ℕ, ◌≤◌, append-nil, subst, Bool, true, false, ◌||◌, List, [], ◌∷◌, map, select, if◌then◌else◌,
  ◌≡◌, inl, inr, refl, sym, arith, Bool-cases,
}
use webapp_wago.Base.Text.{Text, codes, text_eq, text_eq→eq}
use webapp_wago.Producers.{Message, is_on}
use webapp_wago.Producers.Rabbit.{Amqp, Setup, State, produce}
use webapp_wago.Producers.Publishing.{Sent, produce-IsProduced}
use webapp_wago.Instances.{Instance}
use webapp_wago.Webhook.Dispatch.{Channel, http, to_rabbitmq, to_websocket, to_nats}
use webapp_wago.Routing.{
  is_set, rabbitmq_call, nats_call, websocket_call, webhook_call, Handoff, is_enabled, hand_on,
  send_to_queue_or_webhook,
}

-- Which channels an instance has.
abbrev pub uses : Instance → Channel → Bool
uses i to_rabbitmq = is_enabled i.rabbitmq_enable
uses i to_nats = is_enabled i.nats_enable
uses i to_websocket = is_enabled i.websocket_enable
uses i http = is_set i.webhook

abbrev pub in_order : List Channel
in_order = to_rabbitmq ∷ to_nats ∷ to_websocket ∷ http ∷ []

-- The channels up to the first that fails, which is the last one tried.
abbrev pub until_failure : (Channel → Bool) → List Channel → List Channel
until_failure works [] = []
until_failure works (ch ∷ chs) =
    let rest = until_failure works chs in if works ch then ch ∷ rest else ch ∷ []

hand_on_lem :
    (works : Channel → Bool) (p : Bool) (h : Handoff) (later : List Handoff) (chs : List Channel)
    → map (λ k. k.channel) later ≡ until_failure works chs
    → map (λ k. k.channel) (hand_on works p h later)
      ≡ until_failure works (if p then h.channel ∷ chs else chs)
hand_on_lem works false h later chs e = e
hand_on_lem works true h later chs e = elim (Bool-cases (works h.channel)) [
  | inl t ↦ rw (t, e) refl
  | inr f ↦ rw f refl
]

module _ (works : Channel → Bool) (i : Instance) (queue payload : Text) where
  -- The producers that an instance has are called in the order RabbitMQ, NATS, WebSocket, webhook,
  -- up to the first that fails: a broker that is down keeps the event from the later ones.
  pub send_to_queue_or_webhook-until_failure :
      map (λ h. h.channel) (send_to_queue_or_webhook works i queue payload)
      ≡ until_failure works (select (uses i) in_order)
  unfolding send_to_queue_or_webhook
  send_to_queue_or_webhook-until_failure =
      hand_on_lem works (uses i to_rabbitmq) _ _
        (select (uses i) (to_nats ∷ to_websocket ∷ http ∷ []))
        (hand_on_lem works (uses i to_nats) _ _ (select (uses i) (to_websocket ∷ http ∷ [])) (
          hand_on_lem works (uses i to_websocket) _ _ (select (uses i) (http ∷ []))
            (hand_on_lem works (uses i http) _ [] [] refl)))

or_true : (b : Bool) → (b || true) ≡ true
or_true true = refl
or_true false = refl

-- What the flags of an instance mean to the producer.
flag_lem : (flag : Text) → is_enabled flag ≡ true → is_on flag ≡ text_eq flag (codes "enabled")
unfolding text_eq codes
flag_lem flag h = of (text_eq flag (codes "enabled")) (text_eq flag (codes "true")) refl refl h
  where
    of :
        (a b : Bool)
        → text_eq flag (codes "enabled") ≡ a
        → text_eq flag (codes "true") ≡ b
        → (a || b) ≡ true
        → (text_eq flag (codes "global") || a) ≡ a
    of true b e e' k = or_true (text_eq flag (codes "global"))
    of false true e e' k = rw (text_eq→eq flag (codes "true") e') refl
    of false false e e' k = cc

module _ {W : Type 0} (amqp : Amqp W) (setup : Setup) where
  abbrev pub on_rabbitmq : Channel → Bool
  on_rabbitmq to_rabbitmq = true
  on_rabbitmq _ = false

  -- The calls of the RabbitMQ producer among a list of calls, on its state.
  unfoldable pub run_rabbitmq : List Handoff → State W → State W
  unfolding produce
  run_rabbitmq [] s = s
  run_rabbitmq (h ∷ hs) s =
      let there = run_rabbitmq hs (produce amqp setup h.queue h.payload h.third s).1 in
      let passed = run_rabbitmq hs s in if on_rabbitmq h.channel then there else passed

  -- No call of the list is for RabbitMQ.
  abbrev Elsewhere : List Handoff → Type 0
  Elsewhere hs = (s : State W) → run_rabbitmq hs s ≡ s

  hand_on-Elsewhere :
      (works : Channel → Bool) (p : Bool) (h : Handoff) (later : List Handoff)
      → on_rabbitmq h.channel ≡ false
      → Elsewhere later
      → Elsewhere (hand_on works p h later)
  unfolding run_rabbitmq
  hand_on-Elsewhere works false h later e k s = k s
  hand_on-Elsewhere works true h later e k s = elim (Bool-cases (works h.channel)) [
    | inl t ↦ rw (t, e) (k s)
    | inr f ↦ rw (f, e) refl
  ]

  run_hand_on :
      (works : Channel → Bool) (p : Bool) (h : Handoff) (later : List Handoff) (s : State W)
      → on_rabbitmq h.channel ≡ true
      → Elsewhere later
      → run_rabbitmq (hand_on works p h later) s
        ≡ (if p then (produce amqp setup h.queue h.payload h.third s).1 else s)
  unfolding run_rabbitmq
  run_hand_on works false h later s e k = k s
  run_hand_on works true h later s e k = elim (Bool-cases (works h.channel)) [
    | inl t ↦ rw (t, e) (k (produce amqp setup h.queue h.payload h.third s).1)
    | inr f ↦ rw (f, e) refl
  ]

  -- Between two states the message was tried as often as the flag of an instance allows, and
  -- accepted at most once.
  abbrev pub TriedFor : Text → Message → State W → State W → Type 0
  TriedFor flag m s s' =
      (j : ℕ) × (k : ℕ) × (j ≤ (if text_eq flag (codes "enabled") then setup.max_retries else 0))
      × (k ≤ 1)
      × Sent m j k s s'

  -- When an event is handed to the producers of an instance, it is published on RabbitMQ at most as
  -- often as there are retries and accepted at most once; and there is no attempt to publish it
  -- unless the instance's flag is "enabled".
  pub run_rabbitmq-send :
      (works : Channel → Bool) (i : Instance) (queue payload : Text) (s : State W)
      → TriedFor i.rabbitmq_enable
          (record { queue = queue; payload = payload })
          s
          (run_rabbitmq (send_to_queue_or_webhook works i queue payload) s)
  unfolding send_to_queue_or_webhook run_rabbitmq
  run_rabbitmq-send works i queue payload s =
      let m : Message = record { queue = queue; payload = payload } in
      let last : List Handoff =
        hand_on works (is_set i.webhook) (webhook_call i queue payload) [] in
      let second : List Handoff =
        hand_on works (is_enabled i.websocket_enable) (websocket_call i queue payload) last in
      subst (TriedFor i.rabbitmq_enable m s)
        (sym (
          run_hand_on works (is_enabled i.rabbitmq_enable) (rabbitmq_call i queue payload)
            (hand_on works (is_enabled i.nats_enable) (nats_call i queue payload) second) s refl
            (hand_on-Elsewhere works (is_enabled i.nats_enable) (nats_call i queue payload) second
              refl
              (hand_on-Elsewhere works (is_enabled i.websocket_enable)
                (websocket_call i queue payload) last refl
                (hand_on-Elsewhere works (is_set i.webhook) (webhook_call i queue payload) [] refl
                  (λ z. refl))))))
        (of (is_enabled i.rabbitmq_enable) refl)
    where
      of :
          (b : Bool)
          → is_enabled i.rabbitmq_enable ≡ b
          → TriedFor i.rabbitmq_enable
              (record { queue = queue; payload = payload })
              s
              (if b then (produce amqp setup queue payload i.rabbitmq_enable s).1 else s)
      of false e = (
        0,
        0,
        omega arith,
        omega arith,
        (sym (append-nil s.attempts), sym (append-nil s.accepted_messages)),
      )
      of true e =
          let (j, k, hj, hk, sent, o) =
            produce-IsProduced amqp setup queue payload i.rabbitmq_enable s in
          (
            j,
            k,
            subst (λ b. j ≤ (if b then setup.max_retries else 0)) (flag_lem i.rabbitmq_enable e) hj,
            hk,
            sent,
          )
