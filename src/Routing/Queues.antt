-- ===== src/Routing/Queues.antt =====
-- SendToGlobalQueues (pkg/whatsmeow/service/whatsmeow.go) and CreateGlobalQueues
-- (pkg/events/rabbitmq/rabbitmq_producer.go): the one sends only to queues that the other made.
use webapp_wago.Base.{
  Bool, true, false, not, ◌||◌, List, [], ◌∷◌, ◌++◌, map, All, all-All, is_empty, Option, none,
  some, if◌then◌else◌, ◌≡◌, inl, inr, refl, sym, ap, subst, append-nil, Result, ok, ◌∙◌, Bool-cases,
}
use webapp_wago.Base.Text.{Text, codes, text_eq, text_eq→eq, to_lower}
use webapp_wago.Base.Table.{assoc-All}
use mathlib.Core.List.{append_assoc}
use webapp_wago.Producers.Rabbit.{
  Amqp, Fault, no_connection, no_channel, not_declared, Setup, new_setup, State, then_do, declared,
  opened, ensure_connection, declare_all, create_global_queues, queues_of, all_queues,
  global_queues,
}
use webapp_wago.Routing.{find, categories}
use webapp_wago.Routing.Finding.{IsIn, find-map, find-append, or_right}
use webapp_wago.Routing.Global.{Config, global_event_type, skip, send, amqp_group, amqp_choice}

-- A queue of one group is a queue of all of them.
find-all_queues :
    (q g : Text) (gs : List Text) → IsIn g gs → IsIn q (queues_of g) → IsIn q (all_queues gs)
unfolding all_queues find
find-all_queues q g [] h k = cc
find-all_queues q g (f ∷ gs) h k =
    find-append q (queues_of f) (all_queues gs) ∙ of (find-all_queues q g gs) (text_eq f g) refl h
  where
    of :
        (IsIn g gs → IsIn q (queues_of g) → IsIn q (all_queues gs))
        → (b : Bool) → text_eq f g ≡ b
        → (b || find gs g) ≡ true
        → (find (queues_of f) q || find (all_queues gs) q) ≡ true
    of ih true e m = rw (ap (λ x. find (queues_of x) q) (text_eq→eq f g e) ∙ k) refl
    of ih false e m = let r : IsIn q (all_queues gs) = ih m k in or_right (find (queues_of f) q) _ r

-- Each event of a group has a queue in the map of that group.
queue_of_event : All (λ p. IsIn (to_lower p.0) (queues_of p.1)) categories
unfolding find to_lower queues_of codes
queue_of_event = all-All (λ p. find (queues_of p.1) (to_lower p.0)) categories refl

-- What is sent for an event of a group goes to a queue of the list.
queue_of_group :
    (e g : Text) (gs : List Text)
    → global_event_type e ≡ some g
    → IsIn g gs
    → IsIn (to_lower e) (all_queues gs)
unfolding global_event_type
queue_of_group e g gs h m =
    find-all_queues (to_lower e) g gs m
      (assoc-All (λ p. IsIn (to_lower p.0) (queues_of p.1)) e g categories queue_of_event h)

module _ (c : Config) (conn_str : Text) where
  -- The producer that is made from the same configuration.
  abbrev pub setup_of : Setup
  setup_of = new_setup conn_str c.amqp_global_enabled c.amqp_global_events c.amqp_specific_events

  amqp_choice-IsIn :
      (e q : Text)
      → amqp_choice c e ≡ send q
      → (c.amqp_global_enabled ≡ true) × IsIn q (global_queues setup_of)
  unfolding amqp_choice global_queues new_setup
  amqp_choice-IsIn e q h =
      of c.amqp_global_enabled c.amqp_specific_events (global_event_type e) refl h
    where
      by_group :
          (o : Option Text)
          → global_event_type e ≡ o
          → amqp_group c e o ≡ send q
          → IsIn q (all_queues c.amqp_global_events)
      by_group none eq k = cc
      by_group (some g) eq k = elim (Bool-cases (find c.amqp_global_events g)) [
        | inl m ↦
            (let k' : send (to_lower e) ≡ send q = rw m at k in
              let eq' : to_lower e ≡ q = cc in
              subst (λ x. IsIn x (all_queues c.amqp_global_events)) eq'
                (queue_of_group e g c.amqp_global_events eq m))
        | inr m ↦ (let k' : skip ≡ send q = rw m at k in cc)
      ]

      by_name :
          (b : Bool) (xs : List Text)
          → find xs e ≡ b
          → (if b then send (to_lower e) else skip) ≡ send q
          → IsIn q (map to_lower xs)
      by_name true xs eq k =
          let eq' : to_lower e ≡ q = cc in
          subst (λ x. IsIn x (map to_lower xs)) eq' (find-map to_lower e xs eq)
      by_name false xs eq k = cc

      of :
          (enabled : Bool) (specific : List Text) (o : Option Text)
          → global_event_type e ≡ o
          → (if not enabled
              then skip
              else if not (is_empty specific)
              then (if find specific e then send (to_lower e) else skip)
              else amqp_group c e o)
            ≡ send q
          → (enabled ≡ true)
            × IsIn q (
                if is_empty specific
                then all_queues c.amqp_global_events
                else map to_lower specific)
      of false specific o eq k = cc
      of true [] o eq k = (refl, by_group o eq k)
      of true (x ∷ xs) o eq k = (refl, by_name (find (x ∷ xs) e) (x ∷ xs) refl k)

module _ {W : Type 0} (amqp : Amqp W) (setup : Setup) where
  then_do_ok :
      (f : Fault) (x : Bool × State W) (k : State W → Result Fault (Unit {0}) × State W)
      → (then_do amqp setup f x k).0 ≡ ok tt
      → then_do amqp setup f x k ≡ k x.1
  then_do_ok f (false, s) k e = cc
  then_do_ok f (true, s) k e = refl

  declare_all-queues :
      (qs : List Text) (s : State W)
      → (declare_all amqp setup qs s).0 ≡ ok tt
      → (declare_all amqp setup qs s).1.queues ≡ s.queues ++ qs
  unfolding declare_all
  declare_all-queues [] s e = sym (append-nil s.queues)
  declare_all-queues (q ∷ qs) s e = of (amqp.declare_queue q s.world) e (declare_all-queues qs)
    where
      of :
          (d : Bool × W)
          → (then_do amqp setup not_declared
              (declared amqp setup q d s)
              (declare_all amqp setup qs)).0
            ≡ ok tt
          → ((s' : State W)
              → (declare_all amqp setup qs s').0 ≡ ok tt
              → (declare_all amqp setup qs s').1.queues ≡ s'.queues ++ qs)
          → (then_do amqp setup not_declared
              (declared amqp setup q d s)
              (declare_all amqp setup qs)).1.queues
            ≡ s.queues ++ q ∷ qs
      of (false, w) k ih = cc
      of (true, w) k ih =
          ih (record s { queues = s.queues ++ q ∷ []; world = w }) k
          ∙ append_assoc s.queues (q ∷ []) qs

  create_global_queues-queues :
      (s : State W)
      → setup.amqp_global_enabled ≡ true
      → (create_global_queues amqp setup s).0 ≡ ok tt
      → (before : List Text) × ((create_global_queues amqp setup s).1.queues
          ≡ before ++ global_queues setup)
  unfolding create_global_queues
  create_global_queues-queues s on = of setup.amqp_global_enabled on
    where
      last : State W → Result Fault (Unit {0}) × State W
      last sb = declare_all amqp setup (global_queues setup) sb

      next : State W → Result Fault (Unit {0}) × State W
      next sa = then_do amqp setup no_channel (opened amqp setup (amqp.channel sa.world) sa) last

      all_of_it : Result Fault (Unit {0}) × State W
      all_of_it = then_do amqp setup no_connection (ensure_connection amqp setup s) next

      of :
          (b : Bool)
          → b ≡ true
          → let r : Result Fault (Unit {0}) × State W = if not b then (ok tt, s) else all_of_it in
            r.0 ≡ ok tt → (before : List Text) × (r.1.queues ≡ before ++ global_queues setup)
      of false on e = cc
      of true on e =
          let sa : State W = (ensure_connection amqp setup s).1 in
          let sb : State W = (opened amqp setup (amqp.channel sa.world) sa).1 in
          let p : all_of_it ≡ next sa =
            then_do_ok no_connection (ensure_connection amqp setup s) next e in
          let p' : all_of_it ≡ last sb =
            p
            ∙ then_do_ok no_channel (opened amqp setup (amqp.channel sa.world) sa) last
                (ap (λ r. r.0) (sym p) ∙ e) in
          (
            sb.queues,
            ap (λ r. r.1.queues) p'
                ∙ declare_all-queues (global_queues setup) sb (ap (λ r. r.0) (sym p') ∙ e),
          )

-- After a CreateGlobalQueues that returned no error, on a producer made from the configuration,
-- every queue to which SendToGlobalQueues sends an event over RabbitMQ is one that was declared.
pub create_global_queues-IsIn :
    {W : Type 0} (amqp : Amqp W) (c : Config) (conn_str : Text) (s : State W) (event_type q : Text)
    → (create_global_queues amqp (setup_of c conn_str) s).0 ≡ ok tt
    → amqp_choice c event_type ≡ send q
    → IsIn q (create_global_queues amqp (setup_of c conn_str) s).1.queues
unfolding new_setup
create_global_queues-IsIn {W} amqp c conn_str s event_type q done chosen =
    let (on, there) = amqp_choice-IsIn c conn_str event_type q chosen in
    let (before, e) = create_global_queues-queues amqp (setup_of c conn_str) s on done in
    ap (λ qs. find qs q) e
    ∙ find-append q before (global_queues (setup_of c conn_str))
    ∙ or_right (find before q) (find (global_queues (setup_of c conn_str)) q) there
