-- ===== src/Producers/Publishing.antt =====
-- pkg/events/rabbitmq/rabbitmq_producer.go: how often a message is handed to the broker, and what
-- the result of Produce says about it.
use webapp_wago.Base.{
  ℕ, zero, suc, ◌≤◌, Bool, true, false, List, [], ◌∷◌, ◌++◌, is_empty, replicate, append-nil,
  Result, ok, err, if◌then◌else◌, ◌≡◌, ◌⊎◌, inl, inr, refl, sym, ap, ◌∙◌, arith,
}
use webapp_wago.Base.Text.{Text}
use webapp_wago.Producers.{Message, is_on}
use webapp_wago.Producers.Rabbit.{
  Published, accepted, not_open, refused, Amqp, Fault, Setup, State, dial_loop, reconnect,
  with_dial, if_closed, ensure_connection, tried, opened, reopen, round_after, on_channel,
  publish_loop, publish_with_retry, then_do, declare_queue, declared, produce, not_published,
  not_declared, no_url, no_connection, no_channel, no_confirms,
}

one_more :
    (xs ys zs : List Message) (m : Message) (j : ℕ)
    → ys ≡ xs ++ m ∷ []
    → zs ≡ ys ++ replicate j m
    → zs ≡ xs ++ replicate (suc j) m
one_more [] ys zs m j e e' = e' ∙ ap (λ l. l ++ replicate j m) e
one_more (x ∷ xs) [] zs m j e e' = cc
one_more (x ∷ xs) (y ∷ ys) [] m j e e' = cc
one_more (x ∷ xs) (y ∷ ys) (z ∷ zs) m j e e' =
    let t : ys ≡ xs ++ m ∷ [] = cc in
    let t' : zs ≡ ys ++ replicate j m = cc in
    let ih : zs ≡ xs ++ replicate (suc j) m = one_more xs ys zs m j t t' in cc

module _ {W : Type 0} where
  -- From `s` to `s'` the message was tried `j` times and accepted `k` times.
  abbrev pub Sent : Message → ℕ → ℕ → State W → State W → Type 0
  Sent m j k s s' =
      (s'.attempts ≡ s.attempts ++ replicate j m)
      × (s'.accepted_messages ≡ s.accepted_messages ++ replicate k m)

  -- No message was tried.
  abbrev pub Quiet : State W → State W → Type 0
  Quiet s s' = (s'.attempts ≡ s.attempts) × (s'.accepted_messages ≡ s.accepted_messages)

  pub Quiet-trans : (s s' s'' : State W) → Quiet s s' → Quiet s' s'' → Quiet s s''
  Quiet-trans s s' s'' (a, b) (a', b') = (a' ∙ a, b' ∙ b)

  Sent-none : (m : Message) (s s' : State W) → Quiet s s' → Sent m 0 0 s s'
  Sent-none m s s' (a, b) =
      (a ∙ sym (append-nil s.attempts), b ∙ sym (append-nil s.accepted_messages))

  Quiet-Sent :
      (m : Message) (j k : ℕ) (s s' s'' : State W)
      → Quiet s s'
      → Sent m j k s' s''
      → Sent m j k s s''
  Quiet-Sent m j k s s' s'' (a, b) (a', b') =
      (a' ∙ ap (λ xs. xs ++ replicate j m) a, b' ∙ ap (λ xs. xs ++ replicate k m) b)

  Sent-Quiet :
      (m : Message) (j k : ℕ) (s s' s'' : State W)
      → Sent m j k s s'
      → Quiet s' s''
      → Sent m j k s s''
  Sent-Quiet m j k s s' s'' (a, b) (a', b') = (a' ∙ a, b' ∙ b)

  Quiet-if :
      {A : Type 0} (b : Bool) (s : State W) (x y : A × State W)
      → Quiet s x.1
      → Quiet s y.1
      → Quiet s (if b then x else y).1
  Quiet-if true s x y hx hy = hx
  Quiet-if false s x y hx hy = hy

  module _ (amqp : Amqp W) (setup : Setup) where
    dial_loop-Quiet : (n : ℕ) (s : State W) → Quiet s (dial_loop amqp setup n s).1
    unfolding dial_loop
    dial_loop-Quiet zero s = (refl, refl)
    dial_loop-Quiet (suc n) s = of (amqp.dial s.world) (dial_loop-Quiet n)
      where
        of :
            (d : Bool × W)
            → ((s' : State W) → Quiet s' (dial_loop amqp setup n s').1)
            → let s' = with_dial amqp setup d s in
              Quiet s (if s'.connected then (true, s') else dial_loop amqp setup n s').1
        of (true, w) h = (refl, refl)
        of (false, w) h = h (record s { connected = false; world = w })

    reconnect-Quiet : (s : State W) → Quiet s (reconnect amqp setup s).1
    unfolding reconnect
    reconnect-Quiet s =
        Quiet-if (is_empty setup.conn_str) s (false, s) (dial_loop amqp setup 3 s) (refl, refl)
          (dial_loop-Quiet 3 s)

    pub ensure_connection-Quiet : (s : State W) → Quiet s (ensure_connection amqp setup s).1
    unfolding ensure_connection
    ensure_connection-Quiet s =
        Quiet-if s.connected s (if_closed amqp setup (amqp.is_closed s.world) s)
          (reconnect amqp setup s) (of (amqp.is_closed s.world)) (reconnect-Quiet s)
      where
        of : (c : Bool × W) → Quiet s (if_closed amqp setup c s).1
        of (true, w) = reconnect-Quiet (record s { world = w })
        of (false, w) = (refl, refl)

    reopen-Quiet : (r : Bool × State W) → Quiet r.1 (reopen amqp setup r).1
    reopen-Quiet (false, s) = (refl, refl)
    reopen-Quiet (true, s) = (refl, refl)

    -- What a loop that starts at `s` did, when it ends with `r`.
    abbrev pub IsDone : ℕ → Message → State W → Bool × State W → Type 0
    IsDone n m s r =
        (j : ℕ) × (k : ℕ) × (j ≤ n) × (k ≤ 1) × Sent m j k s r.1 × ((k ≡ 0) ⊎ (r.0 ≡ true))

    -- A round whose error is given: it tried once, and whatever comes after counts one more.
    after_round :
        (n : ℕ) (m : Message) (s s' : State W) (r : Bool × State W)
        → Sent m 1 0 s s'
        → IsDone n m s' r
        → IsDone (suc n) m s r
    after_round n m s s' r (a, b) (j, k, hj, hk, (a', b'), q) = (
      suc j,
      k,
      omega arith,
      hk,
      (
        one_more s.attempts s'.attempts r.1.attempts m j a a',
        b' ∙ ap (λ l. l ++ replicate k m) (b ∙ append-nil s.accepted_messages),
      ),
      q,
    )

    on_channel-IsDone :
        (n : ℕ) (there : Bool) (m : Message) (s : State W) (r : Bool × State W)
        → IsDone n m s r
        → IsDone n m s (on_channel amqp setup there s r)
    on_channel-IsDone n true m s r d = d
    on_channel-IsDone n false m s r d = (
      0,
      0,
      omega arith,
      omega arith,
      Sent-none m s (record s { panicked = true }) (refl, refl),
      inl refl,
    )

    publish_loop-IsDone :
        (n : ℕ) (fine there : Bool) (m : Message) (s : State W)
        → IsDone n m s (publish_loop amqp setup n fine there m s)
    unfolding publish_loop
    publish_loop-IsDone zero fine there m s =
        (0, 0, omega arith, omega arith, Sent-none m s s (refl, refl), inl refl)
    publish_loop-IsDone (suc n) fine there m s =
        on_channel-IsDone (suc n) there m s _
          (of (amqp.publish m s.world) (λ f t. publish_loop-IsDone n f t m))
      where
        of :
            (p : Published × W)
            → ((f t : Bool) (s' : State W) → IsDone n m s' (publish_loop amqp setup n f t m s'))
            → let ((over, fine', there'), s') = round_after amqp setup (tried amqp setup m p s) in
              IsDone
                (suc n)
                m
                s
                (if over then (true, s') else publish_loop amqp setup n fine' there' m s')
        of (accepted, w) ih = (1, 1, omega arith, omega arith, (refl, refl), inr refl)
        of (refused, w) ih =
            let s' : State W = record s { attempts = s.attempts ++ m ∷ []; world = w } in
            after_round n m s s' (publish_loop amqp setup n false true m s')
              (refl, sym (append-nil s.accepted_messages)) (ih false true s')
        of (not_open, w) ih =
            let s' : State W = record s { attempts = s.attempts ++ m ∷ []; world = w } in
            let r = reopen amqp setup (ensure_connection amqp setup s') in
            after_round n m s r.1 (publish_loop amqp setup n r.0.0 r.0.1 m r.1)
              (Sent-Quiet m 1 0 s s' r.1 (refl, sym (append-nil s.accepted_messages))
                (Quiet-trans s' (ensure_connection amqp setup s').1 r.1 (ensure_connection-Quiet s')
                  (reopen-Quiet (ensure_connection amqp setup s'))))
              (ih r.0.0 r.0.1 r.1)

    -- What a call of `Produce` that starts at `s` did with its message.
    abbrev pub IsProduced : ℕ → Message → State W → Result Fault (Unit {0}) × State W → Type 0
    IsProduced n m s r =
        (j : ℕ) × (k : ℕ) × (j ≤ n) × (k ≤ 1) × Sent m j k s r.1 × ((k ≡ 0) ⊎ (r.0 ≡ ok tt))

    IsProduced-Quiet :
        (n : ℕ) (m : Message) (s : State W) (r : Result Fault (Unit {0}) × State W)
        → Quiet s r.1
        → IsProduced n m s r
    IsProduced-Quiet n m s r q = (0, 0, omega arith, omega arith, Sent-none m s r.1 q, inl refl)

    then_do-IsProduced :
        (n : ℕ) (m : Message) (f : Fault) (s : State W) (x : Bool × State W)
        (k : State W → Result Fault (Unit {0}) × State W)
        → Quiet s x.1
        → ((s' : State W) → IsProduced n m s' (k s'))
        → IsProduced n m s (then_do amqp setup f x k)
    then_do-IsProduced n m f s (false, s') k q h = IsProduced-Quiet n m s (err f, s') q
    then_do-IsProduced n m f s (true, s') k q h =
        let (i, j, hi, hj, sent, o) = h s' in
        (i, j, hi, hj, Quiet-Sent m i j s s' (k s').1 q sent, o)

    last-IsProduced :
        (n : ℕ) (m : Message) (s : State W) (x : Bool × State W)
        → IsDone n m s x
        → IsProduced n m s (then_do amqp setup not_published x (λ s'. (ok tt, s')))
    last-IsProduced n m s (false, s') (j, k, hj, hk, sent, inl z) = (j, k, hj, hk, sent, inl z)
    last-IsProduced n m s (false, s') (j, k, hj, hk, sent, inr z) = cc
    last-IsProduced n m s (true, s') (j, k, hj, hk, sent, o) = (j, k, hj, hk, sent, inr refl)

    pub declared-Quiet :
        (q : Text) (d : Bool × W) (s : State W) → Quiet s (declared amqp setup q d s).1
    declared-Quiet q (true, w) s = (refl, refl)
    declared-Quiet q (false, w) s = (refl, refl)

    -- The part of `Produce` that is done where a message is to be published.
    abbrev pub if_on : Text → Message → Bool → State W → Result Fault (Unit {0}) × State W
    if_on q m e s =
        if e
        then then_do amqp setup not_declared (declare_queue amqp setup q s) (λ sd.
          then_do amqp setup not_published (publish_with_retry amqp setup m sd) (λ se. (ok tt, se)))
        else (ok tt, s)

    abbrev tries : Bool → ℕ
    tries e = if e then setup.max_retries else 0

    if_on-IsProduced :
        (q : Text) (m : Message) (e : Bool) (s : State W) → IsProduced (tries e) m s (if_on q m e s)
    unfolding publish_with_retry
    if_on-IsProduced q m false s = IsProduced-Quiet 0 m s (ok tt, s) (refl, refl)
    if_on-IsProduced q m true s =
        then_do-IsProduced setup.max_retries m not_declared s (declare_queue amqp setup q s) _
          (declared-Quiet q (amqp.declare_queue q s.world) s)
          (λ s'.
            last-IsProduced setup.max_retries m s' (publish_with_retry amqp setup m s')
              (publish_loop-IsDone setup.max_retries true true m s'))

    -- Its earlier parts.
    unfoldable pub confirmed : Text → Message → Bool → State W → Result Fault (Unit {0}) × State W
    confirmed q m e sb =
        then_do amqp setup no_confirms (opened amqp setup (amqp.confirm sb.world) sb) (if_on q m e)

    unfoldable pub channelled : Text → Message → Bool → State W → Result Fault (Unit {0}) × State W
    unfolding confirmed
    channelled q m e sa =
        then_do amqp setup no_channel (opened amqp setup (amqp.channel sa.world) sa)
          (confirmed q m e)

    channelled-IsProduced :
        (q : Text) (m : Message) (e : Bool) (s : State W)
        → IsProduced (tries e) m s (channelled q m e s)
    unfolding channelled confirmed
    channelled-IsProduced q m e s =
        then_do-IsProduced (tries e) m no_channel s (opened amqp setup (amqp.channel s.world) s)
          (confirmed q m e) (refl, refl)
          (λ sb.
            then_do-IsProduced (tries e) m no_confirms sb
              (opened amqp setup (amqp.confirm sb.world) sb) (if_on q m e) (refl, refl)
              (if_on-IsProduced q m e))

    IsProduced-if :
        (n : ℕ) (m : Message) (s : State W) (b : Bool) (x y : Result Fault (Unit {0}) × State W)
        → IsProduced n m s x
        → IsProduced n m s y
        → IsProduced n m s (if b then x else y)
    IsProduced-if n m s true x y hx hy = hx
    IsProduced-if n m s false x y hx hy = hy

    -- Whatever the broker and the network do, one call of Produce hands its message to the broker
    -- at most as often as there are retries, and not once unless the third text is "global" or
    -- "enabled"; the broker accepts it at most once; and no call after which it was accepted
    -- returns an error. Other messages are not touched.
    pub produce-IsProduced :
        (queue payload enable : Text) (s : State W)
        → IsProduced
            (if is_on enable then setup.max_retries else 0)
            (record { queue = queue; payload = payload })
            s
            (produce amqp setup queue payload enable s)
    unfolding produce channelled confirmed
    produce-IsProduced queue payload enable s =
        let m : Message = record { queue = queue; payload = payload } in
        let n : ℕ = tries (is_on enable) in
        IsProduced-if n m s (is_empty setup.conn_str) (err no_url, s) _
          (IsProduced-Quiet n m s (err no_url, s) (refl, refl))
          (then_do-IsProduced n m no_connection s (ensure_connection amqp setup s)
            (channelled queue m (is_on enable)) (ensure_connection-Quiet s)
            (channelled-IsProduced queue m (is_on enable)))
