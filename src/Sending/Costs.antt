-- ===== src/Sending/Costs.antt =====
-- How long the connection of pkg/sendMessage/service waits, and what it costs.
use webapp_wago.Base.{
  ℕ, suc, ◌*◌, ◌+◌, ◌≤◌, Bool, true, false, List, [], ◌∷◌, ◌++◌, Option, none, some, Result, ok,
  err, if◌then◌else◌, ◌≡◌, refl, arith, Bool-cases, inl, inr,
}
use webapp_wago.Base.Text.{Text}
use webapp_wago.Sending.Retry.{
  Act, Outcome, started, reconnected, slept, sent_text, is_disconnection, on_started, on_client,
  ensure_client_connected, on_reconnect, connect_attempt, connect_from, gave_up,
  ensure_client_connected_with_retry,
}

abbrev pub total : (Act → ℕ) → List Act → ℕ
total f [] = 0
total f (a ∷ acts) = f a + total f acts

abbrev pub sends : Act → ℕ
sends (sent_text b) = 1
sends started = 0
sends reconnected = 0
sends (slept n) = 0

abbrev pub deliveries : Act → ℕ
deliveries (sent_text b) = if b then 1 else 0
deliveries started = 0
deliveries reconnected = 0
deliveries (slept n) = 0

abbrev pub reconnections : Act → ℕ
reconnections reconnected = 1
reconnections started = 0
reconnections (slept n) = 0
reconnections (sent_text b) = 0

-- The sleeps; ReconnectClient sleeps for two seconds before it starts the instance again.
abbrev pub seconds : Act → ℕ
seconds (slept n) = n
seconds started = 0
seconds reconnected = 2
seconds (sent_text b) = 0

total-append : (f : Act → ℕ) (xs ys : List Act) → total f (xs ++ ys) ≡ total f xs + total f ys
total-append f [] ys = omega arith
total-append f (a ∷ xs) ys = omega (arith, total-append f xs ys)

-- At most `s` sendings, exactly `d` of them delivered, at most `m` reconnections, and a wait of `t`
-- seconds at most.
abbrev pub Costs : ℕ → ℕ → ℕ → ℕ → List Act → Type 0
Costs s d m t acts =
    (total sends acts ≤ s)
    × (total deliveries acts ≡ d)
    × (total reconnections acts ≤ m)
    × (total seconds acts ≤ t)

pub append-Costs :
    (s d m t s' d' m' t' : ℕ) (xs ys : List Act)
    → Costs s d m t xs
    → Costs s' d' m' t' ys
    → Costs (s + s') (d + d') (m + m') (t + t') (xs ++ ys)
append-Costs s d m t s' d' m' t' xs ys (a, b, c, e) (a', b', c', e') = (
  omega (arith, total-append sends xs ys),
  omega (arith, total-append deliveries xs ys),
  omega (arith, total-append reconnections xs ys),
  omega (arith, total-append seconds xs ys),
)

pub more-Costs :
    (s d m t s' m' t' : ℕ) (acts : List Act)
    → s ≤ s'
    → m ≤ m'
    → t ≤ t'
    → Costs s d m t acts
    → Costs s' d m' t' acts
more-Costs s d m t s' m' t' acts p q r (a, b, c, e) = (omega arith, b, omega arith, omega arith)

pub nothing : Costs 0 0 0 0 []
nothing = (omega arith, refl, omega arith, omega arith)

module _ (W : Type 0) (M : Type 0) (is_connected : W → Option Bool) (start_instance : W → Bool × W)
    (reconnect_client : W → Bool × W) (sleep : ℕ → W → W) (send : W → Result Text M × W) where
  started_lem :
      (r : Bool × W)
      → Costs 0 0 0 2 (on_started W M is_connected start_instance reconnect_client sleep send r).2
  started_lem (false, w) = (omega arith, refl, omega arith, omega arith)
  started_lem (true, w) = (omega arith, refl, omega arith, omega arith)

  client_lem :
      (w : W) (o : Option Bool)
      → Costs 0 0 0 2 (on_client W M is_connected start_instance reconnect_client sleep send w o).2
  client_lem w none = started_lem (start_instance w)
  client_lem w (some b) = (omega arith, refl, omega arith, omega arith)

  ensure_lem :
      (w : W)
      → Costs 0 0 0 2
          (ensure_client_connected W M is_connected start_instance reconnect_client sleep send w).2
  unfolding ensure_client_connected
  ensure_lem w = client_lem w (is_connected w)

  reconnect_lem :
      (r : Bool × W)
      → Costs 0 0 1 5 (on_reconnect W M is_connected start_instance reconnect_client sleep send r).1
  reconnect_lem (false, w) = (omega arith, refl, omega arith, omega arith)
  reconnect_lem (true, w) = (omega arith, refl, omega arith, omega arith)

  last_lem :
      (attempt : ℕ)
      (out : Outcome W M is_connected start_instance reconnect_client sleep send (Unit {0}))
      (next : W → Outcome W M is_connected start_instance reconnect_client sleep send (Unit {0}))
      → Costs 0 0 0 2 out.2
      → Costs 0 0 1 7
          (connect_attempt W M is_connected start_instance reconnect_client sleep send attempt 0 out
            next).2
  last_lem attempt (ok u, w, acts) next h =
      more-Costs 0 0 0 2 0 1 7 acts (omega arith) (omega arith) (omega arith) h
  last_lem attempt (err e, w, acts) next h = elim (Bool-cases (is_disconnection e)) [
    | inl q ↦ rw q (
        append-Costs 0 0 0 2 0 0 1 5 acts _ h
          (append-Costs 0 0 1 5 0 0 0 0 _ [] (reconnect_lem (reconnect_client w)) nothing))
    | inr q ↦ rw q (more-Costs 0 0 0 2 0 1 7 acts (omega arith) (omega arith) (omega arith) h)
  ]

  again_lem :
      (m t attempt left : ℕ)
      (out : Outcome W M is_connected start_instance reconnect_client sleep send (Unit {0}))
      (next : W → Outcome W M is_connected start_instance reconnect_client sleep send (Unit {0}))
      → Costs 0 0 0 2 out.2
      → ((w : W) → Costs 0 0 m t (next w).2)
      → Costs 0 0
          (1 + m)
          (7 + attempt * 2 + t)
          (connect_attempt W M is_connected start_instance reconnect_client sleep send attempt
            (suc left)
            out
            next).2
  again_lem m t attempt left (ok u, w, acts) next h k =
      more-Costs 0 0 0 2 0 (1 + m) (7 + attempt * 2 + t) acts (omega arith) (omega arith)
        (omega arith) h
  again_lem m t attempt left (err e, w, acts) next h k = elim (Bool-cases (is_disconnection e)) [
    | inl q ↦ rw q (
        let pauses : Costs 0 0 0 (attempt * 2) (slept (attempt * 2) ∷ []) =
          (omega arith, refl, omega arith, omega arith) in
        more-Costs 0 0 (0 + ((1 + 0) + m)) (2 + ((5 + attempt * 2) + t)) 0 (1 + m)
          (7 + attempt * 2 + t) _ (omega arith) (omega arith) (omega arith)
          (append-Costs 0 0 0 2 0 0 ((1 + 0) + m) ((5 + attempt * 2) + t) acts _ h (
            append-Costs 0 0 (1 + 0) (5 + attempt * 2) 0 0 m t _ _
              (append-Costs 0 0 1 5 0 0 0 (attempt * 2) _ _ (reconnect_lem (reconnect_client w))
                pauses)
              (k _))))
    | inr q ↦ rw q (
        more-Costs 0 0 0 2 0 (1 + m) (7 + attempt * 2 + t) acts (omega arith) (omega arith)
          (omega arith) h)
  ]

  -- A connection with its retries sends nothing and costs two reconnections and sixteen seconds at most.
  pub connection_lem :
      (w : W)
      → Costs 0 0 2 16
          (ensure_client_connected_with_retry W M is_connected start_instance reconnect_client sleep
            send w).2
  unfolding connect_from
  connection_lem w =
      again_lem 1 7 1 0
        (ensure_client_connected W M is_connected start_instance reconnect_client sleep send w)
        (connect_from W M is_connected start_instance reconnect_client sleep send 2 0)
        (ensure_lem w)
        (λ v.
          last_lem 2
            (ensure_client_connected W M is_connected start_instance reconnect_client sleep send v)
            (λ x. (err gave_up, x, [])) (ensure_lem v))
