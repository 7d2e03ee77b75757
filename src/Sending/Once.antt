-- ===== src/Sending/Once.antt =====
-- A text of pkg/sendMessage/service goes out once at most, after bounded waiting.
use webapp_wago.Base.{
  ℕ, zero, suc, ◌+◌, ◌≤◌, Bool, false, List, [], ◌∷◌, Option, Result, ok, err, if◌then◌else◌, refl,
  arith, Bool-cases, inl, inr,
}
use webapp_wago.Base.Text.{Text}
use webapp_wago.Sending.Retry.{
  Act, Outcome, slept, sent_text, mentions_disconnection, and_then, gave_up,
  ensure_client_connected_with_retry, is_ok, on_sent, text_attempt, text_from, send_text,
}
use webapp_wago.Sending.Costs.{Costs, append-Costs, more-Costs, connection_lem}

module _ (W : Type 0) (M : Type 0) (is_connected : W → Option Bool) (start_instance : W → Bool × W)
    (reconnect_client : W → Bool × W) (sleep : ℕ → W → W) (send : W → Result Text M × W) where
  -- A text that was sent so many times at most, delivered just when there is no error, with at most
  -- so many reconnections and seconds of waiting.
  abbrev pub IsOnce :
      ℕ → ℕ → ℕ → Outcome W M is_connected start_instance reconnect_client sleep send M → Type 0
  IsOnce s m t (r, w, acts) =
      Costs s (if is_ok W M is_connected start_instance reconnect_client sleep send r then 1 else 0)
        m t acts

  then_lem :
      (s m t s' m' t' : ℕ) (acts : List Act)
      (out : Outcome W M is_connected start_instance reconnect_client sleep send M)
      → Costs s 0 m t acts
      → IsOnce s' m' t' out
      → IsOnce
          (s + s')
          (m + m')
          (t + t')
          (and_then W M is_connected start_instance reconnect_client sleep send acts out)
  then_lem s m t s' m' t' acts (r, w, more) h k =
      let (a, b, c, e) =
        append-Costs s 0 m t s'
          (if is_ok W M is_connected start_instance reconnect_client sleep send r then 1 else 0) m'
          t' acts more h k in
      (a, omega (arith, b), c, e)

  weaken_lem :
      (s m t s' m' t' : ℕ)
      (out : Outcome W M is_connected start_instance reconnect_client sleep send M)
      → s ≤ s'
      → m ≤ m'
      → t ≤ t'
      → IsOnce s m t out
      → IsOnce s' m' t' out
  weaken_lem s m t s' m' t' (r, w, acts) p q u h =
      more-Costs s
        (if is_ok W M is_connected start_instance reconnect_client sleep send r then 1 else 0) m t
        s' m' t' acts p q u h

  sent_lem :
      (s m t attempt left : ℕ) (r : Result Text M × W)
      (next : W → Outcome W M is_connected start_instance reconnect_client sleep send M)
      → ((w : W) → IsOnce s m t (next w))
      → IsOnce
          (1 + s)
          m
          (attempt + t)
          (on_sent W M is_connected start_instance reconnect_client sleep send attempt left r next)
  sent_lem s m t attempt left (ok x, w) next k = (omega arith, refl, omega arith, omega arith)
  sent_lem s m t attempt zero (err e, w) next k = (omega arith, refl, omega arith, omega arith)
  sent_lem s m t attempt (suc left) (err e, w) next k =
      elim (Bool-cases (mentions_disconnection e)) [
        | inl q ↦ rw q (
            let one : Costs 1 0 0 attempt (sent_text false ∷ slept attempt ∷ []) =
              (omega arith, refl, omega arith, omega arith) in
            let acts : List Act = sent_text false ∷ slept attempt ∷ [] in
            weaken_lem (1 + s) (0 + m) (attempt + t) (1 + s) m (attempt + t)
              (and_then W M is_connected start_instance reconnect_client sleep send acts
                (next (sleep attempt w)))
              (omega arith) (omega arith) (omega arith)
              (then_lem 1 0 attempt s m t acts (next (sleep attempt w)) one (k (sleep attempt w))))
        | inr q ↦ rw q (omega arith, refl, omega arith, omega arith)
      ]

  text_lem :
      (s m t attempt left : ℕ)
      (out : Outcome W M is_connected start_instance reconnect_client sleep send (Unit {0}))
      (next : W → Outcome W M is_connected start_instance reconnect_client sleep send M)
      → Costs 0 0 2 16 out.2
      → ((w : W) → IsOnce s m t (next w))
      → IsOnce (1 + s) (2 + m) (16 + (attempt + t)) (
          text_attempt W M is_connected start_instance reconnect_client sleep send attempt left out
            next)
  text_lem s m t attempt left (ok u, w, acts) next h k =
      let out : Outcome W M is_connected start_instance reconnect_client sleep send M =
        on_sent W M is_connected start_instance reconnect_client sleep send attempt left (send w)
          next in
      weaken_lem (0 + (1 + s)) (2 + m) (16 + (attempt + t)) (1 + s) (2 + m) (16 + (attempt + t))
        (and_then W M is_connected start_instance reconnect_client sleep send acts out)
        (omega arith) (omega arith) (omega arith)
        (then_lem 0 2 16 (1 + s) m (attempt + t) acts out h
          (sent_lem s m t attempt left (send w) next k))
  text_lem s m t attempt zero (err e, w, acts) next h k =
      more-Costs 0 0 2 16 (1 + s) (2 + m) (16 + (attempt + t)) acts (omega arith) (omega arith)
        (omega arith) h
  text_lem s m t attempt (suc left) (err e, w, acts) next h k =
      weaken_lem (0 + s) (2 + m) (16 + t) (1 + s) (2 + m) (16 + (attempt + t))
        (and_then W M is_connected start_instance reconnect_client sleep send acts (next w))
        (omega arith) (omega arith) (omega arith) (then_lem 0 2 16 s m t acts (next w) h (k w))

  text_from_lem :
      (s m t attempt left : ℕ) (w : W)
      → ((v : W)
          → IsOnce s m t (
              text_from W M is_connected start_instance reconnect_client sleep send
                (suc attempt)
                left
                v))
      → IsOnce (1 + s) (2 + m) (16 + (attempt + t)) (
          text_from W M is_connected start_instance reconnect_client sleep send attempt
            (suc left)
            w)
  unfolding text_from
  text_from_lem s m t attempt left w h =
      text_lem s m t attempt (suc left)
        (ensure_client_connected_with_retry W M is_connected start_instance reconnect_client sleep
          send w)
        (text_from W M is_connected start_instance reconnect_client sleep send (suc attempt) left)
        (connection_lem W M is_connected start_instance reconnect_client sleep send w) h

  last_sent_lem :
      (r : Result Text M × W)
      (next : W → Outcome W M is_connected start_instance reconnect_client sleep send M)
      → IsOnce 1 0 0
          (on_sent W M is_connected start_instance reconnect_client sleep send 3 0 r next)
  last_sent_lem (ok x, w) next = (omega arith, refl, omega arith, omega arith)
  last_sent_lem (err e, w) next = (omega arith, refl, omega arith, omega arith)

  last_lem :
      (out : Outcome W M is_connected start_instance reconnect_client sleep send (Unit {0}))
      (next : W → Outcome W M is_connected start_instance reconnect_client sleep send M)
      → Costs 0 0 2 16 out.2
      → IsOnce 1 2 16
          (text_attempt W M is_connected start_instance reconnect_client sleep send 3 0 out next)
  last_lem (ok u, w, acts) next h =
      then_lem 0 2 16 1 0 0 acts
        (on_sent W M is_connected start_instance reconnect_client sleep send 3 0 (send w) next) h
        (last_sent_lem (send w) next)
  last_lem (err e, w, acts) next h =
      more-Costs 0 0 2 16 1 2 16 acts (omega arith) (omega arith) (omega arith) h

  last_text_lem :
      (w : W)
      → IsOnce 1 2 16 (text_from W M is_connected start_instance reconnect_client sleep send 3 0 w)
  unfolding text_from
  last_text_lem w =
      last_lem
        (ensure_client_connected_with_retry W M is_connected start_instance reconnect_client sleep
          send w)
        (λ v. (err gave_up, v, []))
        (connection_lem W M is_connected start_instance reconnect_client sleep send w)

  -- However connections and sendings fail, SendText calls SendMessage three times at most; one call
  -- has succeeded when SendText returns no error, and none when it returns one, so that no text is
  -- sent again that was taken. There are at most six reconnections, and at most 51 seconds of sleep,
  -- those in ReconnectClient counted and those in SendMessage left out.
  pub send_text-IsOnce :
      (w : W)
      → IsOnce 3 6 51 (send_text W M is_connected start_instance reconnect_client sleep send w)
  unfolding send_text
  send_text-IsOnce w = text_from_lem 2 4 34 1 1 w (λ v. text_from_lem 1 2 16 2 0 v last_text_lem)
