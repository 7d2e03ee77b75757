-- ===== src/Sending/Retry.antt =====
-- ensureClientConnected, ensureClientConnectedWithRetry and sendTextWithRetry of
-- pkg/sendMessage/service/send_service.go. The sessions of the process, `StartInstance`,
-- `ReconnectClient` and the sending of the message are parameters, on a state `W` that also holds
-- what happens while the code sleeps.
use webapp_wago.Base.{
  ℕ, zero, suc, ◌*◌, Bool, true, false, ◌||◌, List, [], ◌∷◌, ◌++◌, Option, none, some, Result, ok,
  err, if◌then◌else◌,
}
use webapp_wago.Base.Text.{Text, codes, contains, text_eq}

-- What is done on the way; the numbers are seconds.
pub data Act : Type 0 where
  started : Act
  reconnected : Act
  slept : ℕ → Act
  sent_text : Bool → Act

abbrev pub no_session : Text
no_session = codes "no active session found"

abbrev pub disconnected : Text
disconnected = codes "client disconnected"

abbrev pub gave_up : Text
gave_up = codes "failed to send text"

-- `err.Error()` of the two errors that a reconnection may mend.
unfoldable pub is_disconnection : Text → Bool
unfolding text_eq codes
is_disconnection e = text_eq e disconnected || text_eq e no_session

-- The errors of a sending that are tried again.
unfoldable pub mentions_disconnection : Text → Bool
unfolding contains codes
mentions_disconnection e =
    contains e (codes "client disconnected") || contains e (codes "no active session")

module _ (W : Type 0) (M : Type 0) (is_connected : W → Option Bool) (start_instance : W → Bool × W)
    (reconnect_client : W → Bool × W) (sleep : ℕ → W → W) (send : W → Result Text M × W) where
  -- The state and what was done.
  abbrev pub Outcome : Type 0 → Type 0
  Outcome A = Result Text A × W × List Act

  abbrev pub validated : Option Bool → Result Text (Unit {0})
  validated none = err no_session
  validated (some b) = if b then ok tt else err no_session

  abbrev pub on_started : Bool × W → Outcome (Unit {0})
  on_started (false, w) = (err no_session, w, started ∷ [])
  on_started (true, w) = (validated (is_connected (sleep 2 w)), sleep 2 w, started ∷ slept 2 ∷ [])

  abbrev pub on_client : W → Option Bool → Outcome (Unit {0})
  on_client w none = on_started (start_instance w)
  on_client w (some b) = (if b then ok tt else err disconnected, w, [])

  unfoldable pub ensure_client_connected : W → Outcome (Unit {0})
  unfolding codes
  ensure_client_connected w = on_client w (is_connected w)

  -- The reconnection after a failure, with its pause.
  abbrev pub on_reconnect : Bool × W → W × List Act
  on_reconnect (false, w) = (w, reconnected ∷ [])
  on_reconnect (true, w) = (sleep 3 w, reconnected ∷ slept 3 ∷ [])

  abbrev pub and_then : {A : Type 0} → List Act → Outcome A → Outcome A
  and_then acts (r, w, more) = (r, w, acts ++ more)

  abbrev pub pause : ℕ → W × List Act → W × List Act
  pause n (w, acts) = (sleep n w, acts ++ (slept n ∷ []))

  abbrev pub resume : {A : Type 0} → W × List Act → (W → Outcome A) → Outcome A
  resume (w, acts) next = and_then acts (next w)

  abbrev pub connect_attempt :
      ℕ → ℕ → Outcome (Unit {0}) → (W → Outcome (Unit {0})) → Outcome (Unit {0})
  connect_attempt attempt left (ok u, w, acts) next = (ok u, w, acts)
  connect_attempt attempt zero (err e, w, acts) next =
      if is_disconnection e
      then and_then acts (resume (on_reconnect (reconnect_client w)) (λ v. (err e, v, [])))
      else (err e, w, acts)
  connect_attempt attempt (suc left) (err e, w, acts) next =
      if is_disconnection e
      then and_then acts (resume (pause (attempt * 2) (on_reconnect (reconnect_client w))) next)
      else (err e, w, acts)

  -- The attempt `attempt`, with so many to follow at most.
  unfoldable pub connect_from : ℕ → ℕ → W → Outcome (Unit {0})
  unfolding ensure_client_connected is_disconnection
  connect_from attempt zero w =
      connect_attempt attempt zero (ensure_client_connected w) (λ v. (err gave_up, v, []))
  connect_from attempt (suc left) w =
      connect_attempt attempt (suc left) (ensure_client_connected w)
        (connect_from (suc attempt) left)

  -- `ensureClientConnectedWithRetry` with two attempts.
  abbrev pub ensure_client_connected_with_retry : W → Outcome (Unit {0})
  ensure_client_connected_with_retry w = connect_from 1 1 w

  abbrev pub is_ok : {A : Type 0} → Result Text A → Bool
  is_ok (ok x) = true
  is_ok (err e) = false

  abbrev pub on_sent : ℕ → ℕ → Result Text M × W → (W → Outcome M) → Outcome M
  on_sent attempt left (ok m, w) next = (ok m, w, sent_text true ∷ [])
  on_sent attempt zero (err e, w) next = (err e, w, sent_text false ∷ [])
  on_sent attempt (suc left) (err e, w) next =
      if mentions_disconnection e
      then and_then (sent_text false ∷ slept attempt ∷ []) (next (sleep attempt w))
      else (err e, w, sent_text false ∷ [])

  abbrev pub text_attempt : ℕ → ℕ → Outcome (Unit {0}) → (W → Outcome M) → Outcome M
  text_attempt attempt left (ok u, w, acts) next =
      and_then acts (on_sent attempt left (send w) next)
  text_attempt attempt zero (err e, w, acts) next = (err e, w, acts)
  text_attempt attempt (suc left) (err e, w, acts) next = and_then acts (next w)

  unfoldable pub text_from : ℕ → ℕ → W → Outcome M
  unfolding connect_from mentions_disconnection
  text_from attempt zero w =
      text_attempt attempt zero (ensure_client_connected_with_retry w) (λ v. (err gave_up, v, []))
  text_from attempt (suc left) w =
      text_attempt attempt (suc left) (ensure_client_connected_with_retry w)
        (text_from (suc attempt) left)

  -- `SendText`, three attempts.
  unfoldable pub send_text : W → Outcome M
  unfolding text_from
  send_text w = text_from 1 2 w
