-- ===== src/Stream.antt =====
-- internal/events/wsclient.go: the WebSocket client that refills the event buffer, and its waits
-- between two attempts. What the network and the context do is a list of rounds.
pub mod Backoff
mod Tests
use webapp_wago.Base.{ℕ, Bool, true, false, List, [], ◌∷◌, Option, if◌then◌else◌, is_empty}
use webapp_wago.Base.Int.{ℤ, pos, negsuc, ltb_int, le_zero, double}
use webapp_wago.Json.{Json}
use webapp_wago.Events.{Bytes, Buffer, push}

-- `time.Second`, in nanoseconds.
abbrev pub second : ℤ
second = pos 1_000_000_000

pub record Config : Type 0 where
  pub min_backoff : ℤ
  pub max_backoff : ℤ

unfoldable pub default_config : Config
default_config = record { min_backoff = second; max_backoff = pos 30_000_000_000 }

-- The defaults at the top of `RunWS`.
unfoldable pub normalize : Config → Config
normalize cfg =
    let low = if le_zero cfg.min_backoff then second else cfg.min_backoff in
    record {
      min_backoff = low;
      max_backoff = if ltb_int cfg.max_backoff low then low else cfg.max_backoff;
    }

-- One attempt: whether the dial succeeds, the messages that are then read with their times, and
-- whether the context is done when the pump returns or before the wait is over.
pub record Round : Type 0 where
  pub connected : Bool
  pub messages : List (ℕ × Bytes)
  pub done_after_pump : Bool
  pub done_in_wait : Bool

-- The read loop of `dialAndPump`: an empty message is skipped.
unfoldable pub pump : (Bytes → Option Json) → List (ℕ × Bytes) → Buffer → Buffer
pump u [] buf = buf
pump u ((now, msg) ∷ msgs) buf = pump u msgs (if is_empty msg then buf else push u now msg buf)

unfoldable pub dial_and_pump : (Bytes → Option Json) → Round → Buffer → Bool × Buffer
unfolding pump
dial_and_pump u r buf = if r.connected then (true, pump u r.messages buf) else (false, buf)

-- `if backoff *= 2; backoff > cfg.MaxBackoff { backoff = cfg.MaxBackoff }`
unfoldable pub grow : Config → ℤ → ℤ
unfolding double
grow cfg backoff =
    let twice = double backoff in if ltb_int cfg.max_backoff twice then cfg.max_backoff else twice

-- How a round ends: by the context after the pump or in the wait, or by the next round.
abbrev pub finish : Round → ℤ → Buffer → List ℤ × Buffer → List ℤ × Buffer
finish r wait buf later =
    if r.done_after_pump
    then ([], buf)
    else if r.done_in_wait
    then (wait ∷ [], buf)
    else (wait ∷ later.0, later.1)

-- The loop of `RunWS`: the waits that it starts, and the buffer. It ends with the rounds, which
-- are those until the context is done.
unfoldable pub rounds : (Bytes → Option Json) → Config → ℤ → List Round → Buffer → List ℤ × Buffer
rounds u cfg backoff [] buf = ([], buf)
rounds u cfg backoff (r ∷ rs) buf =
    let (connected, buf') = dial_and_pump u r buf in
    let wait = if connected then cfg.min_backoff else backoff in
    let later = rounds u cfg (grow cfg wait) rs buf' in finish r wait buf' later

unfoldable pub run_ws : (Bytes → Option Json) → Config → List Round → Buffer → List ℤ × Buffer
unfolding rounds normalize dial_and_pump grow
run_ws u cfg rs buf = let c = normalize cfg in rounds u c c.min_backoff rs buf
