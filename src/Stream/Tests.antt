-- ===== src/Stream/Tests.antt =====
-- Runs of internal/events/wsclient.go at concrete inputs, and the theorems there.
use webapp_wago.Base.{◌≤◌, ◌≡◌, refl, true, false, [], ◌∷◌, Option, none, All, arith}
use webapp_wago.Base.Int.{pos}
use webapp_wago.Json.{Json}
use webapp_wago.Events.{Bytes, Buffer}
use webapp_wago.Stream.{default_config, normalize, Round, run_ws}
use webapp_wago.Stream.Backoff.{nanos, Between, failed, run_ws-Between}

abbrev opaque : Bytes → Option Json
opaque raw = none

abbrev idle : Buffer
idle = record { cap = 2; q = [] }

abbrev lively : Round
lively = record {
  connected = true;
  messages = (5, []) ∷ (6, 1 ∷ []) ∷ [];
  done_after_pump = false;
  done_in_wait = false;
}

-- Two failures, a connection, a failure: the connection starts the waits again.
reset_waits :
    (run_ws opaque
      (record { min_backoff = pos 1; max_backoff = pos 3 })
      (failed ∷ failed ∷ failed ∷ lively ∷ failed ∷ [])
      idle).0
    ≡ pos 1 ∷ pos 2 ∷ pos 3 ∷ pos 1 ∷ pos 2 ∷ []
unfolding run_ws
reset_waits = refl

run_ws-Between_example :
    (1 ≤ nanos (normalize default_config).min_backoff)
    × All
        (Between
          (nanos (normalize default_config).min_backoff)
          (nanos (normalize default_config).max_backoff))
        (run_ws opaque default_config (failed ∷ lively ∷ []) idle).0
unfolding default_config
run_ws-Between_example =
    run_ws-Between opaque default_config (failed ∷ lively ∷ []) idle (omega arith) (omega arith)
