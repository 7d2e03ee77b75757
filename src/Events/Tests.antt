-- ===== src/Events/Tests.antt =====
-- Runs of internal/events/buffer.go at concrete inputs, and the theorems there.
use webapp_wago.Base.{ℕ, ◌≤◌, ◌+◌, ◌≡◌, refl, true, List, [], ◌∷◌, Option, some, map, select}
use webapp_wago.Base.Int.{pos, negsuc}
use webapp_wago.Base.Text.{codes, text_eq}
use webapp_wago.Json.{Json, text, object, field, end, get, pick_string}
use webapp_wago.Events.{
  Bytes, Event, Buffer, new, arrival, extract_type, push, selected, poll, other, handle,
}
use webapp_wago.Events.History.{last, push_all, push_all-last}
use webapp_wago.Events.Polling.{Merge, quota, poll_lem}
use webapp_wago.Events.Delivery.{Call, pushes, polls, clears, count, run, pushed, run_at_most_once}

-- A payload that names itself as its type.
abbrev named : Bytes → Option Json
named raw = some (object (field (codes "type") (text raw) end))

abbrev deliveries : List (ℕ × Bytes)
deliveries = (1, 7 ∷ []) ∷ (2, 8 ∷ []) ∷ (3, 9 ∷ []) ∷ []

abbrev two : Buffer
two = record { cap = 3; q = map (arrival named) ((1, 7 ∷ []) ∷ (2, 8 ∷ []) ∷ (3, 7 ∷ []) ∷ []) }

abbrev calls : List Call
calls = pushes 1 (7 ∷ []) ∷ pushes 2 (8 ∷ []) ∷ polls [] (pos 1) ∷ pushes 3 (9 ∷ []) ∷ clears ∷ []

newest_two : map Event.at (push_all named (new (pos 2)) deliveries).q ≡ 2 ∷ 3 ∷ []
unfolding push_all new push
newest_two = refl

no_capacity : (new (negsuc 4)).cap ≡ 1
unfolding new
no_capacity = refl

typed : extract_type named (7 ∷ []) ≡ 7 ∷ []
unfolding extract_type pick_string get text_eq
typed = refl

poll_by_type : map Event.at (poll (7 ∷ []) (pos 1) two).0 ≡ 1 ∷ []
unfolding poll extract_type text_eq codes get
poll_by_type = refl

refused : (handle named 4 other (some (7 ∷ [])) two).0 ≡ 405
unfolding handle
refused = refl

push_all-last_example :
    (push_all named (new (pos 2)) deliveries).q
    ≡ last (new (pos 2)).cap (map (arrival named) deliveries)
push_all-last_example = push_all-last named (pos 2) deliveries

poll_lem_example :
    ((poll (7 ∷ []) (pos 1) two).0 ≡ quota (pos 1) (select (selected (7 ∷ [])) two.q))
    × Merge (poll (7 ∷ []) (pos 1) two).0 (poll (7 ∷ []) (pos 1) two).1.q two.q
    × ((poll (7 ∷ []) (pos 1) two).1.cap ≡ two.cap)
poll_lem_example = poll_lem (7 ∷ []) (pos 1) two

run_at_most_once_example :
    count (λ e. true) (run named (new (pos 2)) calls).0
      + count (λ e. true) (run named (new (pos 2)) calls).1.q
    ≤ count (λ e. true) (pushed named calls)
run_at_most_once_example = run_at_most_once named (λ e. true) (pos 2) calls
