-- ===== src/Events/Delivery.antt =====
-- A whole run of the buffer of internal/events/buffer.go: no delivery reaches the client twice.
use webapp_wago.Base.{
  ℕ, suc, ◌+◌, ◌-◌, ◌≤◌, ◌≡◌, refl, Bool, List, [], ◌∷◌, ◌++◌, Option, arith, length, drop, select,
  length-append, select-append, Bool-cases, inl, inr, leb, zero,
}
use webapp_wago.Base.Int.{ℤ}
use webapp_wago.Base.Text.{Text}
use webapp_wago.Json.{Json}
use webapp_wago.Events.{Bytes, Event, Buffer, new, append, arrival, push, poll, clear}
use webapp_wago.Events.Bounds.{
  IsBounded, new-IsBounded, append-IsBounded, poll-IsBounded, clear-IsBounded,
}
use webapp_wago.Events.Polling.{Merge, done, left, right, poll_lem}

-- The calls of a run, in the order in which they take the lock.
pub data Call : Type 0 where
  pushes : ℕ → Bytes → Call
  polls : Text → ℤ → Call
  clears : Call

-- How many events of a list pass a test.
abbrev pub count : (Event → Bool) → List Event → ℕ
count p es = length (select p es)

count-append :
    (p : Event → Bool) (xs ys : List Event) → count p (xs ++ ys) ≡ count p xs + count p ys
count-append p xs ys = rw (select-append p xs ys) (length-append (select p xs) (select p ys))

count-drop-le : (p : Event → Bool) (n : ℕ) (xs : List Event) → count p (drop n xs) ≤ count p xs
count-drop-le p zero xs = omega arith
count-drop-le p (suc n) [] = omega arith
count-drop-le p (suc n) (x ∷ xs) = ground (arith, count-drop-le p n xs)

count-Merge :
    (p : Event → Bool) {xs ys zs : List Event}
    → Merge xs ys zs
    → count p xs + count p ys ≡ count p zs
count-Merge p done = refl
count-Merge p (left {x} m) = ground (arith, count-Merge p m)
count-Merge p (right {y} m) = ground (arith, count-Merge p m)

count-append-le :
    (p : Event → Bool) (b : Buffer) (e : Event)
    → count p (append b e).q ≤ count p b.q + count p (e ∷ [])
unfolding append
count-append-le p b e = elim (Bool-cases (leb b.cap (length b.q))) [
  | inl full ↦ rw full (
      omega (
        arith,
        count-append p (drop (length b.q - b.cap + 1) b.q) (e ∷ []),
        count-drop-le p (length b.q - b.cap + 1) b.q,
      ))
  | inr free ↦ rw free (omega (arith, count-append p b.q (e ∷ [])))
]

module _ (u : Bytes → Option Json) where
  -- What one call hands to the client, and the buffer behind it.
  pub step : Buffer → Call → List Event × Buffer
  step b (pushes now raw) = ([], push u now raw b)
  step b (polls f l) = poll f l b
  step b clears = ([], (clear b).1)

  -- All that a run hands to the client, in order, and the buffer at its end.
  pub run : Buffer → List Call → List Event × Buffer
  run b [] = ([], b)
  run b (c ∷ cs) = let now = step b c in let later = run now.1 cs in (now.0 ++ later.0, later.1)

  -- The events that a run pushes, in order.
  pub pushed : List Call → List Event
  pushed [] = []
  pushed (pushes now raw ∷ cs) = arrival u (now, raw) ∷ pushed cs
  pushed (_ ∷ cs) = pushed cs

  run-count :
      (p : Event → Bool) (b : Buffer) (cs : List Call)
      → count p (run b cs).0 + count p (run b cs).1.q ≤ count p b.q + count p (pushed cs)
  unfolding run step pushed push clear
  run-count p b [] = omega arith
  run-count p b (pushes now raw ∷ cs) = omega (
    arith,
    run-count p (append b (arrival u (now, raw))) cs,
    count-append-le p b (arrival u (now, raw)),
    count-append p (arrival u (now, raw) ∷ []) (pushed cs),
  )
  run-count p b (polls f l ∷ cs) = omega (
    arith,
    run-count p (poll f l b).1 cs,
    count-append p (poll f l b).0 (run (poll f l b).1 cs).0,
    count-Merge p (poll_lem f l b).1,
  )
  run-count p b (clears ∷ cs) = omega (arith, run-count p (record b { q = [] }) cs)

-- Over any run of a new buffer, the events of any kind that reach the client and those that are
-- still held are together no more than those of that kind that were pushed.
pub run_at_most_once :
    (u : Bytes → Option Json) (p : Event → Bool) (c : ℤ) (cs : List Call)
    → count p (run u (new c) cs).0 + count p (run u (new c) cs).1.q ≤ count p (pushed u cs)
unfolding new
run_at_most_once u p c cs = omega (arith, run-count u p (new c) cs)

step-IsBounded :
    (u : Bytes → Option Json) (b : Buffer) (c : Call) → IsBounded b → IsBounded (step u b c).1
unfolding step
step-IsBounded u b (pushes now raw) v = unfold push in append-IsBounded b (arrival u (now, raw)) v
step-IsBounded u b (polls f l) v = poll-IsBounded f l b v
step-IsBounded u b clears v = clear-IsBounded b v

run_from-IsBounded :
    (u : Bytes → Option Json) (b : Buffer) (cs : List Call) → IsBounded b → IsBounded (run u b cs).1
unfolding run
run_from-IsBounded u b [] v = v
run_from-IsBounded u b (c ∷ cs) v = run_from-IsBounded u (step u b c).1 cs (step-IsBounded u b c v)

-- After any run of pushes, polls and clears, a buffer made with any capacity, also one that is not
-- positive, has a capacity of at least one and holds no more events than that.
pub run-IsBounded :
    (u : Bytes → Option Json) (c : ℤ) (cs : List Call) → IsBounded (run u (new c) cs).1
run-IsBounded u c cs = run_from-IsBounded u (new c) cs (new-IsBounded c)
