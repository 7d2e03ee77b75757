-- ===== src/Events/Bounds.antt =====
-- The size of the buffer of internal/events/buffer.go.
use webapp_wago.Base.{
  ℕ, ◌+◌, ◌-◌, ◌≤◌, ◌≡◌, is_empty, take, List, [], ◌∷◌, ◌++◌, Option, none, some, arith, length,
  drop, length-append, length-drop, Bool-cases, inl, inr,
}
use webapp_wago.Base.Int.{ℤ, pos, negsuc}
use webapp_wago.Base.Text.{Text}
use webapp_wago.Json.{Json}
use webapp_wago.Events.{
  Bytes, Event, Buffer, new, append, poll_loop, poll_loop_cases, poll, clear, Method, post, handle,
}

-- What every method keeps: at most `cap` events, and a capacity of at least one.
pub record IsBounded (b : Buffer) : Type 0 where
  pub positive : 1 ≤ b.cap
  pub fits : length b.q ≤ b.cap

pub new-IsBounded : (c : ℤ) → IsBounded (new c)
unfolding new
new-IsBounded (pos n) = ground arith
new-IsBounded (negsuc n) = ground arith

pub append-IsBounded : (b : Buffer) (e : Event) → IsBounded b → IsBounded (append b e)
unfolding append
append-IsBounded b e v = ground (
  arith,
  length-append (drop (length b.q - b.cap + 1) b.q) (e ∷ []),
  length-append b.q (e ∷ []),
  length-drop (length b.q - b.cap + 1) b.q,
)

-- The loop splits the queue: no event is lost, and none is made up.
pub length-poll_loop :
    (f : Text) (l : ℤ) (q out rest : List Event)
    → length (poll_loop f l q out rest).0 + length (poll_loop f l q out rest).1
      ≡ length q + length out + length rest
unfolding poll_loop
length-poll_loop f l [] out rest = omega arith
length-poll_loop f l (e ∷ q) out rest =
    poll_loop_cases (λ r. length r.0 + length r.1 ≡ length (e ∷ q) + length out + length rest) f l e
      q out rest
      (λ t. omega (arith, length-poll_loop f l q (out ++ e ∷ []) rest, length-append out (e ∷ [])))
      (λ t. omega (arith, length-poll_loop f l q out (rest ++ e ∷ []), length-append rest (e ∷ [])))

pub poll-IsBounded : (f : Text) (l : ℤ) (b : Buffer) → IsBounded b → IsBounded (poll f l b).1
unfolding poll
poll-IsBounded f l b v = omega (arith, length-poll_loop f l b.q [] [])

pub clear-IsBounded : (b : Buffer) → IsBounded b → IsBounded (clear b).1
unfolding clear
clear-IsBounded b v = omega arith

pub handle-IsBounded :
    (u : Bytes → Option Json) (now : ℕ) (m : Method) (body : Option Bytes) (b : Buffer)
    → IsBounded b
    → IsBounded (handle u now m body b).1
unfolding handle
handle-IsBounded u now post (some body) b v = elim (Bool-cases (is_empty (take 0x80_0000 body))) [
  | inl e ↦ rw e v
  | inr e ↦ rw e (append-IsBounded b _ v)
]
handle-IsBounded u now post none b v = v
handle-IsBounded u now _ body b v = v
