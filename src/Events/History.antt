-- ===== src/Events/History.antt =====
-- What the buffer of internal/events/buffer.go holds after any number of deliveries.
use webapp_wago.Base.{
  ℕ, ◌+◌, ◌-◌, ◌≡◌, refl, sym, ap, ◌∙◌, List, [], ◌∷◌, ◌++◌, arith, length, drop, length-append,
  length-drop, drop-append, drop-nil, map, Option, drop-drop, Bool-cases, inl, inr, leb, leb→le,
  leb→gt,
}
use mathlib.Core.List.{append_assoc, append-nil}
use webapp_wago.Json.{Json}
use webapp_wago.Base.Int.{ℤ}
use webapp_wago.Events.{at_least_one, Bytes, arrival, push, Event, Buffer, new, append}
use webapp_wago.Events.Bounds.{IsBounded, new-IsBounded, append-IsBounded}

-- The last n elements.
abbrev pub last {ℓ} : {A : Type ℓ} → ℕ → List A → List A
last n xs = drop (length xs - n) xs

pub append_all : Buffer → List Event → Buffer
append_all b [] = b
append_all b (e ∷ es) = append_all (append b e) es

unfoldable pub push_all : (Bytes → Option Json) → Buffer → List (ℕ × Bytes) → Buffer
push_all u b [] = b
push_all u b ((now, raw) ∷ ds) = push_all u (push u now raw b) ds

new_q : (c : ℤ) → (new c).q ≡ last (new c).cap []
unfolding new
new_q c = sym (drop-nil (0 - at_least_one c))

-- One step: the new queue is the newest `cap` of the old queue and the new event.
append-last : (b : Buffer) (e : Event) → IsBounded b → (append b e).q ≡ last b.cap (b.q ++ e ∷ [])
unfolding append
append-last b e v = elim (Bool-cases (leb b.cap (length b.q))) [
  | inl full ↦
      let full_le = leb→le b.cap (length b.q) full in
      rw full (
        sym (drop-append (length b.q - b.cap + 1) b.q (e ∷ []) (omega (arith, v.positive)))
        ∙ ap (λ n. drop n (b.q ++ e ∷ [])) (omega (arith, length-append b.q (e ∷ []))))
  | inr free ↦
      let free_lt = leb→gt b.cap (length b.q) free in
      rw free (
        ap (λ n. drop n (b.q ++ e ∷ []))
          (let z : 0 ≡ length (b.q ++ e ∷ []) - b.cap = omega (arith, length-append b.q (e ∷ [])) in
            z))
]

-- Keeping the newest n of the newest n and one more is keeping the newest n of all.
last-append {ℓ} :
    {A : Type ℓ} (n : ℕ) (xs : List A) (x : A)
    → last n (last n xs ++ x ∷ []) ≡ last n (xs ++ x ∷ [])
last-append n xs x =
    let cut = length xs - n in
    let glued = drop-append cut xs (x ∷ []) (omega arith) in
    rw (← glued) (
      drop-drop _ cut (xs ++ x ∷ [])
      ∙ ap (λ k. drop k (xs ++ x ∷ []))
          (omega (arith, length-append xs (x ∷ []), length-drop cut (xs ++ x ∷ []))))

append_all-last :
    (b : Buffer) (xs es : List Event)
    → IsBounded b
    → b.q ≡ last b.cap xs
    → (append_all b es).q ≡ last b.cap (xs ++ es)
unfolding append_all
append_all-last b xs [] v h = rw append-nil h
append_all-last b xs (e ∷ es) v h =
    append_all-last (append b e) (xs ++ e ∷ []) es (append-IsBounded b e v) (
      unfold append in
      append-last b e v ∙ ap (λ q. last b.cap (q ++ e ∷ [])) h ∙ last-append b.cap xs e)
    ∙ (unfold append in ap (last b.cap) (append_assoc xs (e ∷ []) es))

push_all-append_all :
    (u : Bytes → Option Json) (b : Buffer) (ds : List (ℕ × Bytes))
    → push_all u b ds ≡ append_all b (map (arrival u) ds)
unfolding push_all push append_all
push_all-append_all u b [] = refl
push_all-append_all u b ((now, raw) ∷ ds) =
    push_all-append_all u (append b (arrival u (now, raw))) ds

-- After any deliveries the buffer holds exactly the newest ones, as many as the capacity admits,
-- oldest first, each with the type that its payload names.
pub push_all-last :
    (u : Bytes → Option Json) (c : ℤ) (ds : List (ℕ × Bytes))
    → (push_all u (new c) ds).q ≡ last (new c).cap (map (arrival u) ds)
push_all-last u c ds =
    ap (λ b. Buffer.q b) (push_all-append_all u (new c) ds)
    ∙ append_all-last (new c) [] (map (arrival u) ds) (new-IsBounded c) (new_q c)
