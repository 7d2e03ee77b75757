-- ===== src/Events.antt =====
-- internal/events/buffer.go and webhook.go: the bounded buffer of inbound events, and the HTTP
-- handler that fills it. Each method holds the mutex from its first read to its last write, so the
-- calls of several goroutines are a sequence of these steps. The clock is an argument of `push`.
pub mod Bounds
pub mod Polling
pub mod History
pub mod Delivery
mod Tests
use webapp_wago.Base.{
  ℕ, suc, ◌+◌, ◌-◌, ◌≡◌, Bool, true, false, not, ◌&&◌, ◌||◌, List, [], ◌∷◌, ◌++◌, Option, none,
  some, ltb, leb, if◌then◌else◌, length, take, drop, is_empty, Bool-cases, inl, inr,
}
use webapp_wago.Base.Int.{ℤ, pos, negsuc, ltb_int, le_zero}
use webapp_wago.Base.Text.{Text, codes, text_eq}
use webapp_wago.Json.{Json, as_map, pick_string}

abbrev pub Bytes : Type 0
Bytes = List ℕ

pub record Event : Type 0 where
  pub type : Text
  pub at : ℕ
  pub raw : Bytes

-- `q` is oldest first; `mu` is the atomicity of the steps.
pub record Buffer : Type 0 where
  pub cap : ℕ
  pub q : List Event

-- `if capacity < 1 { capacity = 1 }`
abbrev pub at_least_one : ℤ → ℕ
at_least_one (pos c) = if ltb c 1 then 1 else c
at_least_one (negsuc c) = 1

unfoldable pub new : ℤ → Buffer
new capacity = record { cap = at_least_one capacity; q = [] }

-- `json.Unmarshal` of the standard library, up to the syntax of JSON text.
module _ (unmarshal : Bytes → Option Json) where
  unfoldable pub extract_type : Bytes → Text
  unfolding pick_string codes
  extract_type raw = elim (as_map (unmarshal raw)) [
    | none ↦ []
    | some probe ↦
        pick_string probe (codes "type" ∷ codes "event" ∷ codes "Event" ∷ codes "eventType" ∷ [])
  ]

-- The part of `Push` under the lock.
unfoldable pub append : Buffer → Event → Buffer
append b e =
    let kept = if leb b.cap (length b.q) then drop (length b.q - b.cap + 1) b.q else b.q in
    record b { q = kept ++ e ∷ [] }

-- The event that `Push` makes of a delivery.
abbrev pub arrival : (Bytes → Option Json) → ℕ × Bytes → Event
arrival unmarshal (now, raw) = record { type = extract_type unmarshal raw; at = now; raw = raw }

unfoldable pub push : (Bytes → Option Json) → ℕ → Bytes → Buffer → Buffer
unfolding append
push unmarshal now raw b = append b (arrival unmarshal (now, raw))

abbrev pub selected : Text → Event → Bool
selected filter e = is_empty filter || text_eq e.type filter

abbrev pub has_room : ℤ → ℕ → Bool
has_room limit n = le_zero limit || ltb_int (pos n) limit

abbrev pub takes : Text → ℤ → List Event → Event → Bool
takes filter limit out e = selected filter e && has_room limit (length out)

-- The loop of `Poll`: what is taken and what stays.
unfoldable pub poll_loop : Text → ℤ → List Event → List Event → List Event → List Event × List Event
poll_loop filter limit [] out rest = (out, rest)
poll_loop filter limit (e ∷ q) out rest =
    let taken = takes filter limit out e in
    poll_loop filter limit q (if taken then out ++ e ∷ [] else out)
      (if taken then rest else rest ++ e ∷ [])

unfoldable pub poll : Text → ℤ → Buffer → List Event × Buffer
unfolding poll_loop
poll filter limit b =
    let (out, rest) = poll_loop filter limit b.q [] [] in (out, record b { q = rest })

unfoldable pub clear : Buffer → ℕ × Buffer
clear b = (length b.q, record b { q = [] })

pub len : Buffer → ℕ
len b = length b.q

-- What `Handler` answers: the status code, and the buffer behind it.
pub data Method : Type 0 where
  get post other : Method

-- `none` is a body that cannot be read; 8 << 20 bytes are read of a longer one.
unfoldable pub handle : (Bytes → Option Json) → ℕ → Method → Option Bytes → Buffer → ℕ × Buffer
unfolding push
handle unmarshal now post (some body) b =
    let read = take 0x80_0000 body in
    if is_empty read then (400, b) else (200, push unmarshal now read b)
handle unmarshal now post none b = (400, b)
handle unmarshal now _ body b = (405, b)

-- One round of the loop, on both branches.
pub poll_loop_cases {ℓ} :
    (P : List Event × List Event → Type ℓ) (f : Text) (l : ℤ) (e : Event) (q out rest : List Event)
    → (takes f l out e ≡ true → P (poll_loop f l q (out ++ e ∷ []) rest))
    → (takes f l out e ≡ false → P (poll_loop f l q out (rest ++ e ∷ [])))
    → P (poll_loop f l (e ∷ q) out rest)
unfolding poll_loop
poll_loop_cases P f l e q out rest yes_case no_case = elim (Bool-cases (takes f l out e)) [
  | inl t ↦ rw t (yes_case t)
  | inr t ↦ rw t (no_case t)
]
