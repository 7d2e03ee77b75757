-- ===== src/Stream/Backoff.antt =====
-- The waits of internal/events/wsclient.go stay between the two bounds of the configuration.
use webapp_wago.Base.{
  ℕ, zero, suc, ◌*◌, ◌^◌, ◌≤◌, ◌<◌, ◌≡◌, refl, sym, subst, Bool, true, false, List, [], ◌∷◌, Option,
  All, replicate, min, ap, ◌∙◌, arith, pow-suc, if◌then◌else◌, ltb, Bool-cases, inl, inr,
}
use webapp_wago.Base.Int.{ℤ, pos, negsuc, ltb_int, double}
use webapp_wago.Json.{Json}
use webapp_wago.Events.{Bytes, Buffer}
use webapp_wago.Stream.{Config, normalize, Round, dial_and_pump, grow, finish, rounds, run_ws}

-- A wait of at least `lo` and at most `hi` nanoseconds.
abbrev pub Between : ℕ → ℕ → ℤ → Type 0
Between lo hi (pos d) = (lo ≤ d) × (d ≤ hi)
Between lo hi (negsuc d) = ⊥

double_pos : (d : ℕ) → d < 2 ^ 62 → double (pos d) ≡ pos (2 * d)
unfolding double
double_pos d h = ground arith

grow-Between :
    (lo hi : ℕ) (d : ℤ)
    → 1 ≤ lo
    → hi < 2 ^ 62
    → lo ≤ hi
    → Between lo hi d
    → Between lo hi (grow (record { min_backoff = pos lo; max_backoff = pos hi }) d)
unfolding grow
grow-Between lo hi (pos d) one small order (low, high) =
    rw (double_pos d (omega arith)) (ground arith)
grow-Between lo hi (negsuc d) one small order h = absurd h

finish-Between :
    (lo hi : ℕ) (r : Round) (w : ℤ) (buf : Buffer) (later : List ℤ × Buffer)
    → Between lo hi w
    → All (Between lo hi) later.0
    → All (Between lo hi) (finish r w buf later).0
finish-Between lo hi r w buf later hw hl = ground arith

-- The n waits from the k-th on: `lo` doubled k times, cut off at `hi`, and so on.
abbrev pub doubling : ℕ → ℕ → ℕ → ℕ → List ℤ
doubling lo hi k zero = []
doubling lo hi k (suc n) = pos (min (lo * 2 ^ k) hi) ∷ doubling lo hi (suc k) n

-- A round in which the dial fails and the context goes on.
abbrev pub failed : Round
failed = record { connected = false; messages = []; done_after_pump = false; done_in_wait = false }

module _ (u : Bytes → Option Json) (lo hi : ℕ) (one : 1 ≤ lo) (small : hi < 2 ^ 62)
    (order : lo ≤ hi) where
  abbrev bounds : Config
  bounds = record { min_backoff = pos lo; max_backoff = pos hi }

  start-Between :
      (connected : Bool) (d : ℤ) → Between lo hi d → Between lo hi (if connected then pos lo else d)
  start-Between true d h = (omega arith, order)
  start-Between false d h = h

  rounds-Between :
      (d : ℤ) (rs : List Round) (buf : Buffer)
      → Between lo hi d
      → All (Between lo hi) (rounds u bounds d rs buf).0
  unfolding rounds
  rounds-Between d [] buf h = tt
  rounds-Between d (r ∷ rs) buf h =
      let wait = if (dial_and_pump u r buf).0 then pos lo else d in
      let here = start-Between (dial_and_pump u r buf).0 d h in
      let later =
        rounds-Between (grow bounds wait) rs (dial_and_pump u r buf).1
          (grow-Between lo hi wait one small order here) in
      finish-Between lo hi r wait _ _ here later

  min_twice : (k : ℕ) → min (2 * min (lo * 2 ^ k) hi) hi ≡ min (lo * 2 ^ suc k) hi
  min_twice k = rw (pow-suc 2 k) (omega arith)

  grow-min : (d : ℕ) → d ≤ hi → grow bounds (pos d) ≡ pos (min (2 * d) hi)
  unfolding grow
  grow-min d h = rw (double_pos d (omega arith)) (ground arith)

  rounds-doubling :
      (k n : ℕ) (buf : Buffer)
      → (rounds u bounds (pos (min (lo * 2 ^ k) hi)) (replicate n failed) buf).0
        ≡ doubling lo hi k n
  unfolding rounds dial_and_pump
  rounds-doubling k zero buf = refl
  rounds-doubling k (suc n) buf = ap (◌∷◌ (pos (min (lo * 2 ^ k) hi))) (
      rw (grow-min (min (lo * 2 ^ k) hi) (omega arith), min_twice k)
        (rounds-doubling (suc k) n buf))

-- The nanoseconds of a duration that is not negative.
abbrev pub nanos : ℤ → ℕ
nanos (pos n) = n
nanos (negsuc n) = 0

-- Two bounds as the loop needs them.
abbrev AreBounds : Config → Type 0
AreBounds c =
    (lo : ℕ) × (hi : ℕ) × (c ≡ record { min_backoff = pos lo; max_backoff = pos hi })
    × (1 ≤ lo)
    × (hi < 2 ^ 62)
    × (lo ≤ hi)

-- The defaults leave a minimum of at least one and a maximum that is no less.
raised-AreBounds :
    (lo : ℕ) (high : ℤ)
    → 1 ≤ lo
    → lo < 2 ^ 62
    → nanos high < 2 ^ 62
    → AreBounds (record {
      min_backoff = pos lo;
      max_backoff = if ltb_int high (pos lo) then pos lo else high;
    })
raised-AreBounds lo (pos hi) one p q = elim (Bool-cases (ltb hi lo)) [
  | inl e ↦ (lo, lo, rw e refl, one, p, omega arith)
  | inr e ↦ (lo, hi, rw e refl, one, q, ground arith)
]
raised-AreBounds lo (negsuc hi) one p q = (lo, lo, refl, one, p, omega arith)

normalize-AreBounds :
    (low high : ℤ)
    → nanos low < 2 ^ 62
    → nanos high < 2 ^ 62
    → AreBounds (normalize (record { min_backoff = low; max_backoff = high }))
unfolding normalize
normalize-AreBounds (pos zero) high p q =
    raised-AreBounds 1_000_000_000 high (omega arith) (omega arith) q
normalize-AreBounds (pos (suc lo)) high p q = raised-AreBounds (suc lo) high (omega arith) p q
normalize-AreBounds (negsuc lo) high p q =
    raised-AreBounds 1_000_000_000 high (omega arith) (omega arith) q

rounds-Between_of_AreBounds :
    (u : Bytes → Option Json) (c : Config) (rs : List Round) (buf : Buffer)
    → AreBounds c
    → (1 ≤ nanos c.min_backoff)
      × All
          (Between (nanos c.min_backoff) (nanos c.max_backoff))
          (rounds u c c.min_backoff rs buf).0
rounds-Between_of_AreBounds u c rs buf (lo, hi, same, one, small, order) =
    subst
      (λ c.
        (1 ≤ nanos c.min_backoff)
        × All (Between (nanos c.min_backoff) (nanos c.max_backoff))
            (rounds u c c.min_backoff rs buf).0)
      (sym same) (one, rounds-Between u lo hi one small order (pos lo) rs buf (omega arith, order))

-- Where both bounds of the configuration are below 2 ^ 62 ns (146 years), so that doubling does
-- not wrap round, every wait between two attempts lies between the bounds that the defaults leave,
-- and is positive.
pub run_ws-Between :
    (u : Bytes → Option Json) (cfg : Config) (rs : List Round) (buf : Buffer)
    → nanos cfg.min_backoff < 2 ^ 62
    → nanos cfg.max_backoff < 2 ^ 62
    → (1 ≤ nanos (normalize cfg).min_backoff)
      × All
          (Between (nanos (normalize cfg).min_backoff) (nanos (normalize cfg).max_backoff))
          (run_ws u cfg rs buf).0
unfolding run_ws
run_ws-Between u cfg rs buf p q =
    rounds-Between_of_AreBounds u (normalize cfg) rs buf
      (normalize-AreBounds cfg.min_backoff cfg.max_backoff p q)

normalize_ordered :
    (lo hi : ℕ)
    → 1 ≤ lo
    → lo ≤ hi
    → normalize (record { min_backoff = pos lo; max_backoff = pos hi })
      ≡ record { min_backoff = pos lo; max_backoff = pos hi }
unfolding normalize
normalize_ordered zero hi one order = absurd (omega arith)
normalize_ordered (suc lo) hi one order = ground arith

first_wait : (lo hi : ℕ) → lo ≤ hi → min (lo * 2 ^ 0) hi ≡ lo
first_wait lo hi order = omega arith

-- With bounds 1 ≤ lo ≤ hi < 2 ^ 62, n attempts that fail to dial wait lo, 2 lo, 4 lo and so on,
-- each wait cut off at hi.
pub run_ws-doubling :
    (u : Bytes → Option Json) (lo hi n : ℕ) (buf : Buffer)
    → 1 ≤ lo
    → hi < 2 ^ 62
    → lo ≤ hi
    → (run_ws u (record { min_backoff = pos lo; max_backoff = pos hi }) (replicate n failed) buf).0
      ≡ doubling lo hi 0 n
unfolding run_ws
run_ws-doubling u lo hi n buf one small order =
    ap (λ c. (rounds u c (Config.min_backoff c) (replicate n failed) buf).0)
      (normalize_ordered lo hi one order)
    ∙ (rw (first_wait lo hi order) at (rounds-doubling u lo hi one small order 0 n buf))
