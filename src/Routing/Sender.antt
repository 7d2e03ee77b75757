-- ===== src/Routing/Sender.antt =====
-- cleanSenderID of pkg/whatsmeow/service/whatsmeow.go: an address without the part for the device.
use mathlib.Core.List.{append_assoc}
use webapp_wago.Base.{
  ◌≤◌, ◌⊎◌, inl, inr, Option-cases, All-append, length-append, ℕ, suc, ◌+◌, true, false, [], ◌∷◌,
  ◌++◌, take, drop, length, Option, none, some, ltb, ◌==◌, if◌then◌else◌, ◌≡◌, ◌≢◌, refl, ap, ap₂,
  ◌∙◌, arith,
}
use webapp_wago.Base.Text.{Text}
use webapp_wago.Base.Containment.{Lacks}

-- `strings.Index` of one rune, counted in runes.
abbrev pub one_later : Option ℕ → Option ℕ
one_later none = none
one_later (some n) = some (suc n)

unfoldable pub index : ℕ → Text → Option ℕ
index c [] = none
index c (d ∷ s) = let rest = index c s in if d == c then some 0 else one_later rest

abbrev pub cut : Text → Option ℕ → Option ℕ → Text
cut s none a = s
cut s (some c) none = s
cut s (some c) (some a) = if ltb c a then take c s ++ drop a s else s

unfoldable pub clean_sender_id : Text → Text
unfolding index
clean_sender_id s = cut s (index b':' s) (index b'@' s)

index-append : (c : ℕ) (s t : Text) → Lacks c s → index c (s ++ c ∷ t) ≡ some (length s)
unfolding index
index-append c [] t h = ground arith
index-append c (d ∷ s) t (ne, h) =
    let f : (d == c) ≡ false = ground arith in rw (f, index-append c s t h) refl

take-append : (s t : Text) → take (length s) (s ++ t) ≡ s
take-append [] t = refl
take-append (c ∷ s) t = ap (λ r. c ∷ r) (take-append s t)

drop_append : (s t : Text) → drop (length s) (s ++ t) ≡ t
drop_append [] t = refl
drop_append (c ∷ s) t = drop_append s t

-- A rune that a beginning lacks comes after it, if at all.
index_beyond :
    (c : ℕ) (s t : Text)
    → Lacks c s
    → (index c (s ++ t) ≡ none) ⊎ ((n : ℕ) × (index c (s ++ t) ≡ some n) × (length s ≤ n))
unfolding index
index_beyond c [] t h = elim (Option-cases (index c t)) [
  | inl e ↦ inl e
  | inr (n, e) ↦ inr (n, e, omega arith)
]
index_beyond c (d ∷ s) t (ne, h) = elim (index_beyond c s t h) [
  | inl e ↦ (let f : (d == c) ≡ false = ground arith in inl (rw (f, e) refl))
  | inr (n, e, le) ↦
      (let f : (d == c) ≡ false = ground arith in inr (suc n, rw (f, e) refl, omega arith))
]

module _ (user : Text) (no_colon : Lacks b':' user) (no_at : Lacks b'@' user) where
  plain_address : (server : Text) → clean_sender_id (user ++ b'@' ∷ server) ≡ user ++ b'@' ∷ server
  unfolding clean_sender_id
  plain_address server =
      rw (index-append b'@' user server no_at)
        (elim (index_beyond b':' user (b'@' ∷ server) no_colon) [
          | inl e ↦ rw e refl
          | inr (n, e, le) ↦ (let f : ltb n (length user) ≡ false = ground arith in rw (e, f) refl)
        ])

  -- An address with a device loses the part from the colon to the at sign, and one without a
  -- device stays as it is. The user has neither a colon nor an at sign, the device no at sign.
  pub clean_sender_id-device :
      (device server : Text)
      → Lacks b'@' device
      → (clean_sender_id (user ++ b':' ∷ device ++ b'@' ∷ server) ≡ user ++ b'@' ∷ server)
        × (clean_sender_id (user ++ b'@' ∷ server) ≡ user ++ b'@' ∷ server)
  unfolding clean_sender_id
  clean_sender_id-device device server no_at' =
      let s : Text = user ++ b':' ∷ device ++ b'@' ∷ server in
      let whole : Text = user ++ b':' ∷ device in
      let e : s ≡ user ++ (b':' ∷ (device ++ b'@' ∷ server)) =
        append_assoc user (b':' ∷ device) (b'@' ∷ server) in
      let at : index b'@' s ≡ some (length whole) = index-append b'@' whole server (
        All-append (λ c. c ≢ b'@') user (b':' ∷ device) no_at
          ((λ k. absurd (omega arith)), no_at')) in
      let colon : index b':' s ≡ some (length user) =
        ap (index b':') e ∙ index-append b':' user (device ++ b'@' ∷ server) no_colon in
      let lt : ltb (length user) (length whole) ≡ true =
        (let l : length whole ≡ length user + suc (length device) =
            length-append user (b':' ∷ device) in
          ground arith) in
      (
        rw (colon, at, lt)
            (ap₂ (λ (a b : Text). a ++ b)
              (ap (take (length user)) e ∙ take-append user (b':' ∷ (device ++ b'@' ∷ server)))
              (drop_append whole (b'@' ∷ server))),
        plain_address server,
      )
