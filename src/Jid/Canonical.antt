-- ===== src/Jid/Canonical.antt =====
-- CreateJID of pkg/utils/utils.go yields addresses that it leaves alone.
use webapp_wago.Base.{
  ℕ, ◌≡◌, refl, ◌<◌, ◌↔◌, ◌≢◌, true, false, [], ◌∷◌, ◌++◌, ok, err, arith, select, Bool-cases, inl,
  inr,
}
use webapp_wago.Base.Text.{Text, len}
use webapp_wago.Base.Containment.{contains-append}
use webapp_wago.Jid.{
  group_server, user_server, is_jid, clean, is_group_rune, phone_jid, number_jid, create_jid,
  formatted, with_plus, empty_number, invalid_format,
}
use webapp_wago.Base.Number.{is_digit}

group-is_jid : (s : Text) → is_jid (s ++ group_server) ≡ true
unfolding is_jid
group-is_jid s = ground (arith, contains-append s group_server)

user-is_jid : (s : Text) → is_jid (s ++ user_server) ≡ true
unfolding is_jid
user-is_jid s = ground (arith, contains-append s user_server)

pub phone_jid-is_jid : (s j : Text) → phone_jid s ≡ ok j → is_jid j ≡ true
unfolding phone_jid
phone_jid-is_jid [] j h = cc
phone_jid-is_jid (c ∷ s) j h = ground (arith, user-is_jid (with_plus (formatted (c ∷ s))))

number_jid-is_jid : (s j : Text) → number_jid s ≡ ok j → is_jid j ≡ true
unfolding number_jid
number_jid-is_jid s j h =
    ground (arith, group-is_jid (select is_group_rune s), phone_jid-is_jid (select is_digit s) j)

create_jid-is_jid : (n j : Text) → create_jid n ≡ ok j → is_jid j ≡ true
unfolding create_jid
create_jid-is_jid n j h = ground (arith, number_jid-is_jid (clean n) j)

pub create_jid_of_is_jid : (j : Text) → is_jid j ≡ true → create_jid j ≡ ok j
unfolding create_jid is_jid
create_jid_of_is_jid [] h = cc
create_jid_of_is_jid (c ∷ j) h = rw h refl

-- An address that CreateJID returns is one that it returns unchanged: normalising a number twice
-- is normalising it once.
pub create_jid_idempotent : (n j : Text) → create_jid n ≡ ok j → create_jid j ≡ ok j
create_jid_idempotent n j h = create_jid_of_is_jid j (create_jid-is_jid n j h)

phone_jid-eq-err : (s : Text) → (phone_jid s ≡ err invalid_format) ↔ (s ≡ [])
unfolding phone_jid
phone_jid-eq-err [] = ground arith
phone_jid-eq-err (c ∷ s) = ground arith

phone_jid-ne-empty : (s : Text) → phone_jid s ≢ err empty_number
unfolding phone_jid
phone_jid-ne-empty [] = cc
phone_jid-ne-empty (c ∷ s) = cc

number_jid-eq-err :
    (s : Text) → (number_jid s ≡ err invalid_format) ↔ ((len s < 18) × (select is_digit s ≡ []))
unfolding number_jid
number_jid-eq-err s = ground (arith, phone_jid-eq-err (select is_digit s))

number_jid-ne-empty : (s : Text) → number_jid s ≢ err empty_number
unfolding number_jid
number_jid-ne-empty s = ground (arith, phone_jid-ne-empty (select is_digit s))

pub create_jid-nil : create_jid [] ≡ err empty_number
unfolding create_jid
create_jid-nil = refl

pub create_jid_of_number :
    (c : ℕ) (n : Text) → is_jid (c ∷ n) ≡ false → create_jid (c ∷ n) ≡ number_jid (clean (c ∷ n))
unfolding create_jid
create_jid_of_number c n h = rw h refl

-- CreateJID fails in two cases only: on the empty text, and on a text that names no server, has
-- fewer than 18 bytes once spaces, plus signs, parentheses and all from the first colon on are
-- gone, and then holds no digit.
pub create_jid-eq-err_iff :
    (n : Text)
    → ((create_jid n ≡ err empty_number) ↔ (n ≡ []))
      × ((create_jid n ≡ err invalid_format) ↔ (
          (n ≢ []) × (is_jid n ≡ false) × (len (clean n) < 18) × (select is_digit (clean n) ≡ [])))
create_jid-eq-err_iff [] =
    ((λ _. refl, λ _. create_jid-nil), (λ h. cc create_jid-nil, λ h. absurd (h.0 refl)))
create_jid-eq-err_iff (c ∷ n) = elim (Bool-cases (is_jid (c ∷ n))) [
  | inl e ↦
      let same = create_jid_of_is_jid (c ∷ n) e in
      ((λ h. cc same, λ h. cc), (λ h. cc same, λ h. cc (h.1)))
  | inr e ↦
      let same = create_jid_of_number c n e in
      rw same (
        (λ h. absurd (number_jid-ne-empty (clean (c ∷ n)) h), λ h. cc),
        (
          λ h.
              let (short, none_left) = (number_jid-eq-err (clean (c ∷ n))).0 h in
              ((λ p. cc), e, short, none_left),
          λ h. (number_jid-eq-err (clean (c ∷ n))).1 (h.2, h.3),
        ),
      )
]
