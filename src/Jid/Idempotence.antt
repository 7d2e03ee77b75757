-- ===== src/Jid/Idempotence.antt =====
-- PrepareNumbersForWhatsAppCheck of pkg/utils/utils.go changes nothing in what it has prepared.
use webapp_wago.Base.{
  ◌≡◌, refl, sym, ◌∙◌, ap, Bool, true, false, List, [], ◌∷◌, ◌++◌, map, Option, ok, err, leb,
  select, Bool-cases, inl, inr, ◌⊎◌, Result-cases, ok-injective, select-All, ap₂, leb→le, leb→gt,
  value_or,
}
use mathlib.Core.Bool.{false≢true}
use webapp_wago.Base.Text.{Text, codes, len, contains, split_first}
use webapp_wago.Base.Number.{is_digit}
use webapp_wago.Base.Containment.{
  Lacks, Lacks-of_All, contains-Lacks, contains-append, contains-append_of_Lacks, split_first-Lacks,
  split_first-append,
}
use webapp_wago.Jid.{
  Error, group_server, user_server, is_jid, clean, is_group_rune, formatted, create_jid,
  checked_number, raw_number, prepare_number, prepare_numbers,
}
use webapp_wago.Jid.Canonical.{create_jid_idempotent, create_jid_of_is_jid}
use webapp_wago.Jid.Checking.{
  IsPhone, phone, phone-Lacks, create_jid-phone, create_jid-IsPhone, number_jid_group,
  create_jid_nonempty,
}

prepare_number_lem : (n : Text) → prepare_number n ≡ checked_number n (create_jid (raw_number n))
unfolding prepare_number
prepare_number_lem n = refl

raw_number_user : (n : Text) → contains n user_server ≡ true → raw_number n ≡ split_first b'@' n
unfolding raw_number
raw_number_user n h = rw h refl

raw_number_other : (n : Text) → contains n user_server ≡ false → raw_number n ≡ n
unfolding raw_number
raw_number_other n h = rw h refl

Lacks-user_server : (s : Text) → Lacks b'@' s → contains s user_server ≡ false
unfolding codes
Lacks-user_server s h = contains-Lacks b'@' s _ h

split_user : (s : Text) → Lacks b'@' s → split_first b'@' (s ++ user_server) ≡ s
unfolding codes
split_user s h = split_first-append b'@' s _ h

-- The text that CreateJID is given never names the server of users.
raw_number-no_server : (n : Text) → contains (raw_number n) user_server ≡ false
raw_number-no_server n = elim (Bool-cases (contains n user_server)) [
  | inl e ↦
      rw (raw_number_user n e) (Lacks-user_server (split_first b'@' n) (split_first-Lacks b'@' n))
  | inr e ↦ rw (raw_number_other n e) e
]

prepare_phone : (d : Text) → IsPhone d → prepare_number (phone d) ≡ phone d
prepare_phone d v =
    let lacks = phone-Lacks d v.digits in
    prepare_number_lem (phone d)
    ∙ ap (λ r. checked_number (phone d) (create_jid r))
        (raw_number_other (phone d) (Lacks-user_server (phone d) lacks))
    ∙ ap (checked_number (phone d)) (create_jid-phone d v)
    ∙ rw (contains-append (phone d) user_server) (split_user (phone d) lacks)

group-no_user : (s : Text) → contains (select is_group_rune s ++ group_server) user_server ≡ false
unfolding codes contains
group-no_user s =
    contains-append_of_Lacks b'@' (select is_group_rune s) (codes "@g.us") _
      (Lacks-of_All is_group_rune b'@' (select is_group_rune s) refl (select-All is_group_rune s))

-- What one round yields, by the answer of CreateJID.
module _ (n j : Text) (e : create_jid (raw_number n) ≡ ok j) where
  prepare_other : contains j user_server ≡ false → prepare_number n ≡ j
  prepare_other h = prepare_number_lem n ∙ ap (checked_number n) e ∙ rw h refl

  prepare_user : contains j user_server ≡ true → prepare_number n ≡ split_first b'@' j
  prepare_user h = prepare_number_lem n ∙ ap (checked_number n) e ∙ rw h refl

  prepare_again_other : contains j user_server ≡ false → prepare_number j ≡ j
  prepare_again_other h =
      prepare_number_lem j
      ∙ ap (λ r. checked_number j (create_jid r)) (raw_number_other j h)
      ∙ ap (checked_number j) (create_jid_idempotent (raw_number n) j e)
      ∙ rw h refl

  -- Only the telephone branch names the server of users.
  user-IsPhone :
      contains j user_server ≡ true → (d : Text) × IsPhone d × (split_first b'@' j ≡ phone d)
  user-IsPhone h = elim (Bool-cases (leb 18 (len (clean raw)))) [
    | inl big ↦
        let group =
          sym e
          ∙ create_jid_nonempty raw j e no_server
          ∙ number_jid_group (clean raw) (leb→le 18 (len (clean raw)) big) in
        absurd (
          false≢true (
            sym (group-no_user (clean raw))
            ∙ ap (λ t. contains t user_server) (sym (ok-injective group))
            ∙ h))
    | inr small ↦
        let (shape, v) = create_jid-IsPhone raw j no_server (leb→gt 18 (len (clean raw)) small) e in
        let d = formatted (select is_digit (clean raw)) in
        (d, v, ap (split_first b'@') shape ∙ split_user (phone d) (phone-Lacks d v.digits))
  ]
    where
      raw : Text
      raw = raw_number n

      no_server : is_jid raw ≡ false
      no_server = elim (Bool-cases (is_jid raw)) [
        | inl named ↦
            let same = ok-injective (sym e ∙ create_jid_of_is_jid raw named) in
            absurd (
              false≢true
                (sym (raw_number-no_server n) ∙ ap (λ t. contains t user_server) (sym same) ∙ h))
        | inr unnamed ↦ unnamed
      ]

prepare_number_idempotent : (n : Text) → prepare_number (prepare_number n) ≡ prepare_number n
prepare_number_idempotent n = of (Result-cases (create_jid (raw_number n)))
  where
    of :
        ((j : Text) × (create_jid (raw_number n) ≡ ok j))
          ⊎ ((e : Error) × (create_jid (raw_number n) ≡ err e))
        → prepare_number (prepare_number n) ≡ prepare_number n
    of (inr (e, h)) = ap prepare_number (prepare_number_lem n ∙ ap (checked_number n) h)
    of (inl (j, h)) = elim (Bool-cases (contains j user_server)) [
      | inl user ↦
          let (d, v, split) = user-IsPhone n j h user in
          let same = prepare_user n j h user ∙ split in
          ap prepare_number same ∙ prepare_phone d v ∙ sym same
      | inr other ↦
          let same = prepare_other n j h other in
          ap prepare_number same ∙ prepare_again_other n j h other ∙ sym same
    ]

map_idempotent {ℓ} :
    {A : Type ℓ} (f : A → A)
    → ((a : A) → f (f a) ≡ f a)
    → (xs : List A) → map f (map f xs) ≡ map f xs
map_idempotent f h [] = refl
map_idempotent f h (x ∷ xs) = ap₂ (λ a as'. a ∷ as') (h x) (map_idempotent f h xs)

-- Preparing numbers that are prepared already changes none of them, whether formatting is on, off
-- or left out.
pub prepare_numbers_idempotent :
    (ns : List Text) (f : Option Bool)
    → prepare_numbers (prepare_numbers ns f) f ≡ prepare_numbers ns f
unfolding prepare_numbers
prepare_numbers_idempotent ns f = elim (Bool-cases (value_or f true)) [
  | inl on ↦ rw on (map_idempotent prepare_number prepare_number_idempotent ns)
  | inr off ↦ rw off refl
]
