-- ===== src/Jid/Checking.antt =====
-- The telephone branch of CreateJID, and PrepareNumbersForWhatsAppCheck, of pkg/utils/utils.go.
use webapp_wago.Base.{
  ℕ, ◌≤◌, ◌<◌, ◌≡◌, refl, sym, ◌∙◌, ap, false, not, [], ◌∷◌, ◌++◌, ok, err, arith, ◌==◌, select,
  length, select-All, select_of_All, length-select-le, inl, inr,
}
use webapp_wago.Base.Text.{Text, codes, len, remove, has_prefix}
use webapp_wago.Base.Containment.{
  Lacks, Lacks-of_All, contains-Lacks, split_first_of_Lacks, remove_of_Lacks,
}
use webapp_wago.Base.Number.{is_digit}
use webapp_wago.Jid.{
  invalid_format, group_server, user_server, is_jid, clean, is_group_rune, formatted, with_plus,
  phone_jid, number_jid, create_jid,
}
use webapp_wago.Jid.Canonical.{create_jid-nil, create_jid_of_number}
use webapp_wago.Jid.Phone.{
  AreDigits, len-AreDigits, Shortens, formatted-Shortens, formatted_idempotent, digit_not_sign,
}

length-le-len : (s : Text) → length s ≤ len s
unfolding len
length-le-len [] = omega arith
length-le-len (c ∷ s) = ground (arith, length-le-len s)

digits_lack_at : (s : Text) → AreDigits s → Lacks b'@' s
digits_lack_at s h = Lacks-of_All is_digit b'@' s refl h

-- A number as the service sends it: a plus sign and at most 17 digits, by the national rules.
pub record IsPhone (d : Text) : Type 0 where
  pub digits : AreDigits d
  pub some_digit : 1 ≤ length d
  pub short : length d ≤ 17
  pub normal : formatted d ≡ d

abbrev pub phone : Text → Text
phone d = b'+' ∷ d

with_plus-digits : (s : Text) → AreDigits s → 1 ≤ length s → with_plus s ≡ phone s
unfolding has_prefix codes
with_plus-digits [] h p = absurd (omega arith)
with_plus-digits (c ∷ s) (d, h) p = rw ((digit_not_sign c d).0) refl

formatted-IsPhone : (s : Text) → AreDigits s → 1 ≤ length s → length s ≤ 17 → IsPhone (formatted s)
formatted-IsPhone s h p q =
    let (digits, normal) = formatted_idempotent s h in
    record {
      digits = digits;
      some_digit = (size (formatted-Shortens s h)).0;
      short = (size (formatted-Shortens s h)).1;
      normal = normal;
    }
  where
    size : Shortens s (formatted s) → (1 ≤ length (formatted s)) × (length (formatted s) ≤ 17)
    size (inl e) = rw e (p, q)
    size (inr (_, _, low, high)) = (omega arith, omega arith)

phone_jid_lem :
    (c : ℕ) (s : Text) → phone_jid (c ∷ s) ≡ ok (with_plus (formatted (c ∷ s)) ++ user_server)
unfolding phone_jid
phone_jid_lem c s = refl

phone_jid_nil : phone_jid [] ≡ err invalid_format
unfolding phone_jid
phone_jid_nil = refl

-- What the telephone branch returns for digits.
phone_jid-IsPhone :
    (s j : Text)
    → AreDigits s
    → length s ≤ 17
    → phone_jid s ≡ ok j
    → (j ≡ phone (formatted s) ++ user_server) × IsPhone (formatted s)
phone_jid-IsPhone [] j h p e = cc phone_jid_nil
phone_jid-IsPhone (c ∷ s) j h p e =
    let is_phone = formatted-IsPhone (c ∷ s) h (omega arith) p in
    let plus = with_plus-digits (formatted (c ∷ s)) is_phone.digits is_phone.some_digit in
    (cc (phone_jid_lem c s, plus), is_phone)

select_digits : (s : Text) → AreDigits (select is_digit s)
select_digits s = select-All is_digit s

-- The three branches behind the cleaning, as the sizes decide them.
pub number_jid_group :
    (s : Text) → 18 ≤ len s → number_jid s ≡ ok (select is_group_rune s ++ group_server)
unfolding number_jid
number_jid_group s h = ground arith

number_jid_phone : (s : Text) → len s < 18 → number_jid s ≡ phone_jid (select is_digit s)
unfolding number_jid
number_jid_phone s h = ground arith

pub create_jid_nonempty :
    (n j : Text) → create_jid n ≡ ok j → is_jid n ≡ false → create_jid n ≡ number_jid (clean n)
create_jid_nonempty [] j e h = cc create_jid-nil
create_jid_nonempty (c ∷ n) j e h = create_jid_of_number c n h

-- Where CreateJID accepts a text that names no server and has fewer than 18 bytes once cleaned, it
-- returns a plus sign, between one and 17 digits on which the national rules change nothing more,
-- and the server of users; the digits are those of the text, by the national rules.
pub create_jid-IsPhone :
    (n j : Text)
    → is_jid n ≡ false
    → len (clean n) < 18
    → create_jid n ≡ ok j
    → (j ≡ phone (formatted (select is_digit (clean n))) ++ user_server)
      × IsPhone (formatted (select is_digit (clean n)))
create_jid-IsPhone n j no_server small e =
    phone_jid-IsPhone (select is_digit (clean n)) j (select_digits (clean n))
      (omega (arith, length-select-le is_digit (clean n), length-le-len (clean n)))
      (sym (create_jid_nonempty n j e no_server ∙ number_jid_phone (clean n) small) ∙ e)

kept : (c : ℕ) (d : Text) → is_digit c ≡ false → AreDigits d → select (λ x. not (x == c)) d ≡ d
unfolding remove
kept c d no_digit h = remove_of_Lacks c d (Lacks-of_All is_digit c d no_digit h)

-- A prepared telephone number is cleaned to its digits.
clean-phone : (d : Text) → AreDigits d → clean (phone d) ≡ d
unfolding clean
clean-phone d h =
    rw (kept b' ' d refl h, kept b'+' d refl h, kept b'(' d refl h, kept b')' d refl h)
      (split_first_of_Lacks b':' d (Lacks-of_All is_digit b':' d refl h))

pub phone-Lacks : (d : Text) → AreDigits d → Lacks b'@' (phone d)
phone-Lacks d h = ((λ e. omega arith), digits_lack_at d h)

phone-is_jid : (d : Text) → AreDigits d → is_jid (phone d) ≡ false
unfolding is_jid
phone-is_jid d h = simp (contains-Lacks b'@' d, digits_lack_at d h)

pub create_jid-phone : (d : Text) → IsPhone d → create_jid (phone d) ≡ ok (phone d ++ user_server)
create_jid-phone d v =
    create_jid_of_number b'+' d (phone-is_jid d v.digits)
    ∙ ap number_jid (clean-phone d v.digits)
    ∙ number_jid_phone d (omega (arith, len-AreDigits d v.digits, v.short))
    ∙ ap phone_jid (select_of_All is_digit d v.digits)
    ∙ digits_jid d v
  where
    digits_jid : (d : Text) → IsPhone d → phone_jid d ≡ ok (phone d ++ user_server)
    digits_jid [] v = absurd (omega (arith, v.some_digit))
    digits_jid (c ∷ s) v =
        phone_jid_lem c s
        ∙ ap (λ t. ok (with_plus t ++ user_server)) v.normal
        ∙ ap (λ t. ok (t ++ user_server)) (with_plus-digits (c ∷ s) v.digits v.some_digit)
