-- ===== src/Jid/Tests.antt =====
-- CreateJID and its helpers of pkg/utils/utils.go at concrete inputs, and the theorems there.
use webapp_wago.Base.{◌<◌, ◌≡◌, ◌≢◌, ◌↔◌, refl, false, [], ◌∷◌, none, some, ok, err, select}
use webapp_wago.Base.Text.{Text, codes, len}
use webapp_wago.Base.Number.{is_digit}
use webapp_wago.Jid.{
  empty_number, invalid_format, is_jid, clean, create_jid, JidLibrary, parse_jid, prepare_numbers,
}
use webapp_wago.Jid.Canonical.{create_jid_idempotent, create_jid-eq-err_iff}
use webapp_wago.Jid.Idempotence.{prepare_numbers_idempotent}

jid : Unit {0}
unfolding create_jid prepare_numbers codes
jid = tt

brazil : create_jid (codes "+55 (51) 98888-7777") ≡ ok (codes "+555188887777@s.whatsapp.net")
unfolding jid
brazil = refl

mexico : create_jid (codes "5215551234567") ≡ ok (codes "+52551234567@s.whatsapp.net")
unfolding jid
mexico = refl

argentina : create_jid (codes "5411123456789") ≡ ok (codes "+541123456789@s.whatsapp.net")
unfolding jid
argentina = refl

group : create_jid (codes "120363025246125486") ≡ ok (codes "120363025246125486@g.us")
unfolding jid
group = refl

no_digits : create_jid (codes "abc") ≡ err invalid_format
unfolding jid
no_digits = refl

-- Eighteen letters make the address of a group without a name.
letters : create_jid (codes "abcdefghijklmnopqr") ≡ ok (codes "@g.us")
unfolding jid
letters = refl

prepared :
    prepare_numbers (codes "5511999998888@s.whatsapp.net" ∷ codes "a@g.us" ∷ codes "x" ∷ []) none
    ≡ codes "+5511999998888" ∷ codes "a@g.us" ∷ codes "x" ∷ []
unfolding jid
prepared = refl

-- A library that takes the text itself for the user.
abbrev verbatim : JidLibrary
verbatim = record { Jid = Text; user = λ j. j; parse = λ s. some s }

parsed_text : parse_jid verbatim (codes "5411") ≡ some (codes "+5411@s.whatsapp.net")
unfolding jid parse_jid
parsed_text = refl

create_jid_idempotent_example :
    create_jid (codes "+5411@s.whatsapp.net") ≡ ok (codes "+5411@s.whatsapp.net")
unfolding jid
create_jid_idempotent_example =
    create_jid_idempotent (codes "5411") (codes "+5411@s.whatsapp.net") refl

create_jid-eq-err_iff_example :
    ((create_jid (codes "abc") ≡ err empty_number) ↔ (codes "abc" ≡ []))
    × ((create_jid (codes "abc") ≡ err invalid_format) ↔ (
        (codes "abc" ≢ [])
        × (is_jid (codes "abc") ≡ false)
        × (len (clean (codes "abc")) < 18)
        × (select is_digit (clean (codes "abc")) ≡ [])))
create_jid-eq-err_iff_example = create_jid-eq-err_iff (codes "abc")

abbrev eights : Text
eights = b'8' ∷ b'8' ∷ b'8' ∷ b'8' ∷ b'8' ∷ b'8' ∷ b'8' ∷ b'8' ∷ []

prepare_numbers_idempotent_example :
    prepare_numbers (prepare_numbers (codes "+55 51" ∷ []) none) none
    ≡ prepare_numbers (codes "+55 51" ∷ []) none
prepare_numbers_idempotent_example = prepare_numbers_idempotent (codes "+55 51" ∷ []) none
