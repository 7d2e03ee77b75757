-- ===== src/Jid.antt =====
-- pkg/utils/utils.go: WhatsApp addresses (JIDs) from what a caller sends as a number.
-- Indexing and slicing happen only on texts of ASCII digits, where bytes and runes agree.
pub mod Canonical
pub mod Phone
pub mod Checking
pub mod Idempotence
mod Tests
use webapp_wago.Base.{
  ℕ, zero, suc, ◌+◌, ◌≡◌, Bool, true, false, not, ◌&&◌, ◌||◌, List, [], ◌∷◌, ◌++◌, map, Option,
  none, some, Result, ok, err, leb, ltb, ◌==◌, if◌then◌else◌, take, drop, select, is_empty,
  value_or,
}
use webapp_wago.Base.Int.{ℤ, pos, ltb_int}
use webapp_wago.Base.Number.{is_digit, atoi}
use webapp_wago.Base.Text.{Text, codes, len, text_eq, has_prefix, contains, remove, split_first}

pub data Error : Type 0 where
  empty_number invalid_format : Error

abbrev pub group_server : Text
group_server = codes "@g.us"

abbrev pub user_server : Text
user_server = codes "@s.whatsapp.net"

abbrev pub broadcast_server : Text
broadcast_server = codes "@broadcast"

-- "Check if already a valid JID format".
unfoldable pub is_jid : Text → Bool
unfolding contains codes
is_jid number =
    contains number group_server
    || contains number user_server
    || contains number (codes "@lid")
    || contains number broadcast_server
    || contains number (codes "@newsletter")

-- "Clean the number".
unfoldable pub clean : Text → Text
unfolding remove split_first
clean number = split_first b':' (remove b')' (remove b'(' (remove b'+' (remove b' ' number))))

abbrev pub is_group_rune : ℕ → Bool
is_group_rune r = is_digit r || r == b'-'

unfoldable pub format_mx_or_ar_number : Text → Text
unfolding len text_eq codes
format_mx_or_ar_number jid =
    if ltb (len jid) 2
    then jid
    else if text_eq (take 2 jid) (codes "52") && len jid == 13
    then take 2 jid ++ drop 4 jid
    else if text_eq (take 2 jid) (codes "54") && len jid == 13
    then take 2 jid ++ drop 3 jid
    else jid

-- The rest of `formatBRNumber`, from the two numbers that it reads.
abbrev pub without_nine : Text → ℤ → Option ℤ → Text
without_nine jid ddd none = jid
without_nine jid ddd (some first) =
    if not (ltb_int first (pos 7)) && not (ltb_int ddd (pos 31))
    then take 4 jid ++ drop 5 jid
    else jid

abbrev pub in_area : Text → Option ℤ → Text
in_area jid none = jid
in_area jid (some ddd) =
    if ltb_int ddd (pos 11) || ltb_int (pos 99) ddd
    then jid
    else if ltb (len jid) 6
    then jid
    else without_nine jid ddd (atoi (take 1 (drop 4 jid)))

unfoldable pub format_br_number : Text → Text
unfolding len has_prefix atoi codes
format_br_number jid =
    if not (len jid == 13) || not (has_prefix jid (codes "55"))
    then jid
    else in_area jid (atoi (take 2 (drop 2 jid)))

-- "Add + prefix for international format".
abbrev pub with_plus : Text → Text
with_plus number = if has_prefix number (codes "+") then number else b'+' ∷ number

-- "Format MX (52) or AR (54) numbers", then "Format BR (55) numbers".
unfoldable pub formatted : Text → Text
unfolding format_mx_or_ar_number format_br_number
formatted digits = format_br_number (format_mx_or_ar_number digits)

-- The end of `CreateJID`, for a number with no more than 17 bytes left.
unfoldable pub phone_jid : Text → Result Error Text
unfolding formatted has_prefix codes
phone_jid digits =
    if is_empty digits then err invalid_format else ok (with_plus (formatted digits) ++ user_server)

-- `CreateJID` behind its first checks.
unfoldable pub number_jid : Text → Result Error Text
unfolding contains len phone_jid codes
number_jid number =
    if contains number (codes "-") && leb 24 (len number)
    then ok (select is_group_rune number ++ group_server)
    else if leb 18 (len number)
    then ok (select is_group_rune number ++ group_server)
    else phone_jid (select is_digit number)

unfoldable pub create_jid : Text → Result Error Text
unfolding is_jid clean number_jid
create_jid number =
    if is_empty number
    then err empty_number
    else if is_jid number
    then ok number
    else number_jid (clean number)

-- `types.JID` and `types.ParseJID` of the library whatsmeow.
pub record JidLibrary : Type 1 where
  pub Jid : Type 0
  pub user : Jid → Text
  pub parse : Text → Option Jid

-- `ParseJID`: `none` is the answer false.
abbrev pub accepted : (lib : JidLibrary) → Text → Option lib.Jid → Option lib.Jid
accepted lib jid none = none
accepted lib jid (some recipient) =
    if is_empty (lib.user recipient) && not (contains jid broadcast_server)
    then none
    else some recipient

abbrev pub parsed : (lib : JidLibrary) → Result Error Text → Option lib.Jid
parsed lib (err e) = none
parsed lib (ok jid) = accepted lib jid (lib.parse jid)

unfoldable pub parse_jid : (lib : JidLibrary) → Text → Option lib.Jid
unfolding create_jid contains codes
parse_jid lib arg = if is_empty arg then none else parsed lib (create_jid arg)

-- One round of the loop of `PrepareNumbersForWhatsAppCheck`.
abbrev pub checked_number : Text → Result Error Text → Text
checked_number number (err e) = number
checked_number number (ok jid) = if contains jid user_server then split_first b'@' jid else jid

unfoldable pub raw_number : Text → Text
unfolding contains split_first codes
raw_number number = if contains number user_server then split_first b'@' number else number

unfoldable pub prepare_number : Text → Text
unfolding raw_number create_jid contains split_first codes
prepare_number number = checked_number number (create_jid (raw_number number))

-- `PrepareNumbersForWhatsAppCheck`, whose error is always nil.
unfoldable pub prepare_numbers : List Text → Option Bool → List Text
unfolding prepare_number
prepare_numbers numbers format_jid =
    if value_or format_jid true then map prepare_number numbers else numbers
