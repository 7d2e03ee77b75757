-- ===== src/Sending/Tests.antt =====
-- The sending of pkg/sendMessage/service at concrete messages, and the theorems about it.
use webapp_wago.Base.{
  ℕ, ◌+◌, Bool, true, false, List, [], ◌∷◌, Option, none, some, Result, ok, err, ◌↔◌, ◌≡◌, ◌⊎◌,
  refl, if◌then◌else◌, ◌==◌,
}
use webapp_wago.Base.Text.{Text, codes, text_eq, contains}
use webapp_wago.Jid.{JidLibrary, create_jid, parse_jid, raw_number, prepare_numbers}
use webapp_wago.Webhook.Hosts.{dotted, Resolver}
use webapp_wago.Webhook.Service.{Url}
use webapp_wago.Sending.Media.{
  is_blocked_ip, MediaError, Media, fetch_failed, validate_media_url, Reply, redirect, status,
  follow, download_media,
}
use webapp_wago.Sending.Safe.{AllSafe, download_media-AllSafe}
use webapp_wago.Sending.Buttons.{scan, check_buttons, allowed, check_buttons_iff}
use webapp_wago.Sending.Recipients.{
  QuotedStruct, validate_message_fields, check_single_user_exists, validate_and_check_user_exists,
  recipient_of,
}
use webapp_wago.Sending.Registered.{
  to_option, validate_message_fields-format_jid, IsRegistered, recipient_of-IsRegistered,
}
use webapp_wago.Sending.Retry.{
  Act, reconnected, slept, sent_text, is_disconnection, mentions_disconnection,
  ensure_client_connected, connect_from, text_from, send_text,
}
use webapp_wago.Sending.Once.{IsOnce, send_text-IsOnce}
use webapp_wago.Sending.Album.{
  AlbumStruct, Upload, Message, album_parent, album_child, count_items, send_items, send_album,
}
use webapp_wago.Sending.Complete.{is_ok, IsAlbum, send_album-IsAlbum}

sending : Unit {0}
unfolding text_eq codes contains create_jid parse_jid raw_number prepare_numbers is_blocked_ip
    validate_media_url follow download_media scan check_buttons validate_message_fields
    check_single_user_exists validate_and_check_user_exists recipient_of is_disconnection
    mentions_disconnection ensure_client_connected connect_from text_from send_text count_items
    send_items send_album
sending = tt

-- The host is the whole address.
abbrev parse : Text → Option Url
parse raw = some (record { scheme = codes "https"; host = raw; hostname = raw })

abbrev net : Resolver
net = record {
  parse_ip = λ host. if text_eq host (codes "h") then some (dotted 169 254 169 254) else none;
  lookup_ip = λ host. some (dotted 8 8 8 8 ∷ []);
}

-- A server that sends to the address of the cloud's metadata.
abbrev server : Text → Reply
server url = redirect (codes "h")

abbrev picture : Text → Reply
picture url = status 200 (codes "image/png") (1 ∷ 2 ∷ []) true

to_metadata :
    download_media parse net (λ b. b) server (codes "a") ≡ (codes "a" ∷ [], err fetch_failed)
unfolding sending
to_metadata = refl

a_picture :
    download_media parse net (λ b. b) picture (codes "a")
    ≡ (codes "a" ∷ [], ok (1 ∷ 2 ∷ [], codes "image/png"))
unfolding sending
a_picture = refl

download_media-AllSafe_example :
    AllSafe parse net (λ b. b) server 5 (download_media parse net (λ b. b) server (codes "a"))
download_media-AllSafe_example = download_media-AllSafe parse net (λ b. b) server (codes "a")

two_replies : check_buttons (codes "reply" ∷ codes "reply" ∷ []) ≡ ok tt
unfolding sending
two_replies = refl

check_buttons_iff_example :
    (check_buttons (codes "reply" ∷ codes "pix" ∷ []) ≡ ok tt)
    ↔ (allowed (codes "reply" ∷ codes "pix" ∷ []) ≡ true)
check_buttons_iff_example = check_buttons_iff (codes "reply" ∷ codes "pix" ∷ [])

abbrev verbatim : JidLibrary
verbatim = record { Jid = Text; user = λ j. j; parse = λ s. some s }

validate_message_fields-format_jid_example :
    to_option (validate_message_fields verbatim (λ j. j) (codes "5411") (some false) none none)
    ≡ parse_jid verbatim (codes "5411")
unfolding sending
validate_message_fields-format_jid_example =
    validate_message_fields-format_jid verbatim (λ j. j) (codes "5411") (some false) none refl

-- A number that is registered under another.
abbrev moved : Bool → List Text → Option (List (Bool × Text))
moved format numbers = some ((true, codes "+5412@s.whatsapp.net") ∷ [])

abbrev quote_none : QuotedStruct
quote_none = record { message_id = []; participant = [] }

recipient_of-IsRegistered_example :
    (true ≡ true)
    × ((check_single_user_exists verbatim (λ j. j) moved (codes "5411") false ≡ err tt)
        ⊎ IsRegistered verbatim (λ j. j) moved (codes "5411") (codes "+5412@s.whatsapp.net"))
unfolding sending
recipient_of-IsRegistered_example =
    recipient_of-IsRegistered verbatim (λ j. j) moved true (codes "5411") none quote_none
      (codes "+5412@s.whatsapp.net") refl refl

-- A process whose client connects with the first reconnection, and a server that takes the second
-- sending.
abbrev connected_after : ℕ × ℕ → Option Bool
connected_after (reconnections, attempts) = if reconnections == 0 then some false else some true

abbrev second_works : ℕ × ℕ → Result Text ℕ × (ℕ × ℕ)
second_works (reconnections, attempts) = (
  if attempts == 0 then err (codes "failed: client disconnected") else ok attempts,
  (reconnections, attempts + 1),
)

abbrev counted_once : (ℕ × ℕ) → Bool × (ℕ × ℕ)
counted_once (reconnections, attempts) = (true, (reconnections + 1, attempts))

abbrev text_sent : Result Text ℕ × (ℕ × ℕ) × List Act
text_sent =
    send_text (ℕ × ℕ) ℕ connected_after (λ w. (true, w)) counted_once (λ n w. w) second_works (0, 0)

second_try : text_sent ≡ (
  ok 1,
  (1, 2),
  reconnected ∷ slept 3 ∷ slept 2 ∷ sent_text false ∷ slept 1 ∷ sent_text true ∷ [],
)
unfolding sending
second_try = refl

send_text-IsOnce_example :
    IsOnce
      (ℕ × ℕ)
      ℕ
      connected_after
      (λ w. (true, w))
      counted_once
      (λ n w. w)
      second_works
      3
      6
      51
      text_sent
send_text-IsOnce_example =
    send_text-IsOnce (ℕ × ℕ) ℕ connected_after (λ w. (true, w)) counted_once (λ n w. w) second_works
      (0, 0)

abbrev album : AlbumStruct
album = record {
  number = codes "5411";
  caption = codes "hi";
  items =
      record { kind = codes "image"; url = codes "a" }
      ∷ record { kind = codes "video"; url = codes "b" }
      ∷ [];
}

abbrev at_server : Upload
at_server = record {
  url = [];
  direct_path = [];
  media_key = [];
  file_enc_sha256 = [];
  file_sha256 = [];
}

abbrev download : Text → Result MediaError Media
download url = ok (url, codes "m")

abbrev upload : Text → Bool → Option Upload
upload bytes video = some at_server

-- A server that refuses videos.
abbrev takes_images : Message → Option Text
takes_images (album_parent images videos) = some (codes "p")
takes_images (album_child media index parent caption video) =
    if video then none else some (codes "c")

partial_album :
    is_ok (send_album download upload takes_images true (some (codes "j")) album).1 ≡ false
unfolding sending
partial_album = refl

send_album-IsAlbum_example :
    let (sent, r) = send_album download upload takes_images true (some (codes "j")) album in
    IsAlbum download upload takes_images (some (codes "j")) album sent (is_ok r)
send_album-IsAlbum_example =
    send_album-IsAlbum download upload takes_images true (some (codes "j")) album
