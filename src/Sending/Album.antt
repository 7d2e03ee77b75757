-- ===== src/Sending/Album.antt =====
-- SendAlbum of pkg/sendMessage/service/album.go. Which of the messages reach the library, the
-- downloads and the uploads are parameters.
use webapp_wago.Base.{
  ℕ, zero, suc, Bool, List, [], ◌∷◌, is_empty, length, Option, none, some, Result, ok, err, ltb,
  if◌then◌else◌,
}
use webapp_wago.Base.Text.{Text, codes, text_eq}
use webapp_wago.Sending.Media.{MediaError, Media}

pub record AlbumItem : Type 0 where
  pub kind : Text
  pub url : Text

-- `AlbumStruct`; its FormatJid is never read.
pub record AlbumStruct : Type 0 where
  pub number : Text
  pub caption : Text
  pub items : List AlbumItem

-- What `Upload` answers.
pub record Upload : Type 0 where
  pub url : Text
  pub direct_path : Text
  pub media_key : Text
  pub file_enc_sha256 : Text
  pub file_sha256 : Text

-- `uploadedMedia`.
pub record UploadedMedia : Type 0 where
  pub upload : Upload
  pub file_length : ℕ
  pub mimetype : Text

-- `waCommon.MessageKey`; FromMe is always true.
pub record MessageKey : Type 0 where
  pub remote_jid : Text
  pub id : Text

pub data Message : Type 0 where
  album_parent : (images videos : ℕ) → Message
  album_child :
      UploadedMedia → (index : ℕ) → MessageKey → (caption : Text) → (is_video : Bool) → Message

pub data AlbumError : Type 0 where
  too_few : AlbumError
  too_many : ℕ → AlbumError
  no_client : AlbumError
  invalid_number : AlbumError
  invalid_type : Text → AlbumError
  no_url : AlbumError
  parent_failed : AlbumError
  download_failed : ℕ → MediaError → AlbumError
  upload_failed : ℕ → AlbumError
  partially_sent : ℕ → AlbumError

-- `MaxAlbumItems`.
abbrev pub max_album_items : ℕ
max_album_items = 20

abbrev pub is_video : AlbumItem → Bool
is_video it = text_eq it.kind (codes "video")

abbrev pub with_url : AlbumItem → Result AlbumError (ℕ × ℕ) → Result AlbumError (ℕ × ℕ)
with_url it rest = if is_empty it.url then err no_url else rest

-- The loop that counts the images and the videos.
unfoldable pub count_items : List AlbumItem → ℕ → ℕ → Result AlbumError (ℕ × ℕ)
unfolding text_eq codes
count_items [] images videos = ok (images, videos)
count_items (it ∷ items) images videos =
    let one_image = count_items items (suc images) videos in
    let one_video = count_items items images (suc videos) in
    if text_eq it.kind (codes "image")
    then with_url it one_image
    else if text_eq it.kind (codes "video")
    then with_url it one_video
    else err (invalid_type it.kind)

module _ (download : Text → Result MediaError Media) (upload : Text → Bool → Option Upload)
    (send : Message → Option Text) where
  -- The messages that were sent, and the answer.
  abbrev pub Sent : Type 0
  Sent = List Message × Result AlbumError (Unit {0})

  abbrev pub put_first : Message → Sent → Sent
  put_first m (sent, r) = (m ∷ sent, r)

  abbrev pub on_child : ℕ → Message → Option Text → Sent → Sent
  on_child index m none rest = ([], err (partially_sent (suc index)))
  on_child index m (some id) rest = put_first m rest

  -- `buildAlbumChild`, and the sending of what it builds.
  abbrev pub on_upload : ℕ → MessageKey → Text → Bool → Media → Option Upload → Sent → Sent
  on_upload index parent caption video (bytes, mime) none rest =
      ([], err (upload_failed (suc index)))
  on_upload index parent caption video (bytes, mime) (some up) rest =
      let media : UploadedMedia = record {
        upload = up;
        file_length = length bytes;
        mimetype = mime;
      } in
      let child = album_child media index parent caption video in
      on_child index child (send child) rest

  abbrev pub on_download : ℕ → MessageKey → Text → Bool → Result MediaError Media → Sent → Sent
  on_download index parent caption video (err e) rest = ([], err (download_failed (suc index) e))
  on_download index parent caption video (ok (bytes, mime)) rest =
      on_upload index parent caption video (bytes, mime) (upload bytes video) rest

  abbrev pub caption_of : ℕ → Text → Text
  caption_of zero caption = caption
  caption_of (suc index) caption = []

  -- The loop over the items.
  unfoldable pub send_items : MessageKey → Text → ℕ → List AlbumItem → Sent
  unfolding text_eq codes
  send_items parent caption index [] = ([], ok tt)
  send_items parent caption index (it ∷ items) =
      on_download index parent (caption_of index caption) (is_video it) (download it.url)
        (send_items parent caption (suc index) items)

  abbrev pub on_parent : Text → AlbumStruct → Message → Option Text → Sent
  on_parent recipient album m none = ([], err parent_failed)
  on_parent recipient album m (some id) =
      put_first m
        (send_items (record { remote_jid = recipient; id = id }) album.caption 0 album.items)

  abbrev pub on_counted : Text → AlbumStruct → Result AlbumError (ℕ × ℕ) → Sent
  on_counted recipient album (err e) = ([], err e)
  on_counted recipient album (ok (images, videos)) =
      on_parent recipient album (album_parent images videos) (send (album_parent images videos))

  abbrev pub on_recipient : AlbumStruct → Option Text → Sent
  on_recipient album none = ([], err invalid_number)
  on_recipient album (some recipient) = on_counted recipient album (count_items album.items 0 0)

  -- Whether there is a connected client, and what ParseJID makes of the number, as text.
  unfoldable pub send_album : Bool → Option Text → AlbumStruct → Sent
  unfolding count_items send_items
  send_album connected recipient album =
      if ltb (length album.items) 2
      then ([], err too_few)
      else if ltb max_album_items (length album.items)
      then ([], err (too_many (length album.items)))
      else if connected
      then on_recipient album recipient
      else ([], err no_client)
