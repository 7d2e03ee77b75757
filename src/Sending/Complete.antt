-- ===== src/Sending/Complete.antt =====
-- What SendAlbum of pkg/sendMessage/service/album.go has sent when it returns.
use webapp_wago.Base.{
  ℕ, suc, ◌≤◌, Bool, true, false, List, [], ◌∷◌, length, Option, none, some, Result, ok, err, ltb,
  if◌then◌else◌, ◌≡◌, ◌⊎◌, inl, inr, refl, arith, Bool-cases,
}
use webapp_wago.Base.Text.{Text}
use webapp_wago.Sending.Media.{MediaError, Media}
use webapp_wago.Sending.Album.{
  AlbumItem, AlbumStruct, Upload, MessageKey, Message, album_parent, album_child, AlbumError,
  no_client, Sent, is_video, count_items, on_child, on_upload, on_download, caption_of, send_items,
  on_parent, on_counted, on_recipient, send_album,
}
use webapp_wago.Sending.Counting.{Counted, count_items_lem}

abbrev pub is_ok : {A : Type 0} → Result AlbumError A → Bool
is_ok (ok x) = true
is_ok (err e) = false

module _ (download : Text → Result MediaError Media) (upload : Text → Bool → Option Upload)
    (send : Message → Option Text) (parent : MessageKey) (caption : Text) where
  -- The message of an item, with the bytes that its address gave.
  abbrev pub IsChild : ℕ → AlbumItem → Message → Type 0
  IsChild index it m =
      (bytes : Text) × (mime : Text) × (up : Upload) × (download it.url ≡ ok (bytes, mime))
      × (upload bytes (is_video it) ≡ some up)
      × (m
          ≡ album_child (record { upload = up; file_length = length bytes; mimetype = mime }) index
              parent (caption_of download upload send index caption) (is_video it))

  -- The messages of the first items, in order and numbered; of all of them just when all is well.
  abbrev pub AreChildren : ℕ → List AlbumItem → List Message → Bool → Type 0
  AreChildren index [] [] all_well = all_well ≡ true
  AreChildren index [] (m ∷ sent) all_well = ⊥
  AreChildren index (it ∷ items) [] all_well = all_well ≡ false
  AreChildren index (it ∷ items) (m ∷ sent) all_well =
      IsChild index it m × AreChildren (suc index) items sent all_well

  send_items-AreChildren :
      (index : ℕ) (items : List AlbumItem)
      → let (sent, r) = send_items download upload send parent caption index items in
        AreChildren index items sent (is_ok r)
  unfolding send_items
  send_items-AreChildren index [] = refl
  send_items-AreChildren index (it ∷ items) =
      of (download it.url) refl (send_items-AreChildren (suc index) items)
    where
      sent :
          (child : Message) (o : Option Text) (rest : Sent download upload send)
          → IsChild index it child
          → AreChildren (suc index) items rest.0 (is_ok rest.1)
          → let (s, r) = on_child download upload send index child o rest in
            AreChildren index (it ∷ items) s (is_ok r)
      sent child none rest x h = refl
      sent child (some id) (s, r) x h = (x, h)

      uploaded :
          (bytes mime : Text) (o : Option Upload) (rest : Sent download upload send)
          → download it.url ≡ ok (bytes, mime)
          → upload bytes (is_video it) ≡ o
          → AreChildren (suc index) items rest.0 (is_ok rest.1)
          → let (s, r) =
              on_upload download upload send index parent
                (caption_of download upload send index caption)
                (is_video it)
                (bytes, mime)
                o
                rest in
            AreChildren index (it ∷ items) s (is_ok r)
      uploaded bytes mime none rest e q h = refl
      uploaded bytes mime (some up) rest e q h =
          sent _ (send _) rest (bytes, mime, up, e, q, refl) h

      of :
          (d : Result MediaError Media)
          → download it.url ≡ d
          → AreChildren
              (suc index)
              items
              (send_items download upload send parent caption (suc index) items).0
              (is_ok (send_items download upload send parent caption (suc index) items).1)
          → let (s, r) =
              on_download download upload send index parent
                (caption_of download upload send index caption)
                (is_video it)
                d
                (send_items download upload send parent caption (suc index) items) in
            AreChildren index (it ∷ items) s (is_ok r)
      of (err x) e h = refl
      of (ok (bytes, mime)) e h = uploaded bytes mime _ _ e refl h

module _ (download : Text → Result MediaError Media) (upload : Text → Bool → Option Upload)
    (send : Message → Option Text) where
  -- Nothing is sent, with an error; or of two to twenty items, first a parent that counts the images
  -- and the videos, then the children.
  abbrev pub IsAlbum : Option Text → AlbumStruct → List Message → Bool → Type 0
  IsAlbum recipient album sent all_well =
      ((sent ≡ []) × (all_well ≡ false))
      ⊎ ((to : Text) × (images : ℕ) × (videos : ℕ) × (id : Text) × (children : List Message)
          × (recipient ≡ some to)
          × (2 ≤ length album.items)
          × (length album.items ≤ 20)
          × Counted album.items 0 0 images videos
          × (send (album_parent images videos) ≡ some id)
          × (sent ≡ album_parent images videos ∷ children)
          × AreChildren download upload send (record { remote_jid = to; id = id }) album.caption 0
              album.items children all_well)

  parent_lem :
      (to : Text) (album : AlbumStruct) (images videos : ℕ) (o : Option Text)
      → 2 ≤ length album.items
      → length album.items ≤ 20
      → Counted album.items 0 0 images videos
      → send (album_parent images videos) ≡ o
      → let (sent, r) = on_parent download upload send to album (album_parent images videos) o in
        IsAlbum (some to) album sent (is_ok r)
  parent_lem to album images videos none lo hi c e = inl (refl, refl)
  parent_lem to album images videos (some id) lo hi c e = inr (
    to,
    images,
    videos,
    id,
    _,
    refl,
    lo,
    hi,
    c,
    e,
    refl,
    send_items-AreChildren download upload send (record { remote_jid = to; id = id }) album.caption
        0 album.items,
  )

  counted_lem :
      (to : Text) (album : AlbumStruct) (c : Result AlbumError (ℕ × ℕ))
      → 2 ≤ length album.items
      → length album.items ≤ 20
      → count_items album.items 0 0 ≡ c
      → let (sent, r) = on_counted download upload send to album c in
        IsAlbum (some to) album sent (is_ok r)
  counted_lem to album (err e) lo hi h = inl (refl, refl)
  counted_lem to album (ok (images, videos)) lo hi h =
      parent_lem to album images videos (send (album_parent images videos)) lo hi
        (count_items_lem album.items 0 0 images videos h) refl

  recipient_lem :
      (album : AlbumStruct) (o : Option Text)
      → 2 ≤ length album.items
      → length album.items ≤ 20
      → let (sent, r) = on_recipient download upload send album o in IsAlbum o album sent (is_ok r)
  recipient_lem album none lo hi = inl (refl, refl)
  recipient_lem album (some to) lo hi = counted_lem to album _ lo hi refl

  -- SendAlbum sends nothing and returns an error, or it has two to twenty items and sends first the
  -- parent, which counts the images and the videos, then a child for each of the first items, in
  -- order, numbered from 0 and under the parent's id, with what the item's address gave, the caption
  -- on the first; for all the items just when it returns no error.
  pub send_album-IsAlbum :
      (connected : Bool) (recipient : Option Text) (album : AlbumStruct)
      → let (sent, r) = send_album download upload send connected recipient album in
        IsAlbum recipient album sent (is_ok r)
  unfolding send_album
  send_album-IsAlbum connected recipient album = elim (Bool-cases (ltb (length album.items) 2)) [
    | inl a ↦ rw a (inl (refl, refl))
    | inr a ↦ elim (Bool-cases (ltb 20 (length album.items))) [
      | inl b ↦ rw (a, b) (inl (refl, refl))
      | inr b ↦ rw (a, b) (client_lem connected (ground arith) (ground arith))
    ]
  ]
    where
      client_lem :
          (c : Bool)
          → 2 ≤ length album.items
          → length album.items ≤ 20
          → let (sent, r) =
              if c
              then on_recipient download upload send album recipient
              else ([], err no_client) in
            IsAlbum recipient album sent (is_ok r)
      client_lem true lo hi = recipient_lem album recipient lo hi
      client_lem false lo hi = inl (refl, refl)
