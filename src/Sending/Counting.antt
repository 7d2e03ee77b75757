-- ===== src/Sending/Counting.antt =====
-- The counts of SendAlbum in pkg/sendMessage/service/album.go.
use webapp_wago.Base.{
  ℕ, suc, ◌+◌, Bool, true, false, List, [], ◌∷◌, is_empty, length, select, ok, err, if◌then◌else◌,
  ◌≡◌, refl, sym, ap, arith, subst, ok-injective,
}
use webapp_wago.Base.Text.{Text, codes, text_eq, text_eq→eq}
use webapp_wago.Sending.Album.{AlbumItem, no_url, invalid_type, is_video, count_items}

abbrev pub is_image : AlbumItem → Bool
is_image it = text_eq it.kind (codes "image")

abbrev pub Counted : List AlbumItem → ℕ → ℕ → ℕ → ℕ → Type 0
Counted items i v images videos =
    (images ≡ i + length (select is_image items))
    × (videos ≡ v + length (select is_video items))
    × (images + videos ≡ (i + v) + length items)

image-video :
    (kind : Text) → text_eq kind (codes "image") ≡ true → text_eq kind (codes "video") ≡ false
unfolding codes text_eq
image-video kind h =
    subst (λ k. text_eq k (codes "video") ≡ false) (sym (text_eq→eq kind (codes "image") h)) refl

pub count_items_lem :
    (items : List AlbumItem) (i v images videos : ℕ)
    → count_items items i v ≡ ok (images, videos)
    → Counted items i v images videos
unfolding count_items
count_items_lem [] i v images videos h =
    let e : ◌≡◌ {A = ℕ × ℕ} (i, v) (images, videos) = ok-injective h in
    let p : i ≡ images = ap (λ q. q.0) e in
    let q : v ≡ videos = ap (λ q. q.1) e in (omega arith, omega arith, omega arith)
count_items_lem (it ∷ items) i v images videos h =
    of (text_eq it.kind (codes "image")) (text_eq it.kind (codes "video")) (is_empty it.url)
      (image-video it.kind) h (count_items_lem items (suc i) v images videos)
      (count_items_lem items i (suc v) images videos)
  where
    of :
        (a b c : Bool)
        → (a ≡ true → b ≡ false)
        → (if a
            then if c then err no_url else count_items items (suc i) v
            else if b
            then if c then err no_url else count_items items i (suc v)
            else err (invalid_type it.kind))
          ≡ ok (images, videos)
        → (count_items items (suc i) v ≡ ok (images, videos)
            → Counted items (suc i) v images videos)
        → (count_items items i (suc v) ≡ ok (images, videos)
            → Counted items i (suc v) images videos)
        → (images ≡ i + length (if a then it ∷ select is_image items else select is_image items))
          × (videos ≡ v + length (if b then it ∷ select is_video items else select is_video items))
          × (images + videos ≡ (i + v) + suc (length items))
    of true true c x h k l = absurd (let e : true ≡ false = x refl in cc)
    of true false true x h k l = cc
    of true false false x h k l = let (p, q, s) = k h in (omega arith, omega arith, omega arith)
    of false true true x h k l = cc
    of false true false x h k l = let (p, q, s) = l h in (omega arith, omega arith, omega arith)
    of false false c x h k l = cc
