-- ===== src/Sending/Media.antt =====
-- The download of media in pkg/sendMessage/service/album.go. Addresses and the resolver are those
-- of Webhook.Hosts; `url.Parse` and what a server answers are
-- parameters.
use webapp_wago.Base.{
  ℕ, zero, suc, ◌*◌, ◌/◌, ◌^◌, ◌%◌, Bool, not, ◌&&◌, ◌||◌, List, [], ◌∷◌, any, is_empty, take,
  Option, none, some, Result, ok, err, ◌==◌, leb, ltb, if◌then◌else◌,
}
use webapp_wago.Base.Text.{Text, codes, text_eq}
use webapp_wago.Webhook.Hosts.{
  Ip, v4, v6, dotted, contains, is_loopback, is_link_local_unicast, Resolver,
}
use webapp_wago.Webhook.Service.{Url}

-- `ssrfBlockedRanges`.
abbrev pub ssrf_blocked_ranges : List (Ip × ℕ)
ssrf_blocked_ranges =
    (dotted 127 0 0 0, 8)
    ∷ (dotted 10 0 0 0, 8)
    ∷ (dotted 172 16 0 0, 12)
    ∷ (dotted 192 168 0 0, 16)
    ∷ (dotted 169 254 0 0, 16)
    ∷ (v6 1, 128)
    ∷ (v6 (0xFC00 * 2 ^ 112), 7)
    ∷ (v6 (0xFE80 * 2 ^ 112), 10)
    ∷ []

-- 224.0.0.0/24 and ff02::/16 with any flags.
abbrev pub is_link_local_multicast : Ip → Bool
is_link_local_multicast (v4 a) = a / 2 ^ 8 == 224 * 65536
is_link_local_multicast (v6 a) = a / 2 ^ 120 == 0xFF && (a / 2 ^ 112) % 16 == 2

unfoldable pub is_blocked_ip : Ip → Bool
is_blocked_ip ip =
    (is_loopback ip || (is_link_local_unicast ip || is_link_local_multicast ip))
    || any (λ n. contains n ip) ssrf_blocked_ranges

pub data MediaError : Type 0 where
  bad_url : MediaError
  bad_scheme : MediaError
  no_host : MediaError
  blocked : MediaError
  unresolved : MediaError
  fetch_failed : MediaError
  bad_status : ℕ → MediaError
  unreadable : MediaError

abbrev pub checked_ips : Option (List Ip) → Result MediaError (Unit {0})
checked_ips none = err unresolved
checked_ips (some ips) = if any (λ ip. is_blocked_ip ip) ips then err blocked else ok tt

abbrev pub checked_host : Resolver → Text → Option Ip → Result MediaError (Unit {0})
checked_host net host (some ip) = if is_blocked_ip ip then err blocked else ok tt
checked_host net host none = checked_ips (net.lookup_ip host)

abbrev pub checked_url : Resolver → Option Url → Result MediaError (Unit {0})
checked_url net none = err bad_url
checked_url net (some u) =
    if not (text_eq u.scheme (codes "http")) && not (text_eq u.scheme (codes "https"))
    then err bad_scheme
    else if is_empty u.hostname
    then err no_host
    else checked_host net u.hostname (net.parse_ip u.hostname)

unfoldable pub validate_media_url :
    (Text → Option Url) → Resolver → Text → Result MediaError (Unit {0})
unfolding text_eq codes is_blocked_ip
validate_media_url parse net raw = checked_url net (parse raw)

-- What a request brings: nothing, the address to go to, or a status with `Content-Type`, a body and
-- whether the body can be read to its end.
pub data Reply : Type 0 where
  failed : Reply
  redirect : Text → Reply
  status : ℕ → Text → Text → Bool → Reply

-- The bytes of a medium and its type.
abbrev pub Media : Type 0
Media = Text × Text

-- `http.DetectContentType` is a parameter.
abbrev pub received : (Text → Text) → ℕ → Text → Text → Bool → Result MediaError Media
received detect code mime body readable =
    let bytes = take (64 * 2 ^ 20) body in
    if ltb code 200 || leb 300 code
    then err (bad_status code)
    else if readable
    then ok (bytes, (if is_empty mime then detect bytes else mime))
    else err unreadable

module _ (parse : Text → Option Url) (net : Resolver) (detect : Text → Text)
    (server : Text → Reply) where
  abbrev pub put_first :
      Text → List Text × Result MediaError Media → List Text × Result MediaError Media
  put_first url (asked, r) = (url ∷ asked, r)

  abbrev pub on_checked :
      Result MediaError (Unit {0})
      → List Text × Result MediaError Media
      → List Text × Result MediaError Media
  on_checked (err e) rest = ([], err fetch_failed)
  on_checked (ok u) rest = rest

  abbrev pub turn :
      Text
      → Reply
      → (Text → List Text × Result MediaError Media)
      → List Text × Result MediaError Media
  turn url failed next = (url ∷ [], err fetch_failed)
  turn url (redirect to) next = put_first url (next to)
  turn url (status code mime body readable) next =
      (url ∷ [], received detect code mime body readable)

  -- `Get` with `CheckRedirect`: `left` redirects may still be followed, since the fifth is refused.
  -- With the result go the addresses that were asked for.
  unfoldable pub follow : ℕ → Text → List Text × Result MediaError Media
  unfolding validate_media_url
  follow zero url = turn url (server url) (λ to. ([], err fetch_failed))
  follow (suc left) url =
      turn url (server url) (λ to. on_checked (validate_media_url parse net to) (follow left to))

  abbrev pub download_checked :
      Text → Result MediaError (Unit {0}) → List Text × Result MediaError Media
  download_checked url (err e) = ([], err e)
  download_checked url (ok u) = follow 4 url

  unfoldable pub download_media : Text → List Text × Result MediaError Media
  unfolding validate_media_url follow
  download_media url = download_checked url (validate_media_url parse net url)
