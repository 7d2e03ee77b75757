-- ===== src/Sending/Safe.antt =====
-- The download of media in pkg/sendMessage/service/album.go never asks a private address.
use webapp_wago.Base.{
  ℕ, zero, suc, ◌<◌, ◌≤◌, Bool, true, false, not, ◌&&◌, List, [], ◌∷◌, All, any, is_empty, length,
  Option, none, some, Result, ok, err, if◌then◌else◌, ◌≡◌, inl, inr, refl, sym, ap, ◌∙◌, arith,
  Bool-cases,
}
use webapp_wago.Base.Text.{Text, codes, text_eq}
use webapp_wago.Webhook.Hosts.{Ip, dotted, Resolver}
use webapp_wago.Webhook.Service.{Url}
use webapp_wago.Webhook.Blocking.{
  IsPublic, is_private, found_addresses, first_byte, two_bytes, twelve_bits,
}
use webapp_wago.Sending.Media.{
  is_blocked_ip, MediaError, Media, bad_scheme, no_host, blocked, checked_ips, checked_host,
  checked_url, validate_media_url, Reply, failed, redirect, status, fetch_failed, on_checked, turn,
  follow, download_checked, download_media,
}

module _ (a b c d : ℕ) (ha : a < 256) (hb : b < 256) (hc : c < 256) (hd : d < 256) where
  blocked-dotted : is_blocked_ip (dotted a b c d) ≡ false → is_private a b ≡ false
  unfolding is_blocked_ip
  blocked-dotted =
      rw
        (
          first_byte a b c d ha hb hc hd,
          two_bytes a b c d ha hb hc hd,
          twelve_bits a b c d ha hb hc hd,
        )
        (ground arith)

blocked-IsPublic : (ip : Ip) → is_blocked_ip ip ≡ false → IsPublic ip
blocked-IsPublic ip h a b c d ha hb hc hd e =
    blocked-dotted a b c d ha hb hc hd (ap is_blocked_ip (sym e) ∙ h)

none_blocked : (ips : List Ip) → any (λ ip. is_blocked_ip ip) ips ≡ false → All IsPublic ips
none_blocked [] h = tt
none_blocked (ip ∷ ips) h = elim (Bool-cases (is_blocked_ip ip)) [
  | inl e ↦ cc
  | inr e ↦ (blocked-IsPublic ip e, none_blocked ips (rw e at h))
]

module _ (parse : Text → Option Url) (net : Resolver) where
  -- An address of which the host, at the time, stands for no private address.
  abbrev pub IsSafe : Text → Type 0
  IsSafe raw =
      (u : Url) × (parse raw ≡ some u)
      × (is_empty u.hostname ≡ false)
      × All IsPublic (found_addresses (net.parse_ip u.hostname) (net.lookup_ip u.hostname))

  host_lem :
      (host : Text) (o : Option Ip)
      → checked_host net host o ≡ ok tt
      → All IsPublic (found_addresses o (net.lookup_ip host))
  host_lem host (some ip) h = elim (Bool-cases (is_blocked_ip ip)) [
    | inl e ↦ (let k : err blocked ≡ ok tt = rw e at h in cc)
    | inr e ↦ (blocked-IsPublic ip e, tt)
  ]
  host_lem host none h = of (net.lookup_ip host) h
    where
      of : (o : Option (List Ip)) → checked_ips o ≡ ok tt → All IsPublic (found_addresses none o)
      of none k = cc
      of (some ips) k = elim (Bool-cases (any (λ ip. is_blocked_ip ip) ips)) [
        | inl e ↦ (let q : err blocked ≡ ok tt = rw e at k in cc)
        | inr e ↦ none_blocked ips e
      ]

  validate_media_url-IsSafe : (raw : Text) → validate_media_url parse net raw ≡ ok tt → IsSafe raw
  unfolding validate_media_url
  validate_media_url-IsSafe raw = of (parse raw) refl
    where
      hosted :
          (u : Url) (scheme host : Bool)
          → parse raw ≡ some u
          → is_empty u.hostname ≡ host
          → (if scheme
              then err bad_scheme
              else if host
              then err no_host
              else checked_host net u.hostname (net.parse_ip u.hostname))
            ≡ ok tt
          → IsSafe raw
      hosted u true host e q h = cc
      hosted u false true e q h = cc
      hosted u false false e q h = (u, e, q, host_lem u.hostname (net.parse_ip u.hostname) h)

      of : (o : Option Url) → parse raw ≡ o → checked_url net o ≡ ok tt → IsSafe raw
      of none e h = cc
      of (some u) e h =
          hosted u (not (text_eq u.scheme (codes "http")) && not (text_eq u.scheme (codes "https")))
            (is_empty u.hostname) e refl h

  module _ (detect : Text → Text) (server : Text → Reply) where
    -- Of so many requests at most, all go to safe addresses.
    abbrev pub AllSafe : ℕ → List Text × Result MediaError Media → Type 0
    AllSafe n out = (length out.0 ≤ n) × All IsSafe out.0

    turn-AllSafe :
        (n : ℕ) (url : Text) (r : Reply) (next : Text → List Text × Result MediaError Media)
        → IsSafe url
        → ((to : Text) → AllSafe n (next to))
        → AllSafe (suc n) (turn parse net detect server url r next)
    turn-AllSafe n url failed next safe h = (omega arith, (safe, tt))
    turn-AllSafe n url (redirect to) next safe h =
        let (le, all_safe) = h to in (omega arith, (safe, all_safe))
    turn-AllSafe n url (status code mime body readable) next safe h = (omega arith, (safe, tt))

    follow-AllSafe :
        (left : ℕ) (url : Text)
        → IsSafe url
        → AllSafe (suc left) (follow parse net detect server left url)
    unfolding follow
    follow-AllSafe zero url safe =
        turn-AllSafe 0 url (server url) (λ to. ([], err fetch_failed)) safe
          (λ to. (omega arith, tt))
    follow-AllSafe (suc left) url safe =
        turn-AllSafe (suc left) url (server url) _ safe
          (λ to. of to (validate_media_url parse net to) refl (follow-AllSafe left to))
      where
        of :
            (to : Text) (r : Result MediaError (Unit {0}))
            → validate_media_url parse net to ≡ r
            → (IsSafe to → AllSafe (suc left) (follow parse net detect server left to))
            → AllSafe
                (suc left)
                (on_checked parse net detect server r (follow parse net detect server left to))
        of to (err e) q h = (omega arith, tt)
        of to (ok u) q h = h (validate_media_url-IsSafe to q)

    -- Whatever the servers answer, a download asks at most five addresses, redirects included, and
    -- each host that it asks stands, when it is checked, for no address in 127.0.0.0/8, 10.0.0.0/8,
    -- 172.16.0.0/12, 192.168.0.0/16 or 169.254.0.0/16.
    pub download_media-AllSafe :
        (url : Text) → AllSafe 5 (download_media parse net detect server url)
    unfolding download_media
    download_media-AllSafe url = of (validate_media_url parse net url) refl
      where
        of :
            (r : Result MediaError (Unit {0}))
            → validate_media_url parse net url ≡ r
            → AllSafe 5 (download_checked parse net detect server url r)
        of (err e) q = (omega arith, tt)
        of (ok u) q = follow-AllSafe 4 url (validate_media_url-IsSafe url q)
