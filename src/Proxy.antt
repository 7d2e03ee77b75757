-- ===== src/Proxy.antt =====
-- NormalizeProxyProtocol and BuildProxyAddress of pkg/utils/utils.go. The address is the URL's
-- parts; how net/url writes them as a text is left out.
mod Tests
use webapp_wago.Base.{
  ℕ, Bool, true, false, not, ◌&&◌, ◌||◌, List, [], ◌∷◌, is_empty, leb, Option, none, some, Result,
  ok, err, if◌then◌else◌, ◌≡◌, ◌↔◌, ◌⊎◌, inl, inr, refl, sym, ap, ◌∙◌, Bool-cases, or-true, subst,
}
use webapp_wago.Base.Int.{ℤ, pos, negsuc}
use webapp_wago.Base.Number.{atoi}
use webapp_wago.Base.Text.{Text, codes, text_eq, text_eq→eq, to_lower, trim_space}

abbrev pub http : Text
http = codes "http"

abbrev pub https : Text
https = codes "https"

abbrev pub socks5 : Text
socks5 = codes "socks5"

abbrev pub is_supported : Text → Bool
is_supported s = text_eq s http || text_eq s https || text_eq s socks5

abbrev pub is_socks_port : Option ℤ → Bool
is_socks_port (some (pos n)) = leb 42000 n && leb n 43000
is_socks_port (some (negsuc n)) = false
is_socks_port none = false

unfoldable pub normalize_proxy_protocol : Text → Text → Text
unfolding to_lower trim_space text_eq codes atoi
normalize_proxy_protocol protocol port =
    let normalized = to_lower (trim_space protocol) in
    if text_eq normalized (codes "socks")
    then socks5
    else if is_supported normalized
    then normalized
    else if text_eq (trim_space port) (codes "1080") || text_eq (trim_space port) (codes "2080")
    then socks5
    else if is_socks_port (atoi (trim_space port))
    then socks5
    else http

pub record ProxyUrl : Type 0 where
  pub scheme : Text
  pub host : Text
  pub port : Text
  pub user : Option (Text × Option Text)

pub data ProxyError : Type 0 where
  host_required : ProxyError
  port_required : ProxyError
  unsupported : Text → ProxyError

abbrev pub user_info : Text → Text → Option (Text × Option Text)
user_info [] password = none
user_info (c ∷ user) [] = some (c ∷ user, none)
user_info (c ∷ user) (d ∷ password) = some (c ∷ user, some (d ∷ password))

unfoldable pub build_proxy_address : Text → Text → Text → Text → Text → Result ProxyError ProxyUrl
unfolding normalize_proxy_protocol trim_space text_eq codes
build_proxy_address protocol host port user password =
    if is_empty (trim_space host)
    then err host_required
    else if is_empty (trim_space port)
    then err port_required
    else if not (is_supported (normalize_proxy_protocol protocol port))
    then err (unsupported protocol)
    else ok (record {
      scheme = normalize_proxy_protocol protocol port;
      host = trim_space host;
      port = trim_space port;
      user = user_info user password;
    })

IsScheme : Text → Type 0
IsScheme s = (s ≡ http) ⊎ ((s ≡ https) ⊎ (s ≡ socks5))

supported-IsScheme : (s : Text) → is_supported s ≡ true → IsScheme s
unfolding IsScheme
supported-IsScheme s h = elim (Bool-cases (text_eq s http)) [
  | inl e ↦ inl (text_eq→eq s http e)
  | inr n ↦ elim (Bool-cases (text_eq s https)) [
    | inl e ↦ inr (inl (text_eq→eq s https e))
    | inr m ↦ inr (inr (text_eq→eq s socks5 (rw (n, m) at h)))
  ]
]

chosen-IsScheme :
    (a b c d : Bool) (s : Text)
    → (b ≡ true → IsScheme s)
    → IsScheme
        (if a then socks5 else if b then s else if c then socks5 else if d then socks5 else http)
unfolding IsScheme
chosen-IsScheme true b c d s h = inr (inr refl)
chosen-IsScheme false true c d s h = h refl
chosen-IsScheme false false true d s h = inr (inr refl)
chosen-IsScheme false false false true s h = inr (inr refl)
chosen-IsScheme false false false false s h = inl refl

normalize-IsScheme : (protocol port : Text) → IsScheme (normalize_proxy_protocol protocol port)
unfolding normalize_proxy_protocol
normalize-IsScheme protocol port =
    chosen-IsScheme (text_eq (to_lower (trim_space protocol)) (codes "socks"))
      (is_supported (to_lower (trim_space protocol)))
      (text_eq (trim_space port) (codes "1080") || text_eq (trim_space port) (codes "2080"))
      (is_socks_port (atoi (trim_space port))) (to_lower (trim_space protocol))
      (supported-IsScheme (to_lower (trim_space protocol)))

kept :
    (s port : Text) → IsScheme s → (is_supported s ≡ true) × (normalize_proxy_protocol s port ≡ s)
unfolding IsScheme normalize_proxy_protocol text_eq codes to_lower trim_space
kept s port (inl e) =
    subst (λ u. (is_supported u ≡ true) × (normalize_proxy_protocol u port ≡ u)) (sym e)
      (refl, refl)
kept s port (inr (inl e)) =
    subst (λ u. (is_supported u ≡ true) × (normalize_proxy_protocol u port ≡ u)) (sym e)
      (refl, refl)
kept s port (inr (inr e)) =
    subst (λ u. (is_supported u ≡ true) × (normalize_proxy_protocol u port ≡ u)) (sym e)
      (refl, refl)

-- A protocol that is normalised is one of the three that are supported, and it stays as it is when
-- it is normalised again, also with another port.
pub normalize_proxy_protocol_idempotent :
    (protocol port port' : Text)
    → (is_supported (normalize_proxy_protocol protocol port) ≡ true)
      × (normalize_proxy_protocol (normalize_proxy_protocol protocol port) port'
          ≡ normalize_proxy_protocol protocol port)
normalize_proxy_protocol_idempotent protocol port port' =
    kept _ port' (normalize-IsScheme protocol port)

-- A proxy's address can be built exactly where its host and its port are not blank: the error of
-- an unsupported protocol never comes up.
pub build_proxy_address-ok_iff :
    (protocol host port user password : Text)
    → ((u : ProxyUrl) × (build_proxy_address protocol host port user password ≡ ok u))
      ↔ ((is_empty (trim_space host) ≡ false) × (is_empty (trim_space port) ≡ false))
unfolding build_proxy_address
build_proxy_address-ok_iff protocol host port user password =
    of (is_empty (trim_space host)) (is_empty (trim_space port)) _ _
      (normalize_proxy_protocol_idempotent protocol port port).0
  where
    of :
        (a b c : Bool) (v : ProxyUrl)
        → c ≡ true
        → ((u : ProxyUrl) × (◌≡◌ {A = Result ProxyError ProxyUrl}
              (if a
                then err host_required
                else if b
                then err port_required
                else if not c
                then err (unsupported protocol)
                else ok v)
              (ok u)))
          ↔ ((a ≡ false) × (b ≡ false))
    of true b c v h = (λ (u, k). cc, λ (e, f). cc)
    of false true c v h = (λ (u, k). cc, λ (e, f). cc)
    of false false true v h = (λ k. (refl, refl), λ k. (v, refl))
    of false false false v h = cc
