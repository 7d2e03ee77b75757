-- ===== src/Webhook/Blocking.antt =====
-- Which addresses validateWebhookHost of pkg/webhook/service/webhook_service.go refuses.
use webapp_wago.Base.{
  ℕ, ◌+◌, ◌*◌, ◌/◌, ◌<◌, Bool, false, ◌&&◌, ◌||◌, List, [], ◌∷◌, All, Option, none, some, Result,
  ok, err, ◌==◌, leb, ◌≡◌, ◌↔◌, refl, arith, sym, ◌∙◌, ap, is_empty,
}
use webapp_wago.Base.Text.{Text}
use webapp_wago.Webhook.Hosts.{
  Ip, dotted, check, check_all, Resolver, validate_webhook_host, check_parsed, check_found,
  HostError,
}

abbrev pub address : ℕ → ℕ → ℕ → ℕ → ℕ
address a b c d = ((a * 256 + b) * 256 + c) * 256 + d

-- The blocks by their first two bytes.
abbrev pub is_private : ℕ → ℕ → Bool
is_private a b =
    a == 127
    || a == 10
    || (a == 172 && leb 16 b && leb b 31)
    || (a == 192 && b == 168)
    || (a == 169 && b == 254)

module _ (a b c d : ℕ) (ha : a < 256) (hb : b < 256) (hc : c < 256) (hd : d < 256) where
  pub first_byte : address a b c d / 16777216 ≡ a
  first_byte = omega arith

  pub two_bytes : address a b c d / 65536 ≡ a * 256 + b
  two_bytes = omega arith

  pub twelve_bits : address a b c d / 1048576 ≡ a * 16 + b / 16
  twelve_bits = omega arith

  pub check-dotted : (check (dotted a b c d) ≡ ok tt) ↔ (is_private a b ≡ false)
  unfolding check
  check-dotted = rw (first_byte, two_bytes, twelve_bits) (ground arith)

-- An address that is not in a private block of IPv4.
abbrev pub IsPublic : Ip → Type 0
IsPublic ip =
    (a b c d : ℕ)
    → a < 256
    → b < 256
    → c < 256
    → d < 256
    → ip ≡ dotted a b c d
    → is_private a b ≡ false

check-IsPublic : (ip : Ip) → check ip ≡ ok tt → IsPublic ip
check-IsPublic ip h a b c d ha hb hc hd e =
    (check-dotted a b c d ha hb hc hd).0 (ap check (sym e) ∙ h)

check_all-IsPublic : (ips : List Ip) → check_all ips ≡ ok tt → All IsPublic ips
unfolding check_all
check_all-IsPublic [] h = tt
check_all-IsPublic (ip ∷ ips) h = of (check ip) refl h (check_all-IsPublic ips)
  where
    of :
        (x : Result HostError (Unit {0}))
        → check ip ≡ x
        → elim x [ err e ↦ err e | ok u ↦ check_all ips ] ≡ ok tt
        → (check_all ips ≡ ok tt → All IsPublic ips)
        → All IsPublic (ip ∷ ips)
    of (err e) k h' f = cc
    of (ok u) k h' f = (check-IsPublic ip k, f h')

-- The addresses that a host stands for: its own, or those that the network has for its name.
abbrev pub found_addresses : Option Ip → Option (List Ip) → List Ip
found_addresses (some ip) found = ip ∷ []
found_addresses none (some ips) = ips
found_addresses none none = []

-- A host that passes has a name, and none of the addresses that it stands for at that time lies
-- in 127.0.0.0/8, 10.0.0.0/8, 172.16.0.0/12, 192.168.0.0/16 or 169.254.0.0/16.
pub validate_webhook_host-IsPublic :
    (net : Resolver) (host : Text)
    → validate_webhook_host net host ≡ ok tt
    → (is_empty host ≡ false)
      × All IsPublic (found_addresses (net.parse_ip host) (net.lookup_ip host))
unfolding validate_webhook_host
validate_webhook_host-IsPublic net [] h = cc
validate_webhook_host-IsPublic net (c ∷ host) h =
    (refl, of (net.parse_ip (c ∷ host)) (net.lookup_ip (c ∷ host)) h)
  where
    of :
        (o : Option Ip) (found : Option (List Ip))
        → check_parsed o (check_found found) ≡ ok tt
        → All IsPublic (found_addresses o found)
    of (some ip) found k = (check-IsPublic ip k, tt)
    of none (some ips) k = check_all-IsPublic ips k
    of none none k = tt
