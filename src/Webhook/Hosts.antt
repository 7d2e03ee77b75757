-- ===== src/Webhook/Hosts.antt =====
-- validateWebhookHost of pkg/webhook/service/webhook_service.go. An address is its bits as a
-- number; an IPv4 address written in IPv6 form is an IPv4 address, as in Go's `net`.
use webapp_wago.Base.{
  ℕ, ◌+◌, ◌-◌, ◌*◌, ◌/◌, ◌^◌, Bool, false, ◌||◌, List, [], ◌∷◌, any, is_empty, Option, none, some,
  Result, ok, err, ◌==◌, if◌then◌else◌,
}
use webapp_wago.Base.Text.{Text}

pub data Ip : Type 0 where
  v4 : ℕ → Ip
  v6 : ℕ → Ip

abbrev pub dotted : ℕ → ℕ → ℕ → ℕ → Ip
dotted a b c d = v4 (((a * 256 + b) * 256 + c) * 256 + d)

-- `IPNet.Contains`: the first bits agree.
abbrev pub contains : Ip × ℕ → Ip → Bool
contains (v4 net, bits) (v4 a) = a / 2 ^ (32 - bits) == net / 2 ^ (32 - bits)
contains (v4 net, bits) (v6 a) = false
contains (v6 net, bits) (v4 a) = false
contains (v6 net, bits) (v6 a) = a / 2 ^ (128 - bits) == net / 2 ^ (128 - bits)

-- `webhookBlockedRanges`.
abbrev pub webhook_blocked_ranges : List (Ip × ℕ)
webhook_blocked_ranges =
    (dotted 127 0 0 0, 8)
    ∷ (dotted 10 0 0 0, 8)
    ∷ (dotted 172 16 0 0, 12)
    ∷ (dotted 192 168 0 0, 16)
    ∷ (dotted 169 254 0 0, 16)
    ∷ (v6 1, 128)
    ∷ (v6 (0xFC00 * 2 ^ 112), 7)
    ∷ (v6 (0xFE80 * 2 ^ 112), 10)
    ∷ []

abbrev pub is_loopback : Ip → Bool
is_loopback (v4 a) = a / 2 ^ 24 == 127
is_loopback (v6 a) = a == 1

abbrev pub is_link_local_unicast : Ip → Bool
is_link_local_unicast (v4 a) = a / 2 ^ 16 == 169 * 256 + 254
is_link_local_unicast (v6 a) = a / 2 ^ 118 == 0x3FA

pub data HostError : Type 0 where
  empty_host : HostError
  local_host : HostError
  private_host : HostError

unfoldable pub check : Ip → Result HostError (Unit {0})
check ip =
    if is_loopback ip || is_link_local_unicast ip
    then err local_host
    else if any (λ n. contains n ip) webhook_blocked_ranges
    then err private_host
    else ok tt

unfoldable pub check_all : List Ip → Result HostError (Unit {0})
unfolding check
check_all [] = ok tt
check_all (ip ∷ ips) = let rest = check_all ips in elim (check ip) [ err e ↦ err e | ok u ↦ rest ]

-- `net.ParseIP` and `net.LookupIP`; the answer of the network is `none` where it is an error.
pub record Resolver : Type 0 where
  pub parse_ip : Text → Option Ip
  pub lookup_ip : Text → Option (List Ip)

abbrev pub check_found : Option (List Ip) → Result HostError (Unit {0})
check_found none = ok tt
check_found (some ips) = check_all ips

abbrev pub check_parsed : Option Ip → Result HostError (Unit {0}) → Result HostError (Unit {0})
check_parsed none r = r
check_parsed (some ip) r = check ip

unfoldable pub validate_webhook_host : Resolver → Text → Result HostError (Unit {0})
unfolding check check_all
validate_webhook_host net host =
    if is_empty host
    then err empty_host
    else check_parsed (net.parse_ip host) (check_found (net.lookup_ip host))
