-- ===== src/Proxy/Tests.antt =====
-- The proxy helpers of pkg/utils/utils.go at concrete settings, and the theorems about them.
use webapp_wago.Base.{is_empty, ok, ◌≡◌, ◌↔◌, refl, false}
use webapp_wago.Base.Number.{atoi}
use webapp_wago.Base.Text.{codes, text_eq, to_lower, trim_space}
use webapp_wago.Proxy.{
  socks5, http, normalize_proxy_protocol, ProxyUrl, build_proxy_address, build_proxy_address-ok_iff,
}

proxy : Unit {0}
unfolding normalize_proxy_protocol build_proxy_address text_eq to_lower trim_space codes atoi
proxy = tt

by_port : normalize_proxy_protocol (codes "") (codes " 42500") ≡ socks5
unfolding proxy
by_port = refl

not_by_port : normalize_proxy_protocol (codes "ftp") (codes "42x") ≡ http
unfolding proxy
not_by_port = refl

build_proxy_address-ok_iff_example :
    ((u : ProxyUrl) × (build_proxy_address
          (codes "ftp")
          (codes "h")
          (codes "80")
          (codes "u")
          (codes "p")
        ≡ ok u))
    ↔ ((is_empty (trim_space (codes "h")) ≡ false) × (is_empty (trim_space (codes "80")) ≡ false))
build_proxy_address-ok_iff_example =
    build_proxy_address-ok_iff (codes "ftp") (codes "h") (codes "80") (codes "u") (codes "p")
