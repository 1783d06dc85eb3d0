-- ===== src/Tests/Settings.antt =====
-- ProxySettings.hpp on concrete arguments.
use transproxify.Base.{ℕ, ◌≡◌, ◌↔◌, List, [], ◌∷◌, Option, some, codes, ok}
use transproxify.Base.Int.{pos}
use transproxify.Address.{Hostent, af_inet}
use transproxify.Settings.{socks5, udp, ProxySettings, new_settings}
use transproxify.Settings.Valid.{Allows, asked, new_settings_iff}

-- Every name is 10.0.0.1.
abbrev resolver : List ℕ → Option Hostent
resolver name = some (record { h_addrtype = 2; h_addr = 10 ∷ 0 ∷ 0 ∷ 1 ∷ [] })

abbrev arguments : ProxySettings
arguments = record {
  proxy_protocol = socks5;
  proxied_protocol = udp;
  username = codes "joe";
  password = codes "pw";
  proxy_address = record { sin_family = 2; sin_port = 14340; s_addr = 16777226; sin_zero = 0 };
}

new_settings_iff_example :
    (new_settings resolver socks5 udp (codes "proxy") (pos 1080) (codes "joe") (codes "pw")
      ≡ ok arguments)
    ↔ ((server : Hostent) × (resolver (codes "proxy") ≡ some server)
        × (server.h_addrtype ≡ af_inet)
        × Allows socks5 udp (codes "joe") (codes "pw")
        × (arguments ≡ asked server socks5 udp (pos 1080) (codes "joe") (codes "pw")))
new_settings_iff_example =
    new_settings_iff resolver socks5 udp (codes "proxy") (pos 1080) (codes "joe") (codes "pw")
      arguments
