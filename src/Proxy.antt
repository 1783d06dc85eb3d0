-- ===== src/Proxy.antt =====
-- Proxy.hpp: what every proxy keeps of its client and its target. The text of an address is what
-- inet_ntop gives.
use transproxify.Base.{ℕ, List}
use transproxify.Address.{SockAddr, htons}
use transproxify.Settings.{ProxySettings}

pub record Proxy : Type 0 where
  pub settings : ProxySettings
  pub client_address : SockAddr
  pub client_host : List ℕ
  pub client_port : ℕ
  pub target_address : SockAddr
  pub target_host : List ℕ
  pub target_port : ℕ

-- The constructor `Proxy::Proxy`; `ntohs` is `htons`.
abbrev pub new_proxy_base : (ℕ → List ℕ) → ProxySettings → SockAddr → SockAddr → Proxy
new_proxy_base inet_ntop settings client_address target_address = record {
  settings = settings;
  client_address = client_address;
  client_host = inet_ntop client_address.s_addr;
  client_port = htons client_address.sin_port;
  target_address = target_address;
  target_host = inet_ntop target_address.s_addr;
  target_port = htons target_address.sin_port;
}
