-- ===== src/Tests/Socks.antt =====
-- The SOCKS negotiations on concrete replies.
use transproxify.Base.{
  some, map, true, ℕ, ◌≡◌, refl, List, [], ◌∷◌, ◌++◌, codes, arith, ok, throw, Option, none,
}
use transproxify.Address.{SockAddr, Hostent, zero_address}
use transproxify.Settings.{ProxySettings, socks5, tcp}
use transproxify.Wire.{Socket, chunk, eof, broken, accept, pending}
use transproxify.Upstream.Refines.{Shows}
use transproxify.Socks5.{socks5_greet_and_authenticate, socks5_request_tunnel, proxy_negotiate}
use transproxify.Socks5.Greeting.{answer, offer, credentials, socks5_greet_and_authenticate_lem}
use transproxify.Socks5.Tunnel.{tunnel_request, socks5_request_tunnel_lem}
use transproxify.Socks5.Connect.{authenticated, negotiate_granted}
use transproxify.Socks5.Request.{Told, proxy_negotiate-Told}
use transproxify.Socks4
use transproxify.Socks4.Request.{Asked, proxy_negotiate-Asked}
use transproxify.Socks4.Connect
use transproxify.Tcp.Tunnel.{socks5-delivered}
use transproxify.Tcp.Socks4Tunnel.{socks4-delivered}
use transproxify.Tcp.{finished, run}
use transproxify.Tests.Tcp.{schedule, talking}

abbrev settings : ProxySettings
settings = record {
  proxy_protocol = socks5;
  proxied_protocol = tcp;
  username = codes "joe";
  password = codes "pw";
  proxy_address = zero_address;
}

-- 192.0.2.1:80
abbrev pub target : SockAddr
target = record { sin_family = 2; sin_port = 20480; s_addr = 16908480; sin_zero = 0 }

abbrev pub unresolved : List ℕ → Option Hostent
unresolved name = none

-- The reply arrives split in odd places, with the first byte of the tunnel behind it.
abbrev pub socket : Socket
socket = record {
  inbound = chunk 5 [] (
      chunk 2 (1 ∷ [])
        (chunk 0 (5 ∷ 0 ∷ 0 ∷ 1 ∷ 10 ∷ 0 ∷ []) (chunk 0 (9 ∷ 1 ∷ 187 ∷ 72 ∷ []) eof)));
  answers = accept 1 ∷ accept 0 ∷ [];
  sent = [];
}

socks5_greet_and_authenticate_lem_example :
    Shows [] (socks5_greet_and_authenticate settings socket) (
      answer
        (ok tt)
        (5 ∷ 0 ∷ 0 ∷ 1 ∷ 10 ∷ 0 ∷ 0 ∷ 9 ∷ 1 ∷ 187 ∷ 72 ∷ [])
        (offer settings ++ credentials settings))
socks5_greet_and_authenticate_lem_example =
    socks5_greet_and_authenticate_lem settings socket (omega arith) tt

-- The reply to an association, with the address and port of the relay.
abbrev granted : Socket
granted = record {
  inbound = chunk 5 (0 ∷ 0 ∷ []) (chunk 1 (10 ∷ 0 ∷ 0 ∷ 9 ∷ 4 ∷ 56 ∷ []) broken);
  answers = [];
  sent = [];
}

socks5_request_tunnel_lem_example : Shows [] (socks5_request_tunnel unresolved target 3 granted) (
    answer
      (ok (record { sin_family = 2; sin_port = 14340; s_addr = 150994954; sin_zero = 0 }))
      []
      (tunnel_request target 3))
socks5_request_tunnel_lem_example = socks5_request_tunnel_lem unresolved target 3 granted tt

negotiate_granted_example :
    let r = proxy_negotiate unresolved settings target socket in
    (r.0 ≡ ok tt)
    × (pending r.1 ≡ 72 ∷ [])
    × (r.1.sent ≡ offer settings ++ credentials settings ++ tunnel_request target 1)
negotiate_granted_example =
    negotiate_granted unresolved settings target socket (5 ∷ 2 ∷ 1 ∷ 0 ∷ [])
      (offer settings ++ credentials settings) (72 ∷ []) 0 10 0 0 9 1 187 (omega arith) tt
      (authenticated (λ e. cc)) refl

-- The proxy refuses.
abbrev refusing : Socket
refusing = record {
  inbound = chunk 0 (91 ∷ 0 ∷ []) (chunk 0 (0 ∷ 0 ∷ 0 ∷ 0 ∷ 7 ∷ []) eof);
  answers = [];
  sent = [];
}

proxy_negotiate_lem_example : Shows [] (Socks4.proxy_negotiate settings target refusing) (
    answer
      (throw "upstream proxy failed to establish connection to endpoint or rejected connection")
      (7 ∷ [])
      (Connect.request settings target))
proxy_negotiate_lem_example = Connect.proxy_negotiate_lem settings target refusing (omega arith) tt

-- The grant, with the first byte of the tunnel behind it.
abbrev pub granting : Socket
granting = record {
  inbound = chunk 0 (90 ∷ 0 ∷ []) (chunk 0 (0 ∷ 0 ∷ 0 ∷ 0 ∷ 72 ∷ []) eof);
  answers = accept 1 ∷ [];
  sent = [];
}

socks4-delivered_example :
    let x =
      run true (Socks4.proxy_negotiate settings target) (map some schedule) talking granting in
    (x.0 ≡ finished)
    × (x.1.proxy.sent ≡ Connect.request settings target ++ (7 ∷ 8 ∷ 9 ∷ []))
    × (x.1.client.sent ≡ 72 ∷ [])
socks4-delivered_example =
    socks4-delivered settings target schedule talking granting (72 ∷ []) 0 0 0 0 0 0 (omega arith)
      refl (refl, tt) (refl, tt) (omega arith) (omega arith)

socks5-delivered_example :
    let x =
      run true (proxy_negotiate unresolved settings target) (map some schedule) talking socket in
    (x.0 ≡ finished)
    × (x.1.proxy.sent
        ≡ (offer settings ++ credentials settings ++ tunnel_request target 1) ++ (7 ∷ 8 ∷ 9 ∷ []))
    × (x.1.client.sent ≡ 72 ∷ [])
socks5-delivered_example =
    socks5-delivered unresolved settings target schedule talking socket (5 ∷ 2 ∷ 1 ∷ 0 ∷ [])
      (offer settings ++ credentials settings) (72 ∷ []) 0 10 0 0 9 1 187 (omega arith)
      (authenticated (λ e. cc)) refl (refl, tt) (refl, tt) (omega arith) (omega arith)

-- The proxy has chosen the method 2 and learns "joe" and "pw".
proxy_negotiate-Told_example :
    (out : List ℕ) × ((proxy_negotiate unresolved settings target socket).1.sent ≡ out)
    × Told settings target (5 ∷ 2 ∷ 1 ∷ 0 ∷ []) out (71 ∷ [])
proxy_negotiate-Told_example =
    proxy_negotiate-Told unresolved settings target socket (5 ∷ 2 ∷ 1 ∷ 0 ∷ [])
      (offer settings ++ credentials settings) (72 ∷ []) (71 ∷ []) 0 10 0 0 9 1 187 (omega arith)
      (omega arith, (omega arith, (omega arith, tt))) (omega arith, (omega arith, tt)) (omega arith)
      (omega arith) tt (authenticated (λ e. cc)) refl

proxy_negotiate-Asked_example :
    (out : List ℕ) × ((Socks4.proxy_negotiate settings target refusing).1.sent ≡ out)
    × Asked settings target out (71 ∷ [])
proxy_negotiate-Asked_example =
    proxy_negotiate-Asked settings target refusing (71 ∷ []) (omega arith) (omega arith)
      (omega arith) tt
