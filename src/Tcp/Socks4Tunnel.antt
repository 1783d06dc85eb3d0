-- ===== src/Tcp/Socks4Tunnel.antt =====
-- `TcpProxy::run` with the negotiation of SOCKS4, from the first byte to the last.
use transproxify.Base.{
  ℕ, suc, ok, ◌≤◌, ◌<◌, ◌≡◌, refl, List, ◌∷◌, ◌++◌, length, leb, map, some, true, arith,
}
use transproxify.Address.{SockAddr}
use transproxify.Settings.{ProxySettings}
use transproxify.Wire.{Socket, pending}
use transproxify.Upstream.{packet_size}
use transproxify.Socks4.{proxy_negotiate}
use transproxify.Socks4.Connect.{reply, request, negotiate-Refines}
use transproxify.Tcp.{Polled, finished, run}
use transproxify.Tcp.Live.{IsGood}
use transproxify.Tcp.Progress.{client_rounds, proxy_rounds}
use transproxify.Tcp.Tunnel.{run-Refines}

fitting : (n : ℕ) → n ≤ packet_size → leb n packet_size ≡ true
fitting n h = ground arith

granted :
    (sent tunnel : List ℕ) (x y a b c d : ℕ)
    → reply sent (0 ∷ 90 ∷ x ∷ y ∷ a ∷ b ∷ c ∷ d ∷ tunnel)
      ≡ record { outcome = ok tt; rest = tunnel; sent = sent }
granted sent tunnel x y a b c d = rw long refl
  where
    long : leb 6 (suc (suc (suc (suc (suc (suc (length tunnel))))))) ≡ true
    long = ground arith

-- A connection through a SOCKS4 proxy, from the first byte to the last. Let the request fit into
-- the buffer, let the proxy answer with version 0, result 90 and six more bytes, and then send the
-- bytes of the tunnel, let both streams end without an error and the kernel refuse no write, and
-- let `poll` report no error and each socket in more rounds than bytes of the tunnel come from it.
-- Then `run` comes to its end, and it has sent the proxy one CONNECT request and then all bytes of
-- the client, and it has given the client exactly the bytes of the tunnel.
pub socks4-delivered :
    (settings : ProxySettings) (target : SockAddr) (polls : List Polled) (client proxy : Socket)
    (tunnel : List ℕ) (x y a b c d : ℕ)
    → length (request settings target) ≤ packet_size
    → pending proxy ≡ 0 ∷ 90 ∷ x ∷ y ∷ a ∷ b ∷ c ∷ d ∷ tunnel
    → IsGood client
    → IsGood proxy
    → length (pending client) < client_rounds polls
    → length tunnel < proxy_rounds polls
    → let x = run true (proxy_negotiate settings target) (map some polls) client proxy in
      (x.0 ≡ finished)
      × (x.1.proxy.sent ≡ (proxy.sent ++ request settings target) ++ pending client)
      × (x.1.client.sent ≡ client.sent ++ tunnel)
socks4-delivered settings target polls client proxy tunnel x y a b c d short come g k n m =
    run-Refines (proxy_negotiate settings target) _ polls client proxy tunnel
      (request settings target) (negotiate-Refines settings target (omega arith))
      (rw (come, fitting (length (request settings target)) short)
        (granted (request settings target) tunnel x y a b c d))
      g k n m
