-- ===== src/Tcp/HttpTunnel.antt =====
-- `TcpProxy::run` with the negotiation of HTTP, from the first byte to the last.
use transproxify.Base.{ℕ, ◌≤◌, ◌<◌, ◌≡◌, List, ◌∷◌, ◌++◌, length, map, some, true, arith}
use transproxify.Settings.{ProxySettings}
use transproxify.Wire.{Socket, pending}
use transproxify.Http.{proxy_negotiate, tunnel_request}
use transproxify.Http.Granted.{
  Plain, Headers, lines, status_line, negotiate_t, negotiate-Refines, negotiate-replied,
}
use transproxify.Tcp.{Polled, finished, run}
use transproxify.Tcp.Live.{IsGood}
use transproxify.Tcp.Progress.{client_rounds, proxy_rounds}
use transproxify.Tcp.Tunnel.{run-Refines}

-- A connection through an HTTP proxy, from the first byte to the last. Let the proxy answer with
-- status 200 in a status line that fits into the buffer, with header lines and an empty line, and
-- then send the bytes of the tunnel, let both streams end without an error and the kernel refuse no
-- write, and let `poll` report no error and each socket in more rounds than bytes of the tunnel
-- come from it. Then `run` comes to its end, and it has sent the proxy the CONNECT request and then
-- all bytes of the client, and it has given the client exactly the bytes of the tunnel.
pub http-delivered :
    (settings : ProxySettings) (host : List ℕ) (port : ℕ) (polls : List Polled)
    (client proxy : Socket) (reason : List ℕ) (headers : List (List ℕ)) (tunnel : List ℕ)
    → Plain reason
    → length reason ≤ 242
    → Headers headers
    → pending proxy ≡ status_line b'2' b'0' b'0' reason ++ (b'\r' ∷ b'\n' ∷ lines headers tunnel)
    → IsGood client
    → IsGood proxy
    → length (pending client) < client_rounds polls
    → length tunnel < proxy_rounds polls
    → let x = run true (proxy_negotiate settings host port) (map some polls) client proxy in
      (x.0 ≡ finished)
      × (x.1.proxy.sent ≡ (proxy.sent ++ tunnel_request settings host port) ++ pending client)
      × (x.1.client.sent ≡ client.sent ++ tunnel)
http-delivered settings host port polls client proxy reason headers tunnel plain short h come g k n
      m =
    run-Refines (proxy_negotiate settings host port) (negotiate_t settings host port) polls client
      proxy tunnel (tunnel_request settings host port) (negotiate-Refines settings host port)
      (negotiate-replied settings host port b'2' b'0' b'0' reason headers tunnel (pending proxy)
        (omega arith) (omega arith) (omega arith) plain short h come)
      g k n m
