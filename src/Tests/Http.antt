-- ===== src/Tests/Http.antt =====
-- The HTTP negotiation on a concrete reply.
use transproxify.Base.{ℕ, List, inr, some, map, true, ◌++◌, ◌≡◌, refl, [], ◌∷◌, codes, arith, ok}
use transproxify.Address.{zero_address}
use transproxify.Settings.{ProxySettings, http, tcp}
use transproxify.Wire.{Socket, chunk, eof, accept}
use transproxify.Upstream.Refines.{Shows}
use transproxify.Socks5.Greeting.{answer}
use transproxify.Http.{
  status_code, to_string, tunnel_request, get_http_proxy_status, proxy_negotiate,
}
use transproxify.Http.Reply.{get_http_proxy_status_lem}
use transproxify.Http.Granted.{proxy_negotiate_replied}
use transproxify.Http.Request.{Requested, proxy_negotiate-Requested}
use transproxify.Tcp.HttpTunnel.{http-delivered}
use transproxify.Tcp.{finished, run}
use transproxify.Tests.Tcp.{schedule, talking}

abbrev settings : ProxySettings
settings = record {
  proxy_protocol = http;
  proxied_protocol = tcp;
  username = codes "joe";
  password = codes "pw";
  proxy_address = zero_address;
}

port_digits : to_string 8080 ≡ codes "8080"
unfolding to_string
port_digits = refl

-- "HTTP/1.1 200 OK", one header line, an empty line, and a byte of the tunnel.
abbrev socket : Socket
socket = record {
  inbound =
      chunk b'H' (codes "TTP/1.1 20")
        (chunk b'0' (codes " OK\r\nVia: x\r") (chunk b'\n' (codes "\r\nS") eof));
  answers = accept 5 ∷ [];
  sent = [];
}

get_http_proxy_status_lem_example :
    Shows [] (get_http_proxy_status socket) (answer (ok 200) (codes "S") [])
unfolding status_code
get_http_proxy_status_lem_example = get_http_proxy_status_lem socket tt

proxy_negotiate_replied_example :
    Shows []
      (proxy_negotiate settings (codes "192.0.2.1") 80 socket)
      (answer (ok tt) (codes "S") (tunnel_request settings (codes "192.0.2.1") 80))
proxy_negotiate_replied_example =
    proxy_negotiate_replied settings (codes "192.0.2.1") 80 socket b'2' b'0' b'0' (codes "OK")
      (codes "Via: x" ∷ []) (codes "S") tt (omega arith) (omega arith) (omega arith) (omega arith)
      (omega arith) (((λ e. cc), omega arith), tt) refl

http-delivered_example :
    let host = codes "192.0.2.1" in
    let x = run true (proxy_negotiate settings host 80) (map some schedule) talking socket in
    (x.0 ≡ finished)
    × (x.1.proxy.sent ≡ tunnel_request settings host 80 ++ (7 ∷ 8 ∷ 9 ∷ []))
    × (x.1.client.sent ≡ codes "S")
http-delivered_example =
    http-delivered settings (codes "192.0.2.1") 80 schedule talking socket (codes "OK")
      (codes "Via: x" ∷ []) (codes "S") (omega arith) (omega arith) (((λ e. cc), omega arith), tt)
      refl (refl, tt) (refl, tt) (omega arith) (omega arith)

proxy_negotiate-Requested_example :
    (out : List ℕ) × ((proxy_negotiate settings (codes "a.org") 8080 socket).1.sent ≡ out)
    × Requested settings (codes "a.org") 8080 out (codes "S")
proxy_negotiate-Requested_example =
    proxy_negotiate-Requested settings (codes "a.org") 8080 socket (codes "S")
      (
        (λ e. omega arith, λ e. omega arith),
        (
          (λ e. omega arith, λ e. omega arith),
          (
            (λ e. omega arith, λ e. omega arith),
            ((λ e. omega arith, λ e. omega arith), ((λ e. omega arith, λ e. omega arith), tt)),
          ),
        ),
      )
      (omega arith)
      (inr (λ e. cc, λ e. cc), (λ e. omega arith, (λ e. omega arith, (λ e. omega arith, tt))))
      (omega arith, (omega arith, (omega arith, tt))) (omega arith, (omega arith, tt)) tt
