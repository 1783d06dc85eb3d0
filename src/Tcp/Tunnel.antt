-- ===== src/Tcp/Tunnel.antt =====
-- `TcpProxy::run` from the first byte to the last.
use transproxify.Base.{
  ℕ, ◌<◌, ◌≡◌, refl, Option, ap, ◌∙◌, List, ◌∷◌, ◌++◌, length, map, some, true, Outcome, ok,
}
use transproxify.Address.{SockAddr, Hostent}
use transproxify.Settings.{ProxySettings}
use transproxify.Socks5.{proxy_negotiate}
use transproxify.Socks5.Greeting.{Fits}
use transproxify.Socks5.Tunnel.{tunnel_request}
use transproxify.Socks5.Connect.{Greeted, negotiate_t, negotiate-Refines, granted}
use transproxify.Upstream.Refines.{Transcript, Refines}
use transproxify.Wire.{Socket, pending}
use transproxify.Upstream.{M, pure}
use transproxify.Tcp.{Polled, finished, relay, relay_after, run, direct_run}
use transproxify.Tcp.Delivery.{run-finished}
use transproxify.Tcp.Live.{IsGood}
use transproxify.Tcp.Progress.{client_rounds, proxy_rounds, relay-finished}

after-finished :
    (polls : List Polled) (client after : Socket) (n : Outcome (Unit {0}) × Socket)
    → n ≡ (ok tt, after)
    → (relay (map some polls) client after).0 ≡ finished
    → (relay_after (map some polls) client n).0 ≡ finished
unfolding relay_after
after-finished polls client after n e h = ap (λ x. (relay_after (map some polls) client x).0) e ∙ h

-- `DirectTcpProxy::run` is `TcpProxy::run` with no negotiation, but for one message.
pub direct_run-run :
    (polls : List (Option Polled)) (client target : Socket)
    → direct_run true polls client target ≡ run true (pure tt) polls client target
unfolding direct_run run relay_after
direct_run-run polls client target = refl

-- Let the negotiation succeed and leave the socket to the proxy in some state, from which the
-- proxy's stream ends without an error, as the client's does, and let the kernel refuse no write on
-- either socket. If `poll` reports no error and reports each socket in more rounds than bytes come
-- from it, `run` comes to its end, and it has given the client exactly the bytes that the
-- negotiation has left unread, and the proxy all bytes of the client behind those it was sent
-- before.
run-delivered :
    (proxy_negotiate : M (Unit {0})) (polls : List Polled) (client proxy after : Socket)
    → proxy_negotiate proxy ≡ (ok tt, after)
    → IsGood client
    → IsGood after
    → length (pending client) < client_rounds polls
    → length (pending after) < proxy_rounds polls
    → let x = run true proxy_negotiate (map some polls) client proxy in
      (x.0 ≡ finished)
      × (x.1.proxy.sent ≡ after.sent ++ pending client)
      × (x.1.client.sent ≡ client.sent ++ pending after)
unfolding run
run-delivered proxy_negotiate polls client proxy after e g h n m =
    let over =
      after-finished polls client after (proxy_negotiate proxy) e
        (relay-finished polls client after g h n m) in
    let f = run-finished proxy_negotiate (map some polls) client proxy over in
    (
      over,
      f.0 ∙ ap (λ x. x.1.sent ++ pending client) e,
      f.1 ∙ ap (λ x. client.sent ++ pending x.1) e,
    )

ok-pair : (x : Outcome (Unit {0}) × Socket) → x.0 ≡ ok tt → x ≡ (ok tt, x.1)
ok-pair x h = ap (λ o. (o, x.1)) h

-- The negotiation is told by a transcript, and the bytes that arrive make it succeed.
pub run-Refines :
    (proxy_negotiate : M (Unit {0})) (f : List ℕ → Transcript (Unit {0})) (polls : List Polled)
    (client proxy : Socket) (tunnel sent : List ℕ)
    → Refines proxy_negotiate f
    → f (pending proxy) ≡ record { outcome = ok tt; rest = tunnel; sent = sent }
    → IsGood client
    → IsGood proxy
    → length (pending client) < client_rounds polls
    → length tunnel < proxy_rounds polls
    → let x = run true proxy_negotiate (map some polls) client proxy in
      (x.0 ≡ finished)
      × (x.1.proxy.sent ≡ (proxy.sent ++ sent) ++ pending client)
      × (x.1.client.sent ≡ client.sent ++ tunnel)
run-Refines proxy_negotiate f polls client proxy tunnel sent refines told g h n m =
    let v = refines.shows proxy h.1 in
    let rest : pending (proxy_negotiate proxy).1 ≡ tunnel = v.rest ∙ ap (λ t. t.rest) told in
    let r =
      run-delivered proxy_negotiate polls client proxy (proxy_negotiate proxy).1
        (ok-pair (proxy_negotiate proxy) (v.outcome ∙ ap (λ t. t.outcome) told)) g
        (refines.ending proxy ∙ h.0, v.willing) n (rw rest m) in
    (
      r.0,
      r.1 ∙ ap (λ u. u ++ pending client) (v.sent ∙ ap (λ t. proxy.sent ++ t.sent) told),
      r.2 ∙ ap (λ u. client.sent ++ u) rest,
    )

-- A connection through a SOCKS5 proxy, from the first byte to the last. Let the proxy accept the
-- greeting, grant the connection with an IPv4 address and send the bytes of the tunnel, let both
-- streams end without an error and the kernel refuse no write, and let `poll` report no error and
-- each socket in more rounds than bytes of the tunnel come from it. Then `run` comes to its end,
-- and it has sent the proxy the offer, the credentials if they were chosen, one CONNECT request for
-- the target and then all bytes of the client, and it has given the client exactly the bytes of the
-- tunnel.
pub socks5-delivered :
    (gethostbyname : List ℕ → Option Hostent) (settings : ProxySettings) (target : SockAddr)
    (polls : List Polled) (client proxy : Socket) (reply sent tunnel : List ℕ)
    (reserved a b c d x y : ℕ)
    → Fits settings
    → Greeted settings reply sent
    → pending proxy ≡ reply ++ (5 ∷ 0 ∷ reserved ∷ 1 ∷ a ∷ b ∷ c ∷ d ∷ x ∷ y ∷ tunnel)
    → IsGood client
    → IsGood proxy
    → length (pending client) < client_rounds polls
    → length tunnel < proxy_rounds polls
    → let x =
        run true (proxy_negotiate gethostbyname settings target) (map some polls) client proxy in
      (x.0 ≡ finished)
      × (x.1.proxy.sent ≡ (proxy.sent ++ (sent ++ tunnel_request target 1)) ++ pending client)
      × (x.1.client.sent ≡ client.sent ++ tunnel)
socks5-delivered gethostbyname settings target polls client proxy reply sent tunnel reserved a b c d
      x y fits greeted come g h n m =
    run-Refines (proxy_negotiate gethostbyname settings target)
      (negotiate_t gethostbyname settings target) polls client proxy tunnel
      (sent ++ tunnel_request target 1) (negotiate-Refines gethostbyname settings target fits)
      (ap (negotiate_t gethostbyname settings target) come
        ∙ granted gethostbyname settings target tunnel reserved a b c d x y greeted)
      g h n m
