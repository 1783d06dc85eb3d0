-- ===== src/TcpServer/Tunnel.antt =====
-- A connection through the server, from `accept` to the exit of its process.
use mathlib.Core.Path.{subst}
use transproxify.Base.{
  ℕ, ◌≤◌, ◌<◌, ◌≡◌, refl, sym, ap, ◌∙◌, List, [], ◌∷◌, ◌++◌, length, map, Bool, true, if◌then◌else◌,
  Option, some, arith,
}
use transproxify.Address.{SockAddr, Hostent, htons}
use transproxify.Settings.{ProxyProtocol, ProxySettings, direct, http, socks4, socks5}
use transproxify.Proxy.{new_proxy_base}
use transproxify.Wire.{Socket, pending}
use transproxify.Upstream.{packet_size, pure}
use transproxify.Upstream.Refines.{pure_t, pure-Refines}
use transproxify.Http
use transproxify.Http.Granted.{Plain, Headers, lines, status_line}
use transproxify.Socks4.Connect
use transproxify.Socks5.Greeting.{Fits}
use transproxify.Socks5.Tunnel
use transproxify.Socks5.Connect.{Greeted}
use transproxify.Tcp.{Polled, Ended, Relay, running, finished, failing, direct_run}
use transproxify.Tcp.Live.{IsGood}
use transproxify.Tcp.Progress.{client_rounds, proxy_rounds}
use transproxify.Tcp.Tunnel.{run-Refines, direct_run-run, socks5-delivered}
use transproxify.Tcp.HttpTunnel.{http-delivered}
use transproxify.Tcp.Socks4Tunnel.{socks4-delivered}
use transproxify.Udp.Proxy.{Descriptors, closed}
use transproxify.TcpServer.{
  ChildAnswers, Connection, gone, exited, target_found, run_protocol, run_proxy, child,
  address_or_exit, end_child, after_run,
}

-- What an upstream that grants the connection sends in all, what it is sent before the client's
-- bytes, and what of its own bytes the client is meant to have.
pub data Grants (inet_ntop : ℕ → List ℕ) (settings : ProxySettings) (target : SockAddr)
    : List ℕ → List ℕ → List ℕ → Type 0 where
  directly :
      (tunnel : List ℕ)
      → settings.proxy_protocol ≡ direct
      → Grants inet_ntop settings target tunnel [] tunnel
  by_http :
      (reason : List ℕ) (headers : List (List ℕ)) (tunnel : List ℕ)
      → settings.proxy_protocol ≡ http
      → Plain reason
      → length reason ≤ 242
      → Headers headers
      → Grants inet_ntop settings target
          (status_line b'2' b'0' b'0' reason ++ (b'\r' ∷ b'\n' ∷ lines headers tunnel))
          (Http.tunnel_request settings (inet_ntop target.s_addr) (htons target.sin_port))
          tunnel
  by_socks4 :
      (x y a b c d : ℕ) (tunnel : List ℕ)
      → settings.proxy_protocol ≡ socks4
      → length (Connect.request settings target) ≤ packet_size
      → Grants inet_ntop settings target
          (0 ∷ 90 ∷ x ∷ y ∷ a ∷ b ∷ c ∷ d ∷ tunnel)
          (Connect.request settings target)
          tunnel
  by_socks5 :
      (reply sent : List ℕ) (reserved a b c d x y : ℕ) (tunnel : List ℕ)
      → settings.proxy_protocol ≡ socks5
      → Fits settings
      → Greeted settings reply sent
      → Grants inet_ntop settings target
          (reply ++ (5 ∷ 0 ∷ reserved ∷ 1 ∷ a ∷ b ∷ c ∷ d ∷ x ∷ y ∷ tunnel))
          (sent ++ Tunnel.tunnel_request target 1)
          tunnel

-- The relay has come to its end, and each side has the bytes meant for it.
abbrev pub Delivered : Socket → Socket → List ℕ → List ℕ → Ended × Relay → Type 0
Delivered client upstream sent tunnel t =
    (t.0 ≡ finished)
    × (t.1.proxy.sent ≡ (upstream.sent ++ sent) ++ pending client)
    × (t.1.client.sent ≡ client.sent ++ tunnel)

-- All answers that concern the kernel's own work are good.
pub record Works (k : ChildAnswers) (polls : List Polled) (fd : ℕ) : Type 0 where
  pub tied : k.tied ≡ true
  pub parent_lives : k.parent_lives ≡ true
  pub has_socket : k.upstream_fd ≡ some fd
  pub connected : k.connected ≡ true
  pub polled : k.polls ≡ map some polls
  pub client_good : IsGood k.client
  pub upstream_good : IsGood k.upstream

chosen {ℓ} : {A : Type ℓ} (b : Bool) (x y : A) → b ≡ true → (if b then x else y) ≡ x
chosen b x y h = rw h refl

known :
    (fd : ℕ) (o : Option SockAddr) (d : Descriptors) (rest : SockAddr → Connection) (a : SockAddr)
    → o ≡ some a
    → address_or_exit fd o d rest ≡ rest a
unfolding address_or_exit
known fd o d rest a h = rw h refl

module _ (gethostbyname : List ℕ → Option Hostent) (inet_ntop : ℕ → List ℕ)
    (settings : ProxySettings) (k : ChildAnswers) (polls : List Polled) (up : ℕ)
    (works : Works k polls up) (long : length (pending k.client) < client_rounds polls) where
  direct-Delivered :
      (tunnel : List ℕ)
      → pending k.upstream ≡ tunnel
      → length tunnel < proxy_rounds polls
      → Delivered k.client k.upstream [] tunnel
          (direct_run true (map some polls) k.client k.upstream)
  direct-Delivered tunnel e m = rw (direct_run-run (map some polls) k.client k.upstream) (
      run-Refines (pure tt) (pure_t tt) polls k.client k.upstream tunnel [] (pure-Refines tt)
        (ap (pure_t tt) e) works.client_good works.upstream_good long m)

  -- What the switch over the protocols does once there is a connection.
  Runs : ProxyProtocol → SockAddr → SockAddr → List ℕ → List ℕ → Type 0
  Runs q client target sent tunnel = Delivered k.client k.upstream sent tunnel (
      run_protocol gethostbyname inet_ntop q settings
        (new_proxy_base inet_ntop settings client target) true (map some polls) k.client k.upstream)

  protocol-Runs :
      (client target : SockAddr) (come sent tunnel : List ℕ)
      → pending k.upstream ≡ come
      → Grants inet_ntop settings target come sent tunnel
      → length tunnel < proxy_rounds polls
      → Runs settings.proxy_protocol client target sent tunnel
  unfolding Runs run_protocol
  protocol-Runs client target _ _ _ e (directly tunnel p) m =
      subst (λ q. Runs q client target [] tunnel) (sym p) (direct-Delivered tunnel e m)
  protocol-Runs client target _ _ _ e (by_http reason headers tunnel p a b c) m =
      subst
        (λ q.
          Runs q client target
            (Http.tunnel_request settings (inet_ntop target.s_addr) (htons target.sin_port)) tunnel)
        (sym p)
        (http-delivered settings (inet_ntop target.s_addr) (htons target.sin_port) polls k.client
          k.upstream reason headers tunnel a b c e works.client_good works.upstream_good long m)
  protocol-Runs client target _ _ _ e (by_socks4 x y a b c d tunnel p s) m =
      subst (λ q. Runs q client target (Connect.request settings target) tunnel) (sym p)
        (socks4-delivered settings target polls k.client k.upstream tunnel x y a b c d s e
          works.client_good works.upstream_good long m)
  protocol-Runs client target _ _ _ e (by_socks5 reply sent z a b c d x y tunnel p fits greeted) m =
      subst (λ q. Runs q client target (sent ++ Tunnel.tunnel_request target 1) tunnel) (sym p)
        (socks5-delivered gethostbyname settings target polls k.client k.upstream reply sent tunnel
          z a b c d x y fits greeted e works.client_good works.upstream_good long m)

  run_proxy-Delivered :
      (client target : SockAddr) (come sent tunnel : List ℕ)
      → pending k.upstream ≡ come
      → Grants inet_ntop settings target come sent tunnel
      → length tunnel < proxy_rounds polls
      → Delivered k.client k.upstream sent tunnel
          (run_proxy gethostbyname inet_ntop settings k client target)
  unfolding run_proxy Runs
  run_proxy-Delivered client target come sent tunnel e g m =
      rw (works.has_socket, works.connected, works.polled)
        (protocol-Runs client target come sent tunnel e g m)

  ended-Delivered :
      (fd : ℕ) (d : Descriptors) (sent tunnel : List ℕ) (t : Ended × Relay)
      → Delivered k.client k.upstream sent tunnel t
      → let c = end_child fd k.upstream_fd d t in
        (c.fate ≡ exited 0)
        × ((t' : Ended × Relay) × (c.tunnel ≡ some t')
            × Delivered k.client k.upstream sent tunnel t')
  unfolding end_child after_run
  ended-Delivered fd d sent tunnel (finished, r) h = (refl, ((finished, r), refl, h))
  ended-Delivered fd d sent tunnel (running, r) h = absurd (ground arith)
  ended-Delivered fd d sent tunnel (failing e, r) h = absurd (ground arith)

  -- A process for a connection whose target and peer the kernel tells. Let the process be tied to
  -- its parent, `socket` and `connect` succeed, the upstream grant the connection in the words of
  -- the protocol in use, both streams end without an error, the kernel refuse no write, and `poll`
  -- report no error and each socket in more rounds than bytes of the tunnel come from it. Then the
  -- process exits with 0; before, its relay has come to its end, the upstream has been sent the
  -- negotiation for that target and then all bytes of the client, and the client exactly the bytes
  -- of the tunnel.
  pub child-Delivered :
      (allow_direct : Bool) (listening fd : ℕ) (d : Descriptors) (client target : SockAddr)
      (sent tunnel : List ℕ)
      → target_found allow_direct k ≡ some target
      → k.peer ≡ some client
      → Grants inet_ntop settings target (pending k.upstream) sent tunnel
      → length tunnel < proxy_rounds polls
      → let c = child gethostbyname inet_ntop allow_direct settings listening fd k d in
        (c.fate ≡ exited 0)
        × ((t : Ended × Relay) × (c.tunnel ≡ some t) × Delivered k.client k.upstream sent tunnel t)
  unfolding child address_or_exit
  child-Delivered allow_direct listening fd d client target sent tunnel e e' g m =
      subst
        (λ c.
          (c.fate ≡ exited 0)
          × ((t : Ended × Relay) × (c.tunnel ≡ some t)
              × Delivered k.client k.upstream sent tunnel t))
        (sym (
          chosen k.tied _ (gone d) works.tied
          ∙ chosen k.parent_lives _ (gone d) works.parent_lives
          ∙ known fd (target_found allow_direct k) (closed (some listening) d) _ target e
          ∙ known fd k.peer (closed (some listening) d) _ client e'))
        (ended-Delivered fd (closed (some listening) d) sent tunnel
          (run_proxy gethostbyname inet_ntop settings k client target)
          (run_proxy-Delivered client target (pending k.upstream) sent tunnel refl g m))
