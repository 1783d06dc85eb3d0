-- ===== src/Main/Delivery.antt =====
-- From the command line to the bytes of a connection.
use mathlib.Core.Path.{subst}
use transproxify.Base.{
  ◌⊎◌, inl, inr, arith, refl, ℕ, ◌≤◌, ◌<◌, ◌≡◌, sym, List, ◌∷◌, ◌++◌, length, Bool, Option, some,
  codes, Outcome,
}
use transproxify.Base.Int.{ℤ}
use transproxify.Address.{SockAddr, Hostent}
use transproxify.Settings.{ProxyProtocol, direct, http, socks4, socks5, tcp, ProxySettings}
use transproxify.Settings.Valid.{Allows}
use transproxify.Wire.{pending}
use transproxify.Socks5.Greeting.{Fits}
use transproxify.Socks5.Tunnel.{tunnel_request}
use transproxify.Socks5.Connect.{Greeted}
use transproxify.Tcp.{Polled, Ended, Relay}
use transproxify.Tcp.Progress.{client_rounds, proxy_rounds}
use transproxify.Udp.Proxy.{Descriptors, UdpProxy, new_direct_udp_proxy, new_socks5_udp_proxy}
use transproxify.UdpServer.{Answers, construct}
use transproxify.TcpServer.{ChildAnswers, exited, target_found, child}
use transproxify.TcpServer.Tunnel.{Works, Delivered, Grants, by_socks5, child-Delivered}
use transproxify.Main.{main, tcp_server, udp_server}
use transproxify.Main.Asked.{Upstream}
use transproxify.Main.Options.{last_of}
use transproxify.Main.Started.{Sound, main-Sound}

Allows-lengths :
    (p : ProxyProtocol) (u w : List ℕ)
    → Allows p tcp u w
    → p ≡ socks5
    → (length u ≤ 255) × (length w ≤ 255)
Allows-lengths p u w h e = let a = subst (λ q. Allows q tcp u w) e h in (a.1, a.2)

-- Credentials with which the program runs fit into the messages of SOCKS5.
started-Fits :
    (gethostbyname : List ℕ → Option Hostent) (given : List (ℕ × List ℕ)) (others : List (List ℕ))
    (input : List ℕ) (echo : Bool) (settings : ProxySettings) (port : ℤ)
    → (main gethostbyname given others input echo).0 ≡ tcp_server settings port
    → settings.proxy_protocol ≡ socks5
    → Fits settings
started-Fits gethostbyname given others input echo settings port e p =
    let (f, asked) =
      subst (Sound gethostbyname given others input) e
        (main-Sound gethostbyname given others input echo).0 in
    Allows-lengths settings.proxy_protocol settings.username settings.password f.2 p

-- Let the command line start the TCP server with a SOCKS5 proxy. Take a process for a connection
-- whose target and peer the kernel tells. Let it be tied to its parent, `socket` and `connect`
-- succeed, the proxy accept the greeting, grant the connection with an IPv4 address and send the
-- bytes of the tunnel, both streams end without an error, the kernel refuse no write, and `poll`
-- report no error and each socket in more rounds than bytes of the tunnel come from it. Then the
-- process exits with 0; the proxy has been sent the negotiation with the credentials of the
-- settings, one CONNECT request for the target and then all bytes of the client, and the client
-- exactly the bytes of the tunnel. That the credentials fit into the negotiation is no condition,
-- since the program has checked it.
pub started-Delivered :
    (gethostbyname : List ℕ → Option Hostent) (inet_ntop : ℕ → List ℕ) (given : List (ℕ × List ℕ))
    (others : List (List ℕ)) (input : List ℕ) (echo : Bool) (settings : ProxySettings) (port : ℤ)
    (k : ChildAnswers) (polls : List Polled) (up : ℕ) (allow_direct : Bool) (listening fd : ℕ)
    (d : Descriptors) (client target : SockAddr) (reply sent tunnel : List ℕ)
    (reserved a b c e x y : ℕ)
    → (main gethostbyname given others input echo).0 ≡ tcp_server settings port
    → settings.proxy_protocol ≡ socks5
    → Works k polls up
    → target_found allow_direct k ≡ some target
    → k.peer ≡ some client
    → Greeted settings reply sent
    → pending k.upstream ≡ reply ++ (5 ∷ 0 ∷ reserved ∷ 1 ∷ a ∷ b ∷ c ∷ e ∷ x ∷ y ∷ tunnel)
    → length (pending k.client) < client_rounds polls
    → length tunnel < proxy_rounds polls
    → let w = child gethostbyname inet_ntop allow_direct settings listening fd k d in
      (w.fate ≡ exited 0)
      × ((t : Ended × Relay) × (w.tunnel ≡ some t)
          × Delivered k.client k.upstream (sent ++ tunnel_request target 1) tunnel t)
started-Delivered gethostbyname inet_ntop given others input echo settings port k polls up
      allow_direct listening fd d client target reply sent tunnel reserved a b c e x y started p
      works found peer greeted come long m =
    child-Delivered gethostbyname inet_ntop settings k polls up works long allow_direct listening fd
      d client target (sent ++ tunnel_request target 1) tunnel found peer
      (subst (λ l. Grants inet_ntop settings target l (sent ++ tunnel_request target 1) tunnel)
        (sym come)
        (by_socks5 reply sent reserved a b c e x y tunnel p
          (started-Fits gethostbyname given others input echo settings port started p) greeted))
      m

-- The proxy that the last option -t names is the one that `construct` makes.
abbrev pub Constructs :
    (List ℕ → Option Hostent)
    → List (ℕ × List ℕ)
    → ProxySettings
    → Answers
    → ℕ
    → SockAddr
    → SockAddr
    → Descriptors
    → Outcome UdpProxy × Descriptors
    → Type 0
Constructs gethostbyname given settings k now client target d made =
    ((last_of b't' given ≡ some (codes "direct"))
      × (made ≡ new_direct_udp_proxy k.for_direct now client target d))
    ⊎ ((last_of b't' given ≡ some (codes "socks5"))
        × (made ≡ new_socks5_udp_proxy gethostbyname settings k.for_socks5 now client target d))

protocol_construct :
    (gethostbyname : List ℕ → Option Hostent) (given : List (ℕ × List ℕ)) (p : ProxyProtocol)
    (settings : ProxySettings) (k : Answers) (now : ℕ) (client target : SockAddr) (d : Descriptors)
    → (p ≡ direct) ⊎ (p ≡ socks5)
    → Upstream p (last_of b't' given)
    → Constructs gethostbyname given settings k now client target d
        (construct gethostbyname p settings k now client target d)
protocol_construct gethostbyname given direct settings k now client target d h u = inl (u, refl)
protocol_construct gethostbyname given socks5 settings k now client target d h u = inr (u, refl)
protocol_construct gethostbyname given http settings k now client target d h u =
    absurd (ground arith)
protocol_construct gethostbyname given socks4 settings k now client target d h u =
    absurd (ground arith)

-- Where the command line starts the UDP server, its last option -t names direct connections or
-- SOCKS5, and each new proxy is made by the constructor of the class that it names. So the case of
-- an invalid proxy protocol is never reached.
pub started-construct :
    (gethostbyname : List ℕ → Option Hostent) (given : List (ℕ × List ℕ)) (others : List (List ℕ))
    (input : List ℕ) (echo : Bool) (settings : ProxySettings) (port : ℤ) (k : Answers) (now : ℕ)
    (client target : SockAddr) (d : Descriptors)
    → (main gethostbyname given others input echo).0 ≡ udp_server settings port
    → Constructs gethostbyname given settings k now client target d
        (construct gethostbyname settings.proxy_protocol settings k now client target d)
started-construct gethostbyname given others input echo settings port k now client target d e =
    let (f, protocol, asked) =
      subst (Sound gethostbyname given others input) e
        (main-Sound gethostbyname given others input echo).0 in
    protocol_construct gethostbyname given settings.proxy_protocol settings k now client target d
      protocol asked.upstream
