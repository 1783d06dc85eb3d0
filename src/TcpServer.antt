-- ===== src/TcpServer.antt =====
-- TcpServer.hpp: the listening process, and one process for each connection. What the kernel
-- answers is an input. Descriptors are those of Udp.Proxy, and a fork copies their table.
pub mod Parent
pub mod Child
pub mod Tunnel
use transproxify.Base.{
  ℕ, List, [], ◌∷◌, Bool, true, false, ◌&&◌, Option, none, some, if◌then◌else◌, Outcome, ok, throw,
}
use transproxify.Base.Int.{ℤ, to_uint16}
use transproxify.Address.{SockAddr, Hostent, zero_address, af_inet, htons}
use transproxify.Settings.{ProxyProtocol, ProxySettings, direct, http, socks4, socks5}
use transproxify.Proxy.{Proxy, new_proxy_base}
use transproxify.Wire.{Socket}
use transproxify.Http
use transproxify.Socks4
use transproxify.Socks5
use transproxify.Tcp.{Polled, Relay, Ended, running, finished, failing, run, direct_run}
use transproxify.Udp.Proxy.{Fd, Descriptors, opened, closed}

-- What is answered in the process of one connection: whether it was tied to its parent and the
-- parent lives, the addresses that getsockopt, getsockname and getpeername find, the results of
-- `socket` and `connect`, and what `poll` reports and both streams carry.
pub record ChildAnswers : Type 0 where
  pub tied : Bool
  pub parent_lives : Bool
  pub original_target : Option SockAddr
  pub own_address : Option SockAddr
  pub peer : Option SockAddr
  pub upstream_fd : Fd
  pub connected : Bool
  pub polls : List (Option Polled)
  pub client : Socket
  pub upstream : Socket

-- The process relays still, or has exited.
pub data Fate : Type 0 where
  working : Fate
  exited : ℕ → Fate

-- How a process stands, its descriptors (as it exits, if it has), what its proxy did, and whether
-- the call of `connect` that shall reset the connection found its descriptor open.
pub record Connection : Type 0 where
  pub fate : Fate
  pub descriptors : Descriptors
  pub tunnel : Option (Ended × Relay)
  pub reset : Bool

-- `exit` before there is a proxy
abbrev pub gone : Descriptors → Connection
gone d = record { fate = exited 1; descriptors = d; tunnel = none; reset = false }

-- The address, or the client's socket is closed and the process exits.
address_or_exit : ℕ → Option SockAddr → Descriptors → (SockAddr → Connection) → Connection
address_or_exit fd none d rest = gone (closed (some fd) d)
address_or_exit fd (some address) d rest = rest address

abbrev pub first_of : Option SockAddr → Option SockAddr → Option SockAddr
first_of none b = b
first_of (some a) b = some a

-- The address that get_target_address finds, with or without ALLOW_DIRECT_CONNECTIONS.
abbrev pub target_found : Bool → ChildAnswers → Option SockAddr
target_found allow_direct k =
    first_of k.original_target (if allow_direct then k.own_address else none)

-- `connect` fails on the descriptor -1.
abbrev pub connects : Fd → Bool → Bool
connects none connected = false
connects (some fd) connected = connected

-- `run` has come to its end, and its cleaners have closed both sockets.
after_run : ℕ → Fd → Descriptors → Ended × Relay → Connection
after_run fd upstream d t =
    let d' = closed (some fd) (closed upstream (opened upstream d)) in
    record { fate = exited 0; descriptors = closed (some fd) d'; tunnel = some t; reset = d' fd }

-- The process as far as its answers go.
end_child : ℕ → Fd → Descriptors → Ended × Relay → Connection
unfolding after_run
end_child fd upstream d (running, r) = record {
  fate = working;
  descriptors = opened upstream d;
  tunnel = some (running, r);
  reset = false;
}
end_child fd upstream d (finished, r) = after_run fd upstream d (finished, r)
end_child fd upstream d (failing e, r) = after_run fd upstream d (failing e, r)

module _ (gethostbyname : List ℕ → Option Hostent) (inet_ntop : ℕ → List ℕ) where
  -- The switch over the protocols, which has no default case here.
  unfoldable pub run_protocol :
      ProxyProtocol
      → ProxySettings
      → Proxy
      → Bool
      → List (Option Polled)
      → Socket
      → Socket
      → Ended × Relay
  run_protocol direct settings p connected polls client upstream =
      direct_run connected polls client upstream
  run_protocol http settings p connected polls client upstream =
      run connected (Http.proxy_negotiate settings p.target_host p.target_port) polls client
        upstream
  run_protocol socks4 settings p connected polls client upstream =
      run connected (Socks4.proxy_negotiate settings p.target_address) polls client upstream
  run_protocol socks5 settings p connected polls client upstream =
      run connected (Socks5.proxy_negotiate gethostbyname settings p.target_address) polls client
        upstream

  -- The proxy is made for both addresses, and runs.
  unfoldable pub run_proxy : ProxySettings → ChildAnswers → SockAddr → SockAddr → Ended × Relay
  unfolding run_protocol
  run_proxy settings k client_address target_address =
      run_protocol settings.proxy_protocol settings
        (new_proxy_base inet_ntop settings client_address target_address)
        (connects k.upstream_fd k.connected) k.polls k.client k.upstream

  -- The process of a connection, from the fork on.
  unfoldable pub child : Bool → ProxySettings → ℕ → ℕ → ChildAnswers → Descriptors → Connection
  unfolding address_or_exit end_child
  child allow_direct settings listening fd k d =
      let d' = closed (some listening) d in
      let served = address_or_exit fd (target_found allow_direct k) d' λ target.
        address_or_exit fd k.peer d'
          λ client. end_child fd k.upstream_fd d' (run_proxy settings k client target) in
      if k.tied then (if k.parent_lives then served else gone d) else gone d

-- What `accept` and `fork` give in a round: no socket, or a socket and no process, or both.
pub data Accepted : Type 0 where
  refused : Accepted
  unforked : ℕ → Accepted
  forked : ℕ → ChildAnswers → Accepted

-- The listening process, its socket and the address of this, and the processes it has made.
pub record Listener : Type 0 where
  pub settings : ProxySettings
  pub listening_socket_fd : ℕ
  pub server_address : SockAddr
  pub descriptors : Descriptors
  pub children : List Connection

module _ (gethostbyname : List ℕ → Option Hostent) (inet_ntop : ℕ → List ℕ)
    (allow_direct : Bool) where
  -- The body of the loop, in the parent and in its child.
  unfoldable pub accept_round : Accepted → Listener → Listener
  accept_round refused s = s
  accept_round (unforked fd) s = record s {
    descriptors = closed (some fd) (opened (some fd) s.descriptors);
  }
  accept_round (forked fd k) s =
      let d = opened (some fd) s.descriptors in
      record s {
        descriptors = closed (some fd) d;
        children =
            child gethostbyname inet_ntop allow_direct s.settings s.listening_socket_fd fd k d
            ∷ s.children;
      }

  unfoldable pub accept_loop : List Accepted → Listener → Listener
  unfolding accept_round
  accept_loop [] s = s
  accept_loop (a ∷ accepted) s = accept_loop accepted (accept_round a s)

-- The address to listen at; INADDR_ANY is 0.
abbrev pub listen_address : ℤ → SockAddr
listen_address port = record zero_address {
  sin_family = af_inet;
  sin_port = htons (to_uint16 port);
}

abbrev pub new_listener : ProxySettings → ℕ → ℤ → Descriptors → Listener
new_listener settings fd port d = record {
  settings = settings;
  listening_socket_fd = fd;
  server_address = listen_address port;
  descriptors = d;
  children = [];
}

-- Up to the loop: the listening socket, opened and bound. Its cleaner closes it on an exception.
unfoldable pub start_listening :
    Fd → Bool → ProxySettings → ℤ → Descriptors → Outcome Listener × Descriptors
start_listening none bound settings port d = (throw "could not open server socket", d)
start_listening (some fd) bound settings port d =
    let held = opened (some fd) d in
    if bound
    then (ok (new_listener settings fd port held), held)
    else (throw "could not bind to address and port", closed (some fd) held)

-- The loop begins unless an exception was thrown.
from_start : (Listener → Listener) → Outcome Listener × Descriptors → Outcome Listener × Descriptors
from_start loop (throw e, d) = (throw e, d)
from_start loop (ok s, d) = let s' = loop s in (ok s', s'.descriptors)

-- `TcpServer::run`, as long as the answers go.
unfoldable pub serve :
    (List ℕ → Option Hostent)
    → (ℕ → List ℕ)
    → Bool
    → Fd
    → Bool
    → List Accepted
    → ProxySettings
    → ℤ
    → Descriptors
    → Outcome Listener × Descriptors
unfolding start_listening from_start accept_loop
serve gethostbyname inet_ntop allow_direct fd bound accepted settings port d =
    from_start (accept_loop gethostbyname inet_ntop allow_direct accepted)
      (start_listening fd bound settings port d)
