-- ===== src/Udp/Proxy.antt =====
-- UdpProxy.hpp and the constructors, destructors and virtual functions of DirectUdpProxy.hpp and
-- Socks5UdpProxy.hpp. A descriptor is `none` where the code holds -1.
use transproxify.Base.{
  ℕ, List, Bool, true, false, not, Option, none, some, length, ◌==◌, if◌then◌else◌, Outcome, ok,
  throw, ◌>>◌, throw_if,
}
use transproxify.Base.Int.{ℤ, pos, ◌-ℤ◌, ltb_ℤ, to_int}
use transproxify.Address.{SockAddr, Hostent}
use transproxify.Settings.{ProxySettings}
use transproxify.Wire.{Socket}
use transproxify.Socks5.{associate}
use transproxify.Udp.{
  Received, Down, direct_check_socket, socks5_check_socket, socks5_send_to_target,
}

abbrev pub Fd : Type 0
Fd = Option ℕ

-- Which descriptors of the process are open.
abbrev pub Descriptors : Type 0
Descriptors = ℕ → Bool

abbrev pub opened : Fd → Descriptors → Descriptors
opened none d f = d f
opened (some g) d f = if f == g then true else d f

-- `close`; that of -1 has no effect.
abbrev pub closed : Fd → Descriptors → Descriptors
closed none d f = d f
closed (some g) d f = if f == g then false else d f

-- What the two classes hold: `targetSocketFd`, or `proxySocketFd`, `relaySocketFd` and
-- `relayAddress`.
pub data Upward : Type 0 where
  direct : Fd → Upward
  relay : Fd → Fd → SockAddr → Upward

pub record UdpProxy : Type 0 where
  pub client_address : SockAddr
  pub target_address : SockAddr
  pub start_time : ℕ
  pub last_packet_time : ℕ
  pub upward : Upward

-- `UdpProxy::UdpProxy`, at the time `now`
abbrev pub new_udp_proxy : ℕ → SockAddr → SockAddr → Upward → UdpProxy
new_udp_proxy now client_address target_address upward = record {
  client_address = client_address;
  target_address = target_address;
  start_time = now;
  last_packet_time = now;
  upward = upward;
}

-- `eviction_score`
unfoldable pub eviction_score : ℕ → UdpProxy → ℤ
unfolding to_int
eviction_score now p =
    let activity_bias = to_int (pos p.last_packet_time -ℤ pos p.start_time) in
    let limited = if ltb_ℤ (pos 10) activity_bias then pos 10 else activity_bias in
    to_int (pos now -ℤ pos p.last_packet_time -ℤ limited)

-- UDP_PROXY_TIMEOUT
abbrev pub udp_proxy_timeout : ℕ
udp_proxy_timeout = 300

unfoldable pub timed_out : ℕ → UdpProxy → Bool
timed_out now p = ltb_ℤ (pos udp_proxy_timeout) (pos now -ℤ pos p.last_packet_time)

-- `get_incoming_sockets`, which gives one descriptor.
abbrev pub incoming : Upward → Fd
incoming (direct fd) = fd
incoming (relay proxy_fd relay_fd address) = relay_fd

abbrev pub incoming_socket : UdpProxy → Fd
incoming_socket p = incoming p.upward

-- What the kernel answers to `socket`, `bind` and `connect`.
pub record DirectAnswers : Type 0 where
  pub target_socket_fd : Fd
  pub bound : Bool
  pub connected : Bool

-- The members that exist are destroyed if the constructor throws.
abbrev kept {ℓ} : {A : Type ℓ} → Outcome A → Descriptors → Descriptors → Outcome A × Descriptors
kept (ok a) held given_up = (ok a, held)
kept (throw e) held given_up = (throw e, given_up)

-- `DirectUdpProxy::DirectUdpProxy`, which returns with a message if there is no socket.
unfoldable pub new_direct_udp_proxy :
    DirectAnswers → ℕ → SockAddr → SockAddr → Descriptors → Outcome UdpProxy × Descriptors
new_direct_udp_proxy k now client_address target_address d =
    let p = new_udp_proxy now client_address target_address (direct k.target_socket_fd) in
    let held = opened k.target_socket_fd d in
    let made : Outcome UdpProxy = (do
      throw_if (not k.bound) "could not bind to address and port for sending to target"
      throw_if (not k.connected) "could not connect for sending to target"
      ok p) in
    elim (k.target_socket_fd) [
      | none ↦ (ok p, d)
      | some fd ↦ kept made held (closed (some fd) held)
    ]

-- The same for the connection to the proxy, the bytes on it, and the socket to the relay.
pub record Socks5Answers : Type 0 where
  pub proxy_socket_fd : Fd
  pub connected : Bool
  pub stream : Socket
  pub relay_socket_fd : Fd
  pub relay_connected : Bool

-- `connect` fails on the descriptor -1.
abbrev pub reaches : Fd → Bool → Bool
reaches none connected = false
reaches (some fd) connected = connected

-- The constructor from the reply to the association on: the socket to the relay.
unfoldable pub connect_relay :
    Socks5Answers
    → ℕ
    → SockAddr
    → SockAddr
    → Descriptors
    → Outcome SockAddr
    → Outcome UdpProxy × Descriptors
connect_relay k now client_address target_address d (throw e) =
    (throw e, closed k.proxy_socket_fd (opened k.proxy_socket_fd d))
connect_relay k now client_address target_address d (ok relay_address) =
    let held = opened k.relay_socket_fd (opened k.proxy_socket_fd d) in
    let upward = relay k.proxy_socket_fd k.relay_socket_fd relay_address in
    if reaches k.relay_socket_fd k.relay_connected
    then (ok (new_udp_proxy now client_address target_address upward), held)
    else (
      throw "could not connect to udp relay server",
      closed k.proxy_socket_fd (closed k.relay_socket_fd held),
    )

module _ (gethostbyname : List ℕ → Option Hostent) where
  -- `Socks5UdpProxy::Socks5UdpProxy`
  unfoldable pub new_socks5_udp_proxy :
      ProxySettings
      → Socks5Answers
      → ℕ
      → SockAddr
      → SockAddr
      → Descriptors
      → Outcome UdpProxy × Descriptors
  unfolding connect_relay
  new_socks5_udp_proxy settings k now client_address target_address d =
      let associated = (associate gethostbyname settings target_address k.stream).0 in
      let relay_address : Outcome SockAddr = (do
        throw_if (not (reaches k.proxy_socket_fd k.connected)) "could not connect to upstream proxy"
        associated) in
      connect_relay k now client_address target_address d relay_address

  -- `check_socket` of either class. `poll` reports no descriptor -1.
  abbrev pub check_socket : UdpProxy → ℕ → Received → Outcome Down
  check_socket p fd r = elim (p.upward) [
    | direct none ↦ throw "checking incorrect socket"
    | direct (some own) ↦ direct_check_socket own p.target_address fd r
    | relay proxy_fd none address ↦ throw "checking incorrect socket"
    | relay proxy_fd (some own) address ↦
        socks5_check_socket gethostbyname address own p.target_address fd r
  ]

-- The destructors, by the cleaners.
abbrev pub freed : Upward → Descriptors → Descriptors
freed (direct fd) d = closed fd d
freed (relay proxy_fd relay_fd address) d = closed proxy_fd (closed relay_fd d)

abbrev pub destroyed : UdpProxy → Descriptors → Descriptors
destroyed p d = freed p.upward d

-- `DirectUdpProxy::send_to_target`: the datagram, if it was sent.
unfoldable pub direct_send_to_target : (List ℕ → Option ℕ) → List ℕ → Option (List ℕ)
direct_send_to_target sendto buffer = elim (sendto buffer) [
  | none ↦ none
  | some n ↦ if n == length buffer then some buffer else none
]

-- `send_to_target` of either class.
abbrev pub send_to_target : UdpProxy → (List ℕ → Option ℕ) → List ℕ → Outcome (Option (List ℕ))
send_to_target p sendto buffer = elim (p.upward) [
  | direct fd ↦ ok (direct_send_to_target sendto buffer)
  | relay proxy_fd relay_fd address ↦ socks5_send_to_target sendto p.target_address buffer
]
