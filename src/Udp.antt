-- ===== src/Udp.antt =====
-- UdpProxy.hpp, and the datagrams of DirectUdpProxy.hpp and Socks5UdpProxy.hpp. What the kernel
-- answers is an input, as is the time.
pub mod Datagram
pub mod Bounds
pub mod Proxy
pub mod Descriptors
pub mod Echo
pub mod Score
use transproxify.Base.{
  ℕ, ◌+◌, ◌-◌, ◌^◌, ◌%◌, ◌<◌, ◌&&◌, String, List, [], ◌∷◌, ◌++◌, Bool, true, false, Option, none,
  some, length, get_or, take, drop, ltb, ◌==◌, if◌then◌else◌, not, Outcome, ok, throw, ◌>>=◌, ◌>>◌,
  throw_if,
}
use transproxify.Address.{
  SockAddr, Hostent, zero_address, af_inet, same_address, bytes16, bytes32, word, copy_host,
}
use transproxify.Util.{size_mod}
use transproxify.Upstream.{packet_size, build_packets}
use transproxify.Socks5.{c_string}

-- What `recvfrom` answers: the length and bytes of a datagram, or `none` for -1. On an error the
-- address is whatever the variable held.
pub record Received : Type 0 where
  pub from : SockAddr
  pub payload : Option (List ℕ)

-- What becomes of a datagram: it is ignored with a message, or the part of the buffer from an
-- offset on goes to `send_to_client` with a length of type size_t.
pub data Down : Type 0 where
  ignored : Down
  to_client : ℕ → ℕ → Down

abbrev fd_check : ℕ → ℕ → Outcome (Unit {0})
fd_check fd own = throw_if (not (fd == own)) "checking incorrect socket"

-- `recvLen` as the size_t that the code converts it to; -1 is the largest one.
abbrev pub recv_len : Option (List ℕ) → ℕ
recv_len none = size_mod - 1
recv_len (some payload) = length payload

-- `DirectUdpProxy::check_socket`
pub direct_check_socket : ℕ → SockAddr → ℕ → Received → Outcome Down
direct_check_socket target_socket_fd target_address fd r = do
  fd_check fd target_socket_fd
  ok (if same_address r.from target_address then to_client 0 (recv_len r.payload) else ignored)

-- What the resolver makes of a name in a datagram.
abbrev datagram_host : Option Hostent → Outcome Hostent
datagram_host none = throw "cannot resolve address returned by upstream proxy"
datagram_host (some server) =
    if server.h_addrtype == af_inet
    then ok server
    else throw "FIXME: Resolved to IPv6 address. Use getaddrinfo() instead."

-- The buffer is all zero behind the datagram; so is what is read there.
abbrev pub at : List ℕ → ℕ → ℕ
at payload i = get_or payload i 0

abbrev pub port_at : List ℕ → ℕ → ℕ
port_at payload i = word (at payload i ∷ at payload (i + 1) ∷ [])

-- The end of `check_socket`: the port, the comparison with the target, and the data, whose length
-- is a difference of pointers converted to size_t.
finish : SockAddr → List ℕ → SockAddr × ℕ → Down
finish target_address payload (dst, read) =
    if same_address (record dst { sin_port = port_at payload read }) target_address
    then to_client (read + 2) ((length payload + size_mod - (read + 2)) % size_mod)
    else ignored

module _ (gethostbyname : List ℕ → Option Hostent) where
  -- The address type 3: a length and a name.
  domain_at : List ℕ → SockAddr → Outcome (SockAddr × ℕ)
  domain_at payload dst = do
    throw_if (ltb (length payload) 5) "SOCKS UDP packet too small for address"
    let len = at payload 4
    throw_if (len == 0) "upstream proxy sent zero-length domain"
    throw_if (ltb (length payload) (5 + len)) "SOCKS UDP packet too small for address"
    server ← datagram_host (gethostbyname (c_string (take len (drop 5 payload))))
    ok (copy_host server dst, 5 + len)

  -- The switch on the address type: the address, and where the reading goes on.
  destination : List ℕ → SockAddr → Outcome (SockAddr × ℕ)
  destination payload dst =
      if at payload 3 == 1
      then (do
        throw_if (ltb (length payload) 8) "SOCKS UDP packet too small for address"
        ok (record dst { s_addr = word (take 4 (drop 4 payload)) }, 8))
      else if at payload 3 == 3
      then domain_at payload dst
      else if at payload 3 == 4
      then throw "upstream proxy returned IPv6 address (unsupported)"
      else throw "upstream proxy protocol mismatch"

  unpack : SockAddr → Option (List ℕ) → Outcome Down
  unpack target_address none = throw "SOCKS UDP packet too small"
  unpack target_address (some payload) = do
    throw_if (ltb (length payload) 4) "SOCKS UDP packet too small"
    let address = destination payload (record zero_address { sin_family = af_inet })
    let rest = address >>= λ a. ok (finish target_address payload a)
    if at payload 2 == 0 then rest else ok ignored

  -- `Socks5UdpProxy::check_socket`
  pub socks5_check_socket : SockAddr → ℕ → SockAddr → ℕ → Received → Outcome Down
  socks5_check_socket relay_address relay_socket_fd target_address fd r = do
    fd_check fd relay_socket_fd
    let inside = unpack target_address r.payload
    if same_address r.from relay_address then inside else ok ignored

-- MAXIMUM_IPV4_UDP_PAYLOAD
abbrev pub maximum_ipv4_udp_payload : ℕ
maximum_ipv4_udp_payload = 65507

-- `Socks5UdpProxy::send_to_target`: the datagram that goes to the relay, if one does. `sendto` is
-- the number of bytes that the kernel takes of a datagram, `none` for -1.
sent_up : (List ℕ → Option ℕ) → Option (List ℕ) → Outcome (Option (List ℕ))
sent_up sendto none = throw "Could not build and send packet to relay server"
sent_up sendto (some packet) = elim (sendto packet) [
  | none ↦ throw "Could not build and send packet to relay server"
  | some n ↦
      if n == length packet
      then ok (some packet)
      else throw "Could not build and send packet to relay server"
]

pub socks5_send_to_target : (List ℕ → Option ℕ) → SockAddr → List ℕ → Outcome (Option (List ℕ))
unfolding sent_up
socks5_send_to_target sendto target_address buffer =
    let built = build_packets packet_size [] (
      (0 ∷ 0 ∷ [])
      ∷ (0 ∷ [])
      ∷ (1 ∷ [])
      ∷ bytes32 target_address.s_addr
      ∷ bytes16 target_address.sin_port
      ∷ buffer
      ∷ []) in
    if ltb maximum_ipv4_udp_payload (length buffer) then ok none else sent_up sendto built

-- What the kernel answers while a datagram goes to the client. `sendto` takes the length and returns
-- the bits of an ssize_t.
pub record ClientSocket : Type 0 where
  pub opened : Bool
  pub transparent : Bool
  pub bound : Bool
  pub sendto : ℕ → ℕ

-- `send_to_client`, with the time of the last packet, which `update_time` sets.
pub send_to_client : ClientSocket → ℕ → ℕ → ℕ → Outcome ℕ
send_to_client k now len last_packet_time =
    let sent : Outcome ℕ = (do
      throw_if (not k.transparent) "could not set IP_TRANSPARENT for sending to client"
      throw_if (not k.bound) "could not bind to address and port for sending to client"
      ok (if k.sendto len == len then now else last_packet_time)) in
    if k.opened then sent else ok last_packet_time

-- The data that a datagram brought is handed on.
pub hand_down : ClientSocket → ℕ → Outcome Down → ℕ → Outcome ℕ
hand_down k now (throw e) last_packet_time = throw e
hand_down k now (ok ignored) last_packet_time = ok last_packet_time
hand_down k now (ok (to_client offset len)) last_packet_time =
    send_to_client k now len last_packet_time

-- A datagram for the client, from the address of the target, which the socket is bound to.
pub record ToClient : Type 0 where
  pub source : SockAddr
  pub destination : SockAddr
  pub buffer : List ℕ

-- What the kernel takes of the data, unless `sendto` returns the bits of a negative number. Where
-- the length goes beyond the datagram that was received, the zeros of the buffer are left out.
abbrev taken : ℕ → List ℕ → Option (List ℕ)
taken sent buffer = if ltb sent (2 ^ 63) then some (take sent buffer) else none

-- The datagrams, one at most, that `send_to_client` sends of the data.
pub sent_to_client : ClientSocket → SockAddr → SockAddr → List ℕ → ℕ → List ToClient
sent_to_client k client_address target_address buffer len =
    let reached = k.opened && k.transparent && k.bound in
    elim (if reached then taken (k.sendto len) buffer else none) [
      | none ↦ []
      | some sent ↦
          record { source = target_address; destination = client_address; buffer = sent } ∷ []
    ]

-- What `recvfrom` has put into the buffer.
abbrev filled : Option (List ℕ) → List ℕ
filled none = []
filled (some payload) = payload

-- The same of a datagram that `check_socket` has looked at.
pub handed_down :
    ClientSocket → SockAddr → SockAddr → Option (List ℕ) → Outcome Down → List ToClient
unfolding sent_to_client
handed_down k client_address target_address payload (throw e) = []
handed_down k client_address target_address payload (ok ignored) = []
handed_down k client_address target_address payload (ok (to_client offset len)) =
    sent_to_client k client_address target_address (drop offset (filled payload)) len
