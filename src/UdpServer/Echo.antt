-- ===== src/UdpServer/Echo.antt =====
-- A datagram that comes back from upstream as it was sent there, through the server.
pub mod Rounds
use transproxify.Base.{ℕ, ◌≤◌, ◌≡◌, List, [], ◌∷◌, ◌++◌, Option, some, length, ok}
use transproxify.Base.Order.{nat_ord, int_ord, option_ord, pair_ord}
use transproxify.Address.{Hostent}
use transproxify.Udp.{ClientSocket}
use transproxify.Udp.Datagram.{IsIpv4}
use transproxify.Udp.Proxy.{Descriptors, UdpProxy, incoming_socket, send_to_target}
use transproxify.Udp.Echo.{origin, Takes, hand_down-send_to_target}
use transproxify.UdpServer.{Server, recv, set_object}
use transproxify.UdpServer.Invariant.{IsObject, IsValid}

module _ (gethostbyname : List ℕ → Option Hostent) where
  -- Let a proxy of a server that meets the invariant, whose target is an IPv4 address, have sent a
  -- datagram of at most 65507 bytes upwards, and the kernel open a socket to the client and take a
  -- datagram of that length. If what was sent comes back on the proxy's socket from where it went,
  -- then `recv` hands the client exactly the data of that datagram, from the address of the target,
  -- notes the time, and changes nothing else; so it is with either protocol.
  pub recv-send_to_target :
      (k : ClientSocket) (sendto : List ℕ → Option ℕ) (outer : Descriptors) (s : Server)
      (id now fd : ℕ) (p : UdpProxy) (buffer packet : List ℕ)
      → IsValid outer s
      → IsObject s id p
      → incoming_socket p ≡ some fd
      → IsIpv4 p.target_address
      → length buffer ≤ 65507
      → Takes k (length buffer)
      → send_to_target p sendto buffer ≡ ok (some packet)
      → recv gethostbyname k (record { from = origin p; payload = some packet }) now fd s
        ≡ ok (record s {
          objects = set_object id (some (record p { last_packet_time = now })) s.objects;
          handed =
              s.handed
              ++ (record {
                source = p.target_address;
                destination = p.client_address;
                buffer = buffer;
              }
                  ∷ []);
        })
  unfolding recv
  recv-send_to_target k sendto outer s id now fd p buffer packet v ob own target small t e =
      let (time, handed) =
        hand_down-send_to_target gethostbyname k p sendto now fd buffer packet target small t own
          e in
      rw (v.heard id p fd ob own, recv) (rw (ob, recv) (rw (time, handed)))
