-- ===== src/Udp/Echo.antt =====
-- What `check_socket` and `send_to_client` make of what `send_to_target` has sent.
use transproxify.Base.{
  some-injective, ok-injective, ℕ, ◌^◌, ◌≤◌, ◌≡◌, refl, inl, inr, List, [], ◌∷◌, Option, none, some,
  arith, length, drop, take-length, ltb, true, Bool-cases, ok,
}
use transproxify.Base.Order.{nat_ord, int_ord, option_ord, pair_ord}
use transproxify.Address.{SockAddr, Hostent}
use transproxify.Udp.{
  ClientSocket, to_client, taken, sent_up, socks5_send_to_target, direct_check_socket,
  maximum_ipv4_udp_payload, send_to_client, sent_to_client, hand_down, handed_down,
}
use transproxify.Udp.Datagram.{
  IsIpv4, datagram, packed, eq_refl, same_address_refl, socks5_check_socket-datagram,
}
use transproxify.Udp.Proxy.{
  UdpProxy, Upward, direct, relay, incoming, incoming_socket, check_socket, direct_send_to_target,
  send_to_target,
}

-- Where the datagrams of a proxy come from: its target, or the relay.
abbrev pub origin : UdpProxy → SockAddr
origin p = elim (p.upward) [
  | direct fd ↦ p.target_address
  | relay proxy_fd relay_fd address ↦ address
]

-- The kernel opens a socket to the client, and takes a datagram of a length.
pub record Takes (k : ClientSocket) (len : ℕ) : Type 0 where
  pub opened : k.opened ≡ true
  pub transparent : k.transparent ≡ true
  pub bound : k.bound ≡ true
  pub whole : k.sendto len ≡ len

-- What is sent is the data as it was given.
direct_sent :
    (sendto : List ℕ → Option ℕ) (buffer packet : List ℕ)
    → direct_send_to_target sendto buffer ≡ some packet
    → packet ≡ buffer
unfolding direct_send_to_target
direct_sent sendto buffer packet e = ground (arith, e)

sent_up-sent :
    (sendto : List ℕ → Option ℕ) (packet built : List ℕ)
    → sent_up sendto (some built) ≡ ok (some packet)
    → packet ≡ built
unfolding sent_up
sent_up-sent sendto packet built e = ground (arith, e)

-- What is sent is the datagram for the relay.
socks5_sent :
    (sendto : List ℕ → Option ℕ) (target : SockAddr) (buffer packet : List ℕ)
    → socks5_send_to_target sendto target buffer ≡ ok (some packet)
    → packet ≡ datagram target buffer
unfolding socks5_send_to_target
socks5_sent sendto target buffer packet e =
    elim (Bool-cases (ltb maximum_ipv4_udp_payload (length buffer))) [
      | inl long ↦ absurd (cc (rw (long, socks5_send_to_target) at e))
      | inr short ↦
          let whole : length buffer ≤ 65507 = ground (arith, short) in
          sent_up-sent sendto packet (datagram target buffer)
            (rw (short, packed target buffer whole) at e)
    ]

taken_whole : (buffer : List ℕ) → length buffer ≤ 65507 → taken (length buffer) buffer ≡ some buffer
taken_whole buffer small =
    let accepted : ltb (length buffer) (2 ^ 63) ≡ true = ground (arith, small) in
    rw (accepted, take-length buffer) refl

-- What goes to the client of a datagram that is handed on.
to_client_lem :
    (k : ClientSocket) (client target : SockAddr) (packet buffer : List ℕ) (offset now last : ℕ)
    → Takes k (length buffer)
    → length buffer ≤ 65507
    → drop offset packet ≡ buffer
    → (hand_down k now (ok (to_client offset (length buffer))) last ≡ ok now)
      × (handed_down k client target (some packet) (ok (to_client offset (length buffer)))
          ≡ record { source = target; destination = client; buffer = buffer } ∷ [])
unfolding hand_down handed_down send_to_client sent_to_client
to_client_lem k client target packet buffer offset now last t small e = (
  rw (t.opened, t.transparent, t.bound, t.whole) (rw (eq_refl (length buffer))),
  rw (t.opened, t.transparent, t.bound, t.whole, e) (rw (taken_whole buffer small) refl),
)

module _ (gethostbyname : List ℕ → Option Hostent) where
  -- The part of a datagram that is handed on, if it comes from upstream as it was sent there.
  abbrev Returns : (p : UdpProxy) (fd : ℕ) (packet buffer : List ℕ) → Type 0
  Returns p fd packet buffer =
      (offset : ℕ) × (check_socket gethostbyname p fd
          (record { from = origin p; payload = some packet })
        ≡ ok (to_client offset (length buffer)))
      × (drop offset packet ≡ buffer)

  check_socket-send_to_target :
      (client target : SockAddr) (began last : ℕ) (u : Upward) (sendto : List ℕ → Option ℕ) (fd : ℕ)
      (buffer packet : List ℕ)
      → let p : UdpProxy = record {
        client_address = client;
        target_address = target;
        start_time = began;
        last_packet_time = last;
        upward = u;
      } in
        IsIpv4 target
        → length buffer ≤ 65507
        → incoming u ≡ some fd
        → send_to_target p sendto buffer ≡ ok (some packet)
        → Returns p fd packet buffer
  unfolding direct_check_socket
  check_socket-send_to_target client target began last (direct none) sendto fd buffer packet v small
        own e =
      absurd (cc own)
  check_socket-send_to_target client target began last (direct (some f)) sendto fd buffer packet v
        small own e =
      let same : f ≡ fd = some-injective own in
      let whole : packet ≡ buffer = direct_sent sendto buffer packet (ok-injective e) in
      (0, rw (same, eq_refl fd, same_address_refl target, whole) refl, whole)
  check_socket-send_to_target client target began last (relay x none a) sendto fd buffer packet v
        small own e =
      absurd (cc own)
  check_socket-send_to_target client target began last (relay x (some f) a) sendto fd buffer packet
        v small own e =
      let same : f ≡ fd = some-injective own in
      let built : packet ≡ datagram target buffer = socks5_sent sendto target buffer packet e in
      let (checked, rest) =
        socks5_check_socket-datagram gethostbyname a target fd buffer v (omega (arith, small)) in
      (10, rw (same, built) checked, rw built rest)

  -- What `send_to_target` has sent, come back from where it went, is handed to the client whole.
  pub hand_down-send_to_target :
      (k : ClientSocket) (p : UdpProxy) (sendto : List ℕ → Option ℕ) (now fd : ℕ)
      (buffer packet : List ℕ)
      → IsIpv4 p.target_address
      → length buffer ≤ 65507
      → Takes k (length buffer)
      → incoming_socket p ≡ some fd
      → send_to_target p sendto buffer ≡ ok (some packet)
      → let down =
          check_socket gethostbyname p fd (record { from = origin p; payload = some packet }) in
        (hand_down k now down p.last_packet_time ≡ ok now)
        × (handed_down k p.client_address p.target_address (some packet) down
            ≡ record { source = p.target_address; destination = p.client_address; buffer = buffer }
              ∷ [])
  hand_down-send_to_target k p sendto now fd buffer packet v small t own e =
      let (offset, checked, rest) =
        check_socket-send_to_target p.client_address p.target_address p.start_time
          p.last_packet_time p.upward sendto fd buffer packet v small own e in
      rw checked (
        to_client_lem k p.client_address p.target_address packet buffer offset now
          p.last_packet_time t small rest)
