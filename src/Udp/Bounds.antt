-- ===== src/Udp/Bounds.antt =====
-- Which part of a relay's datagram goes to the client, and the datagrams that end too early.
use transproxify.Base.{
  ℕ, ◌+◌, ◌-◌, ◌%◌, ◌≤◌, ◌<◌, ◌≡◌, refl, ◌⊎◌, List, [], true, Option, some, arith, length, take,
  Outcome, ok, throw, ◌>>=◌,
}
use transproxify.Address.{SockAddr, Hostent, zero_address, af_inet, same_address, bytes32, word}
use transproxify.Util.{size_mod}
use transproxify.Udp.{
  to_client, at, port_at, finish, destination, domain_at, unpack, socks5_check_socket, ClientSocket,
  send_to_client, hand_down, handed_down, sent_to_client,
}
use transproxify.Udp.Datagram.{
  IsIpv4, datagram, eq_refl, same_address_refl, same_address_of, word-bytes32,
}

-- The part is the rest of the datagram, or the datagram ends within its port and the length, a
-- negative difference, is one of the two largest of size_t.
abbrev pub Rest : List ℕ → ℕ → ℕ → Type 0
Rest payload offset len =
    (offset + len ≡ length payload) ⊎ ((length payload < offset) × (size_mod - 2 ≤ len))

finish-to_client :
    (target : SockAddr) (payload : List ℕ) (dst : SockAddr) (read offset len : ℕ)
    → finish target payload (dst, read) ≡ to_client offset len
    → (offset ≡ read + 2)
      × (len ≡ (length payload + size_mod - (read + 2)) % size_mod)
      × (port_at payload read ≡ target.sin_port)
unfolding finish
finish-to_client target payload dst read offset len e = (ground arith, ground arith, ground arith)

finish-Rest :
    (target : SockAddr) (payload : List ℕ) (dst : SockAddr) (read offset len : ℕ)
    → read ≤ length payload
    → length payload ≤ 65536
    → finish target payload (dst, read) ≡ to_client offset len
    → Rest payload offset len × (port_at payload (offset - 2) ≡ target.sin_port)
finish-Rest target payload dst read offset len within small e =
    let (o, l, port) = finish-to_client target payload dst read offset len e in
    let start : offset - 2 ≡ read = omega arith in (omega arith, rw start port)

bound-Rest :
    (target : SockAddr) (payload : List ℕ) (o : Outcome (SockAddr × ℕ)) (offset len : ℕ)
    → length payload ≤ 65536
    → ((d : SockAddr) (read : ℕ) → o ≡ ok (d, read) → read ≤ length payload)
    → (o >>= λ a. ok (finish target payload a)) ≡ ok (to_client offset len)
    → Rest payload offset len × (port_at payload (offset - 2) ≡ target.sin_port)
bound-Rest target payload (throw m) offset len small within e = absurd (cc e)
bound-Rest target payload (ok (d, read)) offset len small within e =
    finish-Rest target payload d read offset len (within d read refl) small (ground (arith, e))

finish-truncated :
    (target : SockAddr)
    → IsIpv4 target
    → target.sin_port < 256
    → finish target
        (take 9 (datagram target []))
        (record zero_address { sin_family = af_inet; s_addr = word (bytes32 target.s_addr) }, 8)
      ≡ to_client 10 (size_mod - 1)
unfolding finish
finish-truncated target v low =
    let port : port_at (take 9 (datagram target [])) 8 ≡ target.sin_port = omega arith in
    rw (same_address_of target v (word-bytes32 target.s_addr v.host) port)

module _ (gethostbyname : List ℕ → Option Hostent) where
  destination-le :
      (payload : List ℕ) (dst d : SockAddr) (read : ℕ)
      → destination gethostbyname payload dst ≡ ok (d, read)
      → read ≤ length payload
  unfolding destination domain_at
  destination-le payload dst d read e = ground arith

  -- A datagram of at most 65536 bytes that is handed on came from the relay on the relay's socket,
  -- is no fragment and names the target's port, and its `Rest` goes to the client.
  pub socks5_check_socket-Rest :
      (relay target : SockAddr) (own fd : ℕ) (from : SockAddr) (payload : List ℕ) (offset len : ℕ)
      → length payload ≤ 65536
      → socks5_check_socket gethostbyname relay own target fd
          (record { from = from; payload = some payload })
        ≡ ok (to_client offset len)
      → (fd ≡ own)
        × (same_address from relay ≡ true)
        × (at payload 2 ≡ 0)
        × (port_at payload (offset - 2) ≡ target.sin_port)
        × Rest payload offset len
  unfolding socks5_check_socket unpack
  socks5_check_socket-Rest relay target own fd from payload offset len small e =
      let ipv4 : SockAddr = record zero_address { sin_family = af_inet } in
      let inner : (destination gethostbyname payload ipv4 >>= λ a. ok (finish target payload a))
          ≡ ok (to_client offset len) =
        ground (arith, e) in
      let (rest, port) =
        bound-Rest target payload (destination gethostbyname payload ipv4) offset len small
          (destination-le payload ipv4) inner in
      (ground (arith, e), ground (arith, e), ground (arith, e), port, rest)

  -- A datagram from the relay that is cut off after the first byte of its port passes the
  -- comparison with a target whose port has a second byte of zero. The length is then SIZE_MAX, and
  -- if the socket to the client is opened and bound, the -1 of the `sendto` that refuses it counts
  -- as success: the proxy's time is set although nothing went to the client.
  pub truncated_counts :
      (k : ClientSocket) (client relay target : SockAddr) (fd now last : ℕ)
      → IsIpv4 target
      → target.sin_port < 256
      → k.opened ≡ true
      → k.transparent ≡ true
      → k.bound ≡ true
      → k.sendto (size_mod - 1) ≡ size_mod - 1
      → let payload : Option (List ℕ) = some (take 9 (datagram target [])) in
        let down =
          socks5_check_socket gethostbyname relay fd target fd
            (record { from = relay; payload = payload }) in
        (hand_down k now down last ≡ ok now) × (handed_down k client target payload down ≡ [])
  unfolding socks5_check_socket unpack destination hand_down send_to_client handed_down
      sent_to_client
  truncated_counts k client relay target fd now last v low opened transparent bound refused =
      rw (eq_refl fd) (
        rw (same_address_refl relay) (
          rw (finish-truncated target v low) (
            rw (opened, transparent, bound) (rw refused),
            rw (opened, transparent, bound) (rw refused),
          )))
