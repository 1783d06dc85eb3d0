-- ===== src/Udp/Datagram.antt =====
-- The datagrams of the relay: what is sent comes back whole, and what is not checked.
use mathlib.Core.List.{flatten}
use transproxify.Base.{
  ℕ, ◌-◌, ◌≤◌, ◌<◌, ◌≡◌, refl, ap, ◌∙◌, inl, inr, List, [], ◌∷◌, ◌++◌, true, false, Option, none,
  some, arith, length, drop, ltb, leb, ◌==◌, ==_iff, if◌then◌else◌, ok, append-nil, le→leb,
  Bool-cases,
}
use transproxify.Address.{
  SockAddr, Hostent, zero_address, af_inet, same_address, bytes16, bytes32, word,
}
use transproxify.Util.{size_mod}
use transproxify.Upstream.{packet_size, build_packets}
use transproxify.Upstream.Packets.{build_packets-eq}
use transproxify.Udp.{
  to_client, finish, destination, unpack, socks5_check_socket, sent_up, socks5_send_to_target,
  maximum_ipv4_udp_payload,
}

-- An IPv4 address as the kernel fills it in.
pub record IsIpv4 (a : SockAddr) : Type 0 where
  pub family : a.sin_family ≡ af_inet
  pub port : a.sin_port < 65536
  pub host : a.s_addr < 4294967296
  pub zeros : a.sin_zero ≡ 0

-- The header of RFC 1928 and the data.
abbrev pub datagram : SockAddr → List ℕ → List ℕ
datagram target buffer =
    0 ∷ 0 ∷ 0 ∷ 1 ∷ (bytes32 target.s_addr ++ (bytes16 target.sin_port ++ buffer))

pub eq_refl : (n : ℕ) → (n == n) ≡ true
eq_refl n = (==_iff n n).1 refl

pub no_ltb : (n m : ℕ) → m ≤ n → ltb n m ≡ false
no_ltb n m h = ground arith

pub word-bytes32 : (w : ℕ) → w < 4294967296 → word (bytes32 w) ≡ w
word-bytes32 w h = omega arith

word-bytes16 : (w : ℕ) → w < 65536 → word (bytes16 w) ≡ w
word-bytes16 w h = omega arith

pub packed :
    (target : SockAddr) (buffer : List ℕ)
    → length buffer ≤ 65507
    → build_packets packet_size [] (
        (0 ∷ 0 ∷ [])
        ∷ (0 ∷ [])
        ∷ (1 ∷ [])
        ∷ bytes32 target.s_addr
        ∷ bytes16 target.sin_port
        ∷ buffer
        ∷ [])
      ≡ some (datagram target buffer)
unfolding flatten
packed target buffer h =
    let whole : length (datagram target (buffer ++ [])) ≤ packet_size =
      rw append-nil (omega arith) in
    build_packets-eq packet_size [] _ (omega arith) (omega arith)
    ∙ rw (le→leb (length (datagram target (buffer ++ []))) packet_size whole) (rw append-nil)

-- A payload of at most 65507 bytes goes up behind its header, if the kernel takes the datagram
-- whole; a longer one is dropped, and that is no error.
pub socks5_send_to_target_lem :
    (sendto : List ℕ → Option ℕ) (target : SockAddr) (buffer : List ℕ)
    → sendto (datagram target buffer) ≡ some (length (datagram target buffer))
    → socks5_send_to_target sendto target buffer
      ≡ ok (if leb (length buffer) 65507 then some (datagram target buffer) else none)
unfolding socks5_send_to_target
socks5_send_to_target_lem sendto target buffer taken =
    elim (Bool-cases (ltb maximum_ipv4_udp_payload (length buffer))) [
      | inl long ↦
          let over : leb (length buffer) 65507 ≡ false = ground (arith, long) in rw (long, over)
      | inr short ↦
          let within : leb (length buffer) 65507 ≡ true = ground (arith, short) in
          rw (short, within, packed target buffer (ground (arith, short)), sent_up)
            (rw taken (rw (eq_refl (length (datagram target buffer)))))
    ]

pub same_address_refl : (a : SockAddr) → same_address a a ≡ true
same_address_refl a =
    rw (eq_refl a.sin_family, eq_refl a.sin_port, eq_refl a.s_addr, eq_refl a.sin_zero)

pub same_address_of :
    (a : SockAddr) {host port : ℕ}
    → IsIpv4 a
    → host ≡ a.s_addr
    → port ≡ a.sin_port
    → same_address (record { sin_family = af_inet; sin_port = port; s_addr = host; sin_zero = 0 }) a
      ≡ true
same_address_of a v h p = ground arith

finish-datagram :
    (target : SockAddr) (buffer : List ℕ) (dst : SockAddr)
    → IsIpv4 target
    → length buffer < size_mod - 16
    → dst ≡ record zero_address { sin_family = af_inet; s_addr = word (bytes32 target.s_addr) }
    → finish target (datagram target buffer) (dst, 8) ≡ to_client 10 (length buffer)
unfolding finish
finish-datagram target buffer dst v small e = rw e (
    rw
      (same_address_of target v (word-bytes32 target.s_addr v.host)
        (word-bytes16 target.sin_port v.port))
      (ap (to_client 10) (omega arith)))

module _ (gethostbyname : List ℕ → Option Hostent) where
  -- What the relay sends back of the target in the form of the code's own datagrams reaches the
  -- client whole, and nothing but it.
  pub socks5_check_socket-datagram :
      (relay target : SockAddr) (fd : ℕ) (buffer : List ℕ)
      → IsIpv4 target
      → length buffer < size_mod - 16
      → (socks5_check_socket gethostbyname relay fd target fd
            (record { from = relay; payload = some (datagram target buffer) })
          ≡ ok (to_client 10 (length buffer)))
        × (drop 10 (datagram target buffer) ≡ buffer)
  unfolding socks5_check_socket unpack destination
  socks5_check_socket-datagram relay target fd buffer v small = (
    rw (eq_refl fd) (
        rw (same_address_refl relay) (
          rw
            (
              no_ltb (length (datagram target buffer)) 4 (omega arith),
              no_ltb (length (datagram target buffer)) 8 (omega arith),
            )
            (ap ok (finish-datagram target buffer _ v small refl)))),
    refl,
  )
