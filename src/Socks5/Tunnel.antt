-- ===== src/Socks5/Tunnel.antt =====
-- The request for a tunnel as a function of the bytes that the proxy sends (RFC 1928), and the
-- whole negotiation of a TCP connection.
use mathlib.Core.List.{flatten}
use transproxify.Base.{
  ℕ, suc, ◌≡◌, refl, ap, inl, inr, List, [], ◌∷◌, ◌++◌, true, false, Option, none, some, arith,
  length, get_or, take, drop, leb, le→leb, ◌==◌, if◌then◌else◌, Bool-cases, ok, throw,
}
use transproxify.Address.{SockAddr, Hostent, af_inet, bytes16, bytes32, word, copy_host}
use transproxify.Wire.{Socket, pending, Willing}
use transproxify.Upstream.Refines.{
  Transcript, Shows, Refines, pure_t, fail_t, bind_t, require_t, receive_t, pure-Refines,
  fail-Refines, require-Refines, bind-Refines, receive-Refines, if-Refines, Refines-ext,
}
use transproxify.Upstream.Packets.{send_small-Refines}
use transproxify.Socks5.{
  c_string, found_host, check_reply, read_domain, read_address, socks5_request_tunnel,
}
use transproxify.Socks5.Greeting.{answer}
use transproxify.Socks5.Reply.{
  port_reply, host_reply, ipv4_address, refusal, domain_reply, address_reply, tunnel_reply,
}

-- What a request asks for: version, command, a reserved byte, the address type, the target.
abbrev pub tunnel_request : SockAddr → ℕ → List ℕ
tunnel_request target cmd = 5 ∷ cmd ∷ 0 ∷ 1 ∷ (bytes32 target.s_addr ++ bytes16 target.sin_port)

port_t : SockAddr → List ℕ → Transcript SockAddr
port_t address =
    bind_t (receive_t 2 "read from upstream proxy failed during main request")
      (λ port. pure_t (record address { sin_port = word port }))

port-eq : (address : SockAddr) (p : List ℕ) → port_t address p ≡ port_reply address p
unfolding port_t
port-eq address [] = refl
port-eq address (x ∷ []) = refl
port-eq address (x ∷ y ∷ rest) = rw (le→leb 2 (suc (suc (length rest))) (omega arith))

host_t : Option Hostent → SockAddr → List ℕ → Transcript SockAddr
host_t none address = fail_t "cannot resolve address returned by upstream proxy"
host_t (some server) address =
    if server.h_addrtype == af_inet
    then pure_t (copy_host server address)
    else fail_t "FIXME: Resolved to IPv6 address. Use getaddrinfo() instead."

host-Refines :
    (found : Option Hostent) (address : SockAddr)
    → Refines (found_host found address) (host_t found address)
unfolding host_t
host-Refines none address = fail-Refines _
host-Refines (some server) address =
    if-Refines (server.h_addrtype == af_inet) (pure-Refines _) (fail-Refines _)

host-eq :
    (found : Option Hostent) (address : SockAddr) (p : List ℕ)
    → bind_t (host_t found address) port_t p ≡ host_reply found address p
unfolding host_t
host-eq none address p = refl
host-eq (some server) address p = elim (Bool-cases (server.h_addrtype == af_inet)) [
  | inl e ↦ rw e (port-eq (copy_host server address) p)
  | inr e ↦ rw e
]

check_t : ℕ → List ℕ → Transcript (Unit {0})
check_t command =
    if command == 0
    then pure_t tt
    else if command == 1
    then fail_t "upstream proxy experienced a general SOCKS server failure"
    else if command == 2
    then fail_t "upstream proxy rejected connection not allowed by ruleset"
    else fail_t "upstream proxy failed to establish connection to endpoint or rejected connection"

check-Refines : (command : ℕ) → Refines (check_reply command) (check_t command)
unfolding check_reply check_t
check-Refines command = if-Refines (command == 0) (pure-Refines tt) (
    if-Refines (command == 1) (fail-Refines _)
      (if-Refines (command == 2) (fail-Refines _) (fail-Refines _)))

check-eq :
    (command : ℕ) (rest : List ℕ)
    → check_t command rest
      ≡ (if command == 0 then answer (ok tt) rest [] else answer (throw (refusal command)) rest [])
unfolding check_t
check-eq command rest = elim (Bool-cases (command == 0)) [
  | inl e ↦ rw e
  | inr e ↦ rw e (elim (Bool-cases (command == 1)) [
    | inl k ↦ rw k
    | inr k ↦ rw k (elim (Bool-cases (command == 2)) [ inl j ↦ rw j | inr j ↦ rw j ])
  ])
]

module _ (gethostbyname : List ℕ → Option Hostent) where
  domain_t : List ℕ → Transcript SockAddr
  domain_t = bind_t (receive_t 1 "read from upstream proxy failed during main request") λ len.
      bind_t
        (require_t (if get_or len 0 0 == 0 then false else true)
          "upstream proxy sent zero-length domain")
        λ _.
          bind_t (receive_t (get_or len 0 0) "read from upstream proxy failed during request")
            λ name. host_t (gethostbyname (c_string name)) ipv4_address

  domain-Refines : Refines (read_domain gethostbyname ipv4_address) domain_t
  unfolding read_domain domain_t
  domain-Refines = bind-Refines (receive-Refines 1 _) λ len.
      bind-Refines (require-Refines _ _)
        λ _. bind-Refines (receive-Refines _ _) λ name. host-Refines _ ipv4_address

  domain-eq : (p : List ℕ) → bind_t domain_t port_t p ≡ domain_reply gethostbyname p
  unfolding domain_t
  domain-eq [] = refl
  domain-eq (len ∷ rest) =
      rw (le→leb 1 (suc (length rest)) (omega arith)) (elim (Bool-cases (len == 0)) [
        | inl e ↦ rw e
        | inr e ↦ rw e (elim (Bool-cases (leb len (length rest))) [
          | inl k ↦ rw k (host-eq (gethostbyname (c_string (take len rest))) ipv4_address _)
          | inr k ↦ rw k
        ])
      ])

  address_t : ℕ → List ℕ → Transcript SockAddr
  address_t kind =
      if kind == 1
      then bind_t (receive_t 4 "read from upstream proxy failed during CONNECT")
          (λ address_data. pure_t (record ipv4_address { s_addr = word address_data }))
      else if kind == 3
      then domain_t
      else if kind == 4
      then bind_t (receive_t 16 "read from upstream proxy failed during main request")
          (λ _. fail_t "upstream proxy returned IPv6 address (unsupported)")
      else fail_t "upstream proxy protocol mismatch"

  address-Refines :
      (kind : ℕ) → Refines (read_address gethostbyname kind ipv4_address) (address_t kind)
  unfolding read_address address_t
  address-Refines kind =
      if-Refines (kind == 1) (bind-Refines (receive-Refines 4 _) λ _. pure-Refines _) (
        if-Refines (kind == 3) domain-Refines (
          if-Refines (kind == 4) (bind-Refines (receive-Refines 16 _) λ _. fail-Refines _)
            (fail-Refines _)))

  address-eq :
      (kind : ℕ) (p : List ℕ)
      → bind_t (address_t kind) port_t p ≡ address_reply gethostbyname kind p
  unfolding address_t
  address-eq kind p = elim (Bool-cases (kind == 1)) [
    | inl e ↦ rw e (elim (Bool-cases (leb 4 (length p))) [
      | inl k ↦ rw k (port-eq _ (drop 4 p))
      | inr k ↦ rw k
    ])
    | inr e ↦ rw e (elim (Bool-cases (kind == 3)) [
      | inl k ↦ rw k (domain-eq p)
      | inr k ↦ rw k (elim (Bool-cases (kind == 4)) [
        | inr j ↦ rw j
        | inl j ↦ rw j (elim (Bool-cases (leb 16 (length p))) [ inl i ↦ rw i | inr i ↦ rw i ])
      ])
    ])
  ]

  rest_t : List ℕ → Transcript SockAddr
  rest_t = bind_t (receive_t 4 "read from upstream proxy failed during main request") λ response.
      bind_t (require_t (get_or response 0 0 == 5) "upstream proxy protocol mismatch") λ _.
        bind_t (check_t (get_or response 1 0)) λ _. bind_t (address_t (get_or response 3 0)) port_t

  rest-eq : (p : List ℕ) → rest_t p ≡ tunnel_reply gethostbyname p
  unfolding rest_t
  rest-eq [] = refl
  rest-eq (_ ∷ []) = refl
  rest-eq (_ ∷ _ ∷ []) = refl
  rest-eq (_ ∷ _ ∷ _ ∷ []) = refl
  rest-eq (version ∷ command ∷ reserved ∷ kind ∷ rest) =
      rw (le→leb 4 (suc (suc (suc (suc (length rest))))) (omega arith))
        (elim (Bool-cases (version == 5)) [
          | inr e ↦ rw e
          | inl e ↦ rw e (
              rw check-eq (elim (Bool-cases (command == 0)) [
                | inl k ↦ rw k (address-eq kind rest)
                | inr k ↦ rw k
              ]))
        ])

  -- The pieces put together.
  pub tunnel-Refines :
      (target : SockAddr) (cmd : ℕ)
      → Refines (socks5_request_tunnel gethostbyname target cmd) (λ p.
        let t = tunnel_reply gethostbyname p in
        record t { sent = tunnel_request target cmd ++ t.sent })
  unfolding socks5_request_tunnel flatten rest_t port_t
  tunnel-Refines target cmd =
      Refines-ext
        (bind-Refines (send_small-Refines _ _ (tunnel_request target cmd) refl (omega arith)) λ _.
          bind-Refines (receive-Refines 4 _) λ response. bind-Refines (require-Refines _ _) λ _.
            bind-Refines (check-Refines _) λ _.
              bind-Refines (address-Refines _)
                λ address. bind-Refines (receive-Refines 2 _) λ port. pure-Refines _)
        (λ p.
          ap {A = Transcript SockAddr}
            (λ t. record t { sent = tunnel_request target cmd ++ t.sent }) (rest-eq p))

  -- If the kernel refuses no write, then the request for a tunnel sends `tunnel_request` and does
  -- what `tunnel_reply` tells of the bytes to come, whatever the chunks they arrive in: the address
  -- it returns or its error, and the bytes left unread.
  pub socks5_request_tunnel_lem :
      (target : SockAddr) (cmd : ℕ) (s : Socket)
      → Willing s.answers
      → let t = tunnel_reply gethostbyname (pending s) in
        Shows s.sent
          (socks5_request_tunnel gethostbyname target cmd s)
          (record t { sent = tunnel_request target cmd ++ t.sent })
  socks5_request_tunnel_lem target cmd s w = (tunnel-Refines target cmd).shows s w
