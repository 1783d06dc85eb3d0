-- ===== src/Socks4/Connect.antt =====
-- The negotiation as a function of the bytes that the proxy sends.
use mathlib.Core.List.{flatten}
use transproxify.Base.{
  ℕ, suc, ◌<◌, ◌≡◌, inl, inr, List, [], ◌∷◌, ◌++◌, true, false, arith, length, drop, get_or, leb,
  ◌||◌, ◌==◌, if◌then◌else◌, Bool-cases, Outcome, ok, throw, append-nil,
}
use transproxify.Address.{SockAddr, bytes16, bytes32}
use transproxify.Settings.{ProxySettings}
use transproxify.Util.{size_mod}
use transproxify.Wire.{Socket, pending, Willing}
use transproxify.Upstream.{packet_size}
use transproxify.Upstream.Refines.{
  Transcript, Shows, Refines, pure_t, fail_t, bind_t, send_t, require_t, receive_t, pure-Refines,
  fail-Refines, require-Refines, bind-Refines, receive-Refines, if-Refines, Refines-ext,
}
use transproxify.Upstream.Packets.{send_packet-Refines}
use transproxify.Socks5.{c_string}
use transproxify.Socks5.Greeting.{answer}
use transproxify.Socks4.{user_id, check_response, proxy_negotiate}

-- Version, command, port, address, user id and a zero byte.
abbrev pub request : ProxySettings → SockAddr → List ℕ
request settings target =
    4
    ∷ 1
    ∷ (bytes16 target.sin_port
        ++ (bytes32 target.s_addr ++ (c_string (user_id settings) ++ (0 ∷ []))))

abbrev pub verdict : ℕ → Outcome (Unit {0})
verdict command =
    if command == 90
    then ok tt
    else throw (
        if command == 91
        then "upstream proxy failed to establish connection to endpoint or rejected connection"
        else if command == 92 || command == 93
        then "upstream proxy identd authentication failure"
        else "upstream proxy protocol mismatch")

-- A reply has eight bytes: a version of 0, a result, and six bytes that are not looked at.
abbrev pub reply : List ℕ → List ℕ → Transcript (Unit {0})
reply sent (version ∷ command ∷ rest) =
    if leb 6 (length rest)
    then answer (if version == 0 then verdict command else throw "upstream proxy protocol mismatch")
        (drop 6 rest) sent
    else answer (throw "read from upstream proxy failed during CONNECT") (drop 6 rest) sent
reply sent _ = answer (throw "read from upstream proxy failed during CONNECT") [] sent

verdict_t : ℕ → List ℕ → Transcript (Unit {0})
verdict_t command =
    if command == 90
    then pure_t tt
    else if command == 91
    then fail_t "upstream proxy failed to establish connection to endpoint or rejected connection"
    else if command == 92
    then fail_t "upstream proxy identd authentication failure"
    else if command == 93
    then fail_t "upstream proxy identd authentication failure"
    else fail_t "upstream proxy protocol mismatch"

verdict-Refines : (command : ℕ) → Refines (check_response command) (verdict_t command)
unfolding check_response verdict_t
verdict-Refines command = if-Refines (command == 90) (pure-Refines tt) (
    if-Refines (command == 91) (fail-Refines _) (
      if-Refines (command == 92) (fail-Refines _)
        (if-Refines (command == 93) (fail-Refines _) (fail-Refines _))))

verdict-eq : (command : ℕ) (p : List ℕ) → verdict_t command p ≡ answer (verdict command) p []
unfolding verdict_t
verdict-eq command p = elim (Bool-cases (command == 90)) [
  | inl e ↦ rw e
  | inr e ↦ rw e (elim (Bool-cases (command == 91)) [
    | inl k ↦ rw k
    | inr k ↦ rw k (elim (Bool-cases (command == 92)) [
      | inl j ↦ rw j
      | inr j ↦ rw j (elim (Bool-cases (command == 93)) [ inl i ↦ rw i | inr i ↦ rw i ])
    ])
  ])
]

reply_t : List ℕ → Transcript (Unit {0})
reply_t = bind_t (receive_t 8 "read from upstream proxy failed during CONNECT") λ response.
    bind_t (require_t (get_or response 0 0 == 0) "upstream proxy protocol mismatch")
      λ _. verdict_t (get_or response 1 0)

reply-eq : (sent p : List ℕ) → bind_t (send_t sent) (λ _. reply_t) p ≡ reply sent p
unfolding reply_t
reply-eq sent [] = rw append-nil
reply-eq sent (_ ∷ []) = rw append-nil
reply-eq sent (version ∷ command ∷ rest) = elim (Bool-cases (leb 6 (length rest))) [
  | inl e ↦
      rw (longer e, e)
        (elim (Bool-cases (version == 0)) [
          | inl k ↦ rw k (rw (verdict-eq command (drop 6 rest)) (rw append-nil))
          | inr k ↦ rw k (rw append-nil)
        ])
  | inr e ↦ rw (shorter e, e) (rw append-nil)
]
  where
    longer : leb 6 (length rest) ≡ true → leb 8 (suc (suc (length rest))) ≡ true
    longer e = ground arith

    shorter : leb 6 (length rest) ≡ false → leb 8 (suc (suc (length rest))) ≡ false
    shorter e = ground arith

pub negotiate-Refines :
    (settings : ProxySettings) (target : SockAddr)
    → length (request settings target) < size_mod
    → Refines (proxy_negotiate settings target) (λ p.
      if leb (length (request settings target)) packet_size
      then reply (request settings target) p
      else answer (throw "write to upstream proxy failed during CONNECT") p [])
unfolding proxy_negotiate flatten reply_t
negotiate-Refines settings target small =
    Refines-ext
      (bind-Refines (send_packet-Refines _ _ (request settings target) (rw append-nil) small) λ _.
        bind-Refines (receive-Refines 8 _)
          λ response. bind-Refines (require-Refines _ _) λ _. verdict-Refines _)
      (λ p. elim (Bool-cases (leb (length (request settings target)) packet_size)) [
        | inl e ↦ rw e (reply-eq (request settings target) p)
        | inr e ↦ rw e
      ])

-- If the kernel refuses no write, then a request that fits into the buffer is sent and answered as
-- `reply` tells of the bytes to come, whatever the chunks they arrive in; a longer one is an error,
-- and nothing is sent or read.
pub proxy_negotiate_lem :
    (settings : ProxySettings) (target : SockAddr) (s : Socket)
    → length (request settings target) < size_mod
    → Willing s.answers
    → Shows s.sent (proxy_negotiate settings target s) (
        if leb (length (request settings target)) packet_size
        then reply (request settings target) (pending s)
        else answer (throw "write to upstream proxy failed during CONNECT") (pending s) [])
proxy_negotiate_lem settings target s small w = (negotiate-Refines settings target small).shows s w
