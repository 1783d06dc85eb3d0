-- ===== src/Socks5/Reply.antt =====
-- What the reply to a request for a tunnel comes to, by its bytes.
use transproxify.Base.{
  ℕ, String, List, [], ◌∷◌, Option, none, some, length, take, drop, leb, ◌==◌, if◌then◌else◌, ok,
  throw,
}
use transproxify.Address.{SockAddr, Hostent, zero_address, af_inet, word, copy_host}
use transproxify.Upstream.Refines.{Transcript}
use transproxify.Socks5.{c_string}
use transproxify.Socks5.Greeting.{answer}

-- The port ends the reply.
abbrev pub port_reply : SockAddr → List ℕ → Transcript SockAddr
port_reply address [] = answer (throw "read from upstream proxy failed during main request") [] []
port_reply address (x ∷ []) =
    answer (throw "read from upstream proxy failed during main request") [] []
port_reply address (x ∷ y ∷ rest) =
    answer (ok (record address { sin_port = word (x ∷ y ∷ []) })) rest []

-- The address of a name that the proxy sent.
abbrev pub host_reply : Option Hostent → SockAddr → List ℕ → Transcript SockAddr
host_reply none address rest =
    answer (throw "cannot resolve address returned by upstream proxy") rest []
host_reply (some server) address rest =
    if server.h_addrtype == af_inet
    then port_reply (copy_host server address) rest
    else answer (throw "FIXME: Resolved to IPv6 address. Use getaddrinfo() instead.") rest []

abbrev pub ipv4_address : SockAddr
ipv4_address = record zero_address { sin_family = af_inet }

abbrev pub refusal : ℕ → String
refusal command =
    if command == 1
    then "upstream proxy experienced a general SOCKS server failure"
    else if command == 2
    then "upstream proxy rejected connection not allowed by ruleset"
    else "upstream proxy failed to establish connection to endpoint or rejected connection"

module _ (gethostbyname : List ℕ → Option Hostent) where
  abbrev pub domain_reply : List ℕ → Transcript SockAddr
  domain_reply [] = answer (throw "read from upstream proxy failed during main request") [] []
  domain_reply (len ∷ rest) =
      if len == 0
      then answer (throw "upstream proxy sent zero-length domain") rest []
      else if leb len (length rest)
      then host_reply (gethostbyname (c_string (take len rest))) ipv4_address (drop len rest)
      else answer (throw "read from upstream proxy failed during request") (drop len rest) []

  abbrev pub address_reply : ℕ → List ℕ → Transcript SockAddr
  address_reply kind rest =
      if kind == 1
      then (if leb 4 (length rest)
          then port_reply (record ipv4_address { s_addr = word (take 4 rest) }) (drop 4 rest)
          else answer (throw "read from upstream proxy failed during CONNECT") (drop 4 rest) [])
      else if kind == 3
      then domain_reply rest
      else if kind == 4
      then answer
          (throw (
            if leb 16 (length rest)
            then "upstream proxy returned IPv6 address (unsupported)"
            else "read from upstream proxy failed during main request"))
          (drop 16 rest) []
      else answer (throw "upstream proxy protocol mismatch") rest []

  -- Version, result, a reserved byte and the address type, then the address.
  abbrev pub tunnel_reply : List ℕ → Transcript SockAddr
  tunnel_reply (version ∷ command ∷ reserved ∷ kind ∷ rest) =
      if version == 5
      then if command == 0
        then address_reply kind rest
        else answer (throw (refusal command)) rest []
      else answer (throw "upstream proxy protocol mismatch") rest []
  tunnel_reply _ = answer (throw "read from upstream proxy failed during main request") [] []
