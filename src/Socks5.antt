-- ===== src/Socks5.antt =====
-- Socks5Proxy.hpp and Socks5TcpProxy.hpp: greeting, authentication and the request for a tunnel.
-- The resolver is a parameter.
pub mod Greeting
pub mod Reply
pub mod Tunnel
pub mod Connect
pub mod Request
use transproxify.Base.{
  ℕ, ◌%◌, ◌≡◌, String, List, [], ◌∷◌, ◌++◌, Bool, Option, none, some, length, get_or, take,
  is_empty, true, false, ◌==◌, if◌then◌else◌,
}
use transproxify.Address.{
  SockAddr, Hostent, zero_address, af_inet, bytes16, bytes32, word, copy_host,
}
use transproxify.Settings.{ProxySettings}
use transproxify.Upstream.{M, pure, fail, ◌>>=◌, ◌>>◌, require, receive, send_packet}

-- The methods offered: none, and username and password if there is a username.
abbrev pub methods : ProxySettings → List ℕ
methods settings = 0x00 ∷ (if is_empty settings.username then [] else 0x02 ∷ [])

-- The subnegotiation with username and password.
authenticate : ProxySettings → M (Unit {0})
authenticate settings = do
  let username_len = length settings.username % 256
  let password_len = length settings.password % 256
  send_packet
      ((1 ∷ [])
        ∷ (username_len ∷ [])
        ∷ take username_len settings.username
        ∷ (password_len ∷ [])
        ∷ take password_len settings.password
        ∷ [])
      "write to upstream proxy failed during authentication"
  version ← receive 1 "read from upstream proxy failed during authentication"
  require (get_or version 0 0 == 1) "upstream proxy protocol mismatch"
  status ← receive 1 "read from upstream proxy failed during authentication"
  require (get_or status 0 0 == 0) "upstream proxy authentication failure"

-- The switch on the method that the proxy chose.
use_method : ProxySettings → ℕ → M (Unit {0})
use_method settings method =
    if method == 0x00
    then pure tt
    else if method == 0x02
    then (if is_empty settings.username
        then fail
            "upstream proxy selected username and password authentication where no authentication was expected"
        else authenticate settings)
    else if method == 0xff
    then fail "upstream proxy no authentication method"
    else fail "upstream proxy protocol mismatch"

pub socks5_greet_and_authenticate : ProxySettings → M (Unit {0})
socks5_greet_and_authenticate settings = do
  send_packet ((5 ∷ length (methods settings) % 256 ∷ []) ∷ methods settings ∷ [])
      "write to upstream proxy failed during auth negotiation"
  response ← receive 2 "read from upstream proxy failed during auth negotiation"
  require (get_or response 0 0 == 5) "upstream proxy protocol mismatch"
  use_method settings (get_or response 1 0)

-- The switch on the reply's command field.
check_reply : ℕ → M (Unit {0})
check_reply command =
    if command == 0
    then pure tt
    else if command == 1
    then fail "upstream proxy experienced a general SOCKS server failure"
    else if command == 2
    then fail "upstream proxy rejected connection not allowed by ruleset"
    else fail "upstream proxy failed to establish connection to endpoint or rejected connection"

-- The bytes of a buffer up to its first zero byte.
abbrev pub c_string : List ℕ → List ℕ
c_string [] = []
c_string (b ∷ bs) = let rest = c_string bs in if b == 0 then [] else b ∷ rest

-- What becomes of a name that the proxy sent.
abbrev pub found_host : Option Hostent → SockAddr → M SockAddr
found_host none address = fail "cannot resolve address returned by upstream proxy"
found_host (some server) address =
    if server.h_addrtype == af_inet
    then pure (copy_host server address)
    else fail "FIXME: Resolved to IPv6 address. Use getaddrinfo() instead."

module _ (gethostbyname : List ℕ → Option Hostent) where
  read_domain : SockAddr → M SockAddr
  read_domain address = do
    len ← receive 1 "read from upstream proxy failed during main request"
    require (if get_or len 0 0 == 0 then false else true) "upstream proxy sent zero-length domain"
    name ← receive (get_or len 0 0) "read from upstream proxy failed during request"
    found_host (gethostbyname (c_string name)) address

  -- The switch on the address type; 4 is sizeof(response).
  read_address : ℕ → SockAddr → M SockAddr
  read_address address_type address =
      if address_type == 1
      then (do
        address_data ← receive 4 "read from upstream proxy failed during CONNECT"
        pure (record address { s_addr = word address_data }))
      else if address_type == 3
      then read_domain address
      else if address_type == 4
      then (do
        address_data ← receive 16 "read from upstream proxy failed during main request"
        fail "upstream proxy returned IPv6 address (unsupported)")
      else fail "upstream proxy protocol mismatch"

  pub socks5_request_tunnel : SockAddr → ℕ → M SockAddr
  socks5_request_tunnel target_address cmd = do
    send_packet
        ((5 ∷ cmd ∷ 0 ∷ 1 ∷ [])
          ∷ bytes32 target_address.s_addr
          ∷ bytes16 target_address.sin_port
          ∷ [])
        "write to upstream proxy failed during main request"
    response ← receive 4 "read from upstream proxy failed during main request"
    require (get_or response 0 0 == 5) "upstream proxy protocol mismatch"
    check_reply (get_or response 1 0)
    bnd_address ← read_address (get_or response 3 0) (record zero_address { sin_family = af_inet })
    port ← receive 2 "read from upstream proxy failed during main request"
    pure (record bnd_address { sin_port = word port })

  -- `Socks5TcpProxy::proxy_negotiate`; 1 is CONNECT.
  pub proxy_negotiate : ProxySettings → SockAddr → M (Unit {0})
  proxy_negotiate settings target_address = do
    socks5_greet_and_authenticate settings
    bnd_address ← socks5_request_tunnel target_address 1
    pure tt

  -- The same for datagrams, in the constructor of `Socks5UdpProxy`: an association.
  pub associate : ProxySettings → SockAddr → M SockAddr
  associate settings target_address = do
    socks5_greet_and_authenticate settings
    socks5_request_tunnel target_address 3
