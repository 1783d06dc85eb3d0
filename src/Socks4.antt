-- ===== src/Socks4.antt =====
-- Socks4TcpProxy.hpp: the negotiation of a connection.
pub mod Connect
pub mod Request
use transproxify.Base.{ℕ, List, [], ◌∷◌, ◌++◌, is_empty, get_or, ◌==◌, if◌then◌else◌}
use transproxify.Address.{SockAddr, bytes16, bytes32}
use transproxify.Settings.{ProxySettings}
use transproxify.Socks5.{c_string}
use transproxify.Upstream.{M, pure, fail, ◌>>=◌, ◌>>◌, require, receive, send_packet}

-- The username, else the password, else the empty text.
abbrev pub user_id : ProxySettings → List ℕ
user_id settings =
    if is_empty settings.username
    then (if is_empty settings.password then [] else settings.password)
    else settings.username

check_response : ℕ → M (Unit {0})
check_response command =
    if command == 90
    then pure tt
    else if command == 91
    then fail "upstream proxy failed to establish connection to endpoint or rejected connection"
    else if command == 92
    then fail "upstream proxy identd authentication failure"
    else if command == 93
    then fail "upstream proxy identd authentication failure"
    else fail "upstream proxy protocol mismatch"

-- `Socks4TcpProxy::proxy_negotiate`. The user id goes out as a C string, with its zero byte.
pub proxy_negotiate : ProxySettings → SockAddr → M (Unit {0})
proxy_negotiate settings target_address = do
  send_packet
      ((4 ∷ 1 ∷ (bytes16 target_address.sin_port ++ bytes32 target_address.s_addr))
        ∷ (c_string (user_id settings) ++ (0 ∷ []))
        ∷ [])
      "write to upstream proxy failed during CONNECT"
  response ← receive 8 "read from upstream proxy failed during CONNECT"
  require (get_or response 0 0 == 0) "upstream proxy protocol mismatch"
  check_response (get_or response 1 0)
