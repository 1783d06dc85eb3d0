-- ===== src/Settings.antt =====
-- ProxySettings.hpp. Texts are lists of bytes; the resolver is a parameter.
pub mod Valid
use mathlib.Core.Bool.{xor}
use transproxify.Base.{
  ℕ, ◌≡◌, String, ◌<>◌, List, [], ◌∷◌, Bool, true, false, not, ◌&&◌, ◌||◌, Option, none, some,
  length, is_empty, ltb, ◌==◌, if◌then◌else◌, Outcome, ok, throw, ◌>>=◌, ◌>>◌, throw_if,
}
use transproxify.Base.Int.{ℤ, to_uint16}
use transproxify.Address.{SockAddr, Hostent, zero_address, af_inet, htons, copy_host}

pub data ProxyProtocol : Type 0 where
  direct http socks4 socks5 : ProxyProtocol

pub data ProxiedProtocol : Type 0 where
  tcp udp : ProxiedProtocol

pub record ProxySettings : Type 0 where
  pub proxy_protocol : ProxyProtocol
  pub proxied_protocol : ProxiedProtocol
  pub username : List ℕ
  pub password : List ℕ
  pub proxy_address : SockAddr

proxy_protocol_name : ProxyProtocol → String
proxy_protocol_name direct = "Direct"
proxy_protocol_name http = "HTTP"
proxy_protocol_name socks4 = "SOCKSv4"
proxy_protocol_name socks5 = "SOCKSv5"

proxied_protocol_name : ProxiedProtocol → String
proxied_protocol_name tcp = "TCP"
proxied_protocol_name udp = "UDP"

same_protocol : ProxiedProtocol → ProxiedProtocol → Bool
same_protocol tcp tcp = true
same_protocol udp udp = true
same_protocol tcp udp = false
same_protocol udp tcp = false

check_support : ProxyProtocol → ProxiedProtocol → List ProxiedProtocol → Outcome (Unit {0})
unfolding proxy_protocol_name proxied_protocol_name same_protocol
check_support proxy proxied [] =
    throw
      (proxy_protocol_name proxy <> " does not support proxying " <> proxied_protocol_name proxied)
check_support proxy proxied (supported ∷ support_list) =
    let rest = check_support proxy proxied support_list in
    if same_protocol proxied supported then ok tt else rest

-- Whether `std::string::find` finds the byte.
abbrev pub contains : ℕ → List ℕ → Bool
contains b [] = false
contains b (x ∷ xs) = x == b || contains b xs

-- The switch at the end of the constructor. Its default case has no value of the type.
check_protocol : ProxyProtocol → ProxiedProtocol → List ℕ → List ℕ → Outcome (Unit {0})
unfolding check_support xor
check_protocol direct proxied username password = check_support direct proxied (tcp ∷ udp ∷ [])
check_protocol http proxied username password = do
  check_support http proxied (tcp ∷ [])
  throw_if (xor (is_empty username) (is_empty password))
      "got only one of username or password for HTTP"
  throw_if (not (is_empty username) && contains b':' username)
      "HTTP username cannot contain ':' character"
check_protocol socks4 proxied username password = do
  check_support socks4 proxied (tcp ∷ [])
  throw_if (not (is_empty username) && not (is_empty password))
      "need only one of username or password for SOCKS4"
check_protocol socks5 proxied username password = do
  check_support socks5 proxied (tcp ∷ udp ∷ [])
  throw_if (xor (is_empty username) (is_empty password))
      "got only one of username or password for SOCKS5"
  throw_if (ltb 255 (length username)) "username too long for SOCKS5"
  throw_if (ltb 255 (length password)) "password too long for SOCKS5"

-- The address of the proxy, from its resolved name and port.
unfoldable pub proxy_address_of : Hostent → ℤ → SockAddr
proxy_address_of server port =
    record (copy_host server (record zero_address { sin_family = af_inet })) {
      sin_port = htons (to_uint16 port);
    }

resolve : Option Hostent → ℤ → Outcome SockAddr
unfolding proxy_address_of
resolve none port = throw "could not resolve proxy hostname"
resolve (some server) port =
    if server.h_addrtype == af_inet
    then ok (proxy_address_of server port)
    else throw "FIXME: Resolved to IPv6 address. Use getaddrinfo() instead."

module _ (gethostbyname : List ℕ → Option Hostent) where
  -- The constructor `ProxySettings::ProxySettings`.
  unfoldable pub new_settings :
      ProxyProtocol → ProxiedProtocol → List ℕ → ℤ → List ℕ → List ℕ → Outcome ProxySettings
  unfolding resolve check_protocol
  new_settings proxy_protocol proxied_protocol proxy_host proxy_port username password = do
    proxy_address ← resolve (gethostbyname proxy_host) proxy_port
    check_protocol proxy_protocol proxied_protocol username password
    ok (record {
      proxy_protocol = proxy_protocol;
      proxied_protocol = proxied_protocol;
      username = username;
      password = password;
      proxy_address = proxy_address;
    })
