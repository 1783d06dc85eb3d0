-- ===== src/Http.antt =====
-- HttpTcpProxy.hpp: the CONNECT request and the reading of its reply. The text of an address is a
-- field of the target, as `Proxy` keeps it.
pub mod Reply
pub mod Granted
pub mod Sent
pub mod Request
use transproxify.Base.{
  ℕ, zero, suc, ◌+◌, ◌-◌, ◌*◌, ◌/◌, ◌%◌, List, [], ◌∷◌, ◌++◌, Bool, true, false, ◌&&◌, Option, none,
  some, length, is_empty, codes, leb, ◌==◌, if◌then◌else◌, throw, ok, Outcome,
}
use transproxify.Wire.{Socket, Got, failed, got, read, pending}
use transproxify.Util.{base64encode}
use transproxify.Settings.{ProxySettings}
use transproxify.Socks5.{c_string}
use transproxify.Upstream.{M, pure, fail, ◌>>=◌, ◌>>◌, send}

-- `do { read one byte } while (c == '\r')`. Each round takes a byte of those to come.
char_loop : ℕ → M ℕ
unfolding read
char_loop zero s = fail "upstream proxy connection lost before tunnelling" s
char_loop (suc fuel) s =
    let (r, i) = read 1 s.inbound in
    let s' : Socket = record s { inbound = i } in
    elim r [
      | failed ↦ (throw "upstream proxy connection lost before tunnelling", s')
      | got [] ↦ (throw "upstream proxy connection lost before tunnelling", s')
      | got (c ∷ _) ↦ let again = char_loop fuel s' in if c == b'\r' then again else (ok c, s')
    ]

next_char : M ℕ
unfolding char_loop
next_char s = char_loop (suc (length (pending s))) s

-- The loop over `line`: the room that is left in it, and the characters so far.
line_loop : ℕ → List ℕ → M (List ℕ)
line_loop zero line = fail "upstream proxy response too large"
line_loop (suc room) line = do
  c ← next_char
  let more = line_loop room (line ++ c ∷ [])
  if c == b'\n' then pure line else more

abbrev pub is_digit : ℕ → Bool
is_digit c = leb b'0' c && leb c b'9'

-- The match of "^HTTP/1.1 ([0-9]{3}) ", whose dot stands for any character, and `std::stoi` of it.
unfoldable pub status_code : List ℕ → Option ℕ
status_code (h ∷ t ∷ t' ∷ p ∷ slash ∷ one ∷ dot ∷ one' ∷ space ∷ x ∷ y ∷ z ∷ space' ∷ rest) =
    if h == b'H'
      && t == b'T'
      && t' == b'T'
      && p == b'P'
      && slash == b'/'
      && one == b'1'
      && one' == b'1'
      && space == b' '
      && is_digit x
      && is_digit y
      && is_digit z
      && space' == b' '
    then some ((x - b'0') * 100 + (y - b'0') * 10 + (z - b'0'))
    else none
status_code _ = none

-- The loop that exhausts the reply. Each round takes a byte of those to come.
drain_loop : ℕ → Bool → M (Unit {0})
drain_loop zero newline = fail "upstream proxy connection lost before tunnelling"
drain_loop (suc fuel) newline = do
  c ← next_char
  let ended = drain_loop fuel true
  let other = drain_loop fuel false
  if c == b'\n' then (if newline then pure tt else ended) else other

drain : M (Unit {0})
drain s = drain_loop (suc (length (pending s))) true s

-- The line has been read; its text ends at the first zero byte.
answered : Option ℕ → M ℕ
answered none = fail "upstream proxy protocol mismatch"
answered (some code) = do drain; pure code

pub get_http_proxy_status : M ℕ
get_http_proxy_status = do line ← line_loop 256 []; answered (status_code (c_string line))

-- `std::to_string` of a port.
unfoldable pub digits_loop : ℕ → ℕ → List ℕ → List ℕ
digits_loop zero n text = text
digits_loop (suc fuel) n text =
    let text' = (n % 10 + b'0') ∷ text in
    let rest = digits_loop fuel (n / 10) text' in if n / 10 == 0 then text' else rest

unfoldable pub to_string : ℕ → List ℕ
unfolding digits_loop
to_string n = digits_loop (suc n) n []

-- The header with the credentials, if there is a username.
abbrev pub authorization : ProxySettings → List ℕ
authorization settings =
    if is_empty settings.username
    then []
    else codes "Proxy-Authorization: Basic "
      ++ base64encode (settings.username ++ (b':' ∷ settings.password))
      ++ (b'\n' ∷ [])

abbrev pub tunnel_request : ProxySettings → List ℕ → ℕ → List ℕ
tunnel_request settings target_host target_port =
    codes "CONNECT "
    ++ target_host
    ++ (b':' ∷ to_string target_port)
    ++ codes " HTTP/1.1\n"
    ++ codes "Host: "
    ++ target_host
    ++ (b':' ∷ to_string target_port)
    ++ codes "\n"
    ++ authorization settings
    ++ codes "\n"

check_status : ℕ → M (Unit {0})
check_status code =
    if code == 200
    then pure tt
    else if code == 407
    then fail "upstream proxy authorization required"
    else fail "upstream proxy failed to establish connection to endpoint or rejected connection"

-- `HttpTcpProxy::proxy_negotiate`
pub proxy_negotiate : ProxySettings → List ℕ → ℕ → M (Unit {0})
proxy_negotiate settings target_host target_port = do
  send (tunnel_request settings target_host target_port)
      "write to upstream proxy failed during CONNECT"
  code ← get_http_proxy_status
  check_status code
