-- ===== src/Socks5/Request.antt =====
-- What the client sends, read as a proxy reads it (RFC 1928 and RFC 1929).
use transproxify.Base.{
  AreBytes, All-append, ◌≢◌, get_or, ◌==◌, ◌&&◌, not, false, is_empty, if◌then◌else◌, Outcome, ok,
  throw, ◌>>=◌, ◌>>◌, throw_if, Bool-cases, inl, inr, ℕ, ◌^◌, ◌<◌, ◌≡◌, refl, ap, List, [], ◌∷◌,
  ◌++◌, append_assoc, Option, none, some, length, take, drop, take-append, drop-append, arith,
}
use transproxify.Address.{SockAddr, Hostent, word}
use transproxify.Wire.{Socket, Willing, pending}
use transproxify.Socks5.{proxy_negotiate}
use transproxify.Settings.{ProxySettings}
use transproxify.Socks5.Greeting.{Fits, offer, credentials}
use transproxify.Settings.{contains}
use transproxify.Socks5.Connect.{Greeted, unauthenticated, authenticated, negotiate_granted}
use transproxify.Socks5.Tunnel.{tunnel_request}

-- What a proxy learns: the credentials, if it has chosen to ask for them, and the request with its
-- IPv4 address and port as words of memory.
pub record Session : Type 0 where
  pub credentials : Option (List ℕ × List ℕ)
  pub command : ℕ
  pub address : ℕ
  pub port : ℕ

-- The methods that are offered.
pub read_offer : List ℕ → Outcome (List ℕ × List ℕ)
read_offer (version ∷ count ∷ rest) = do
  throw_if (not (version == 5)) "version"
  ok (take count rest, drop count rest)
read_offer _ = throw "cut off"

-- The request of RFC 1929.
pub read_credentials : List ℕ → Outcome (Option (List ℕ × List ℕ) × List ℕ)
read_credentials (version ∷ len ∷ rest) = elim (drop len rest) [
  | [] ↦ throw "cut off"
  | len' ∷ rest' ↦ do
    throw_if (not (version == 1)) "version"
    ok (some (take len rest, take len' rest'), drop len' rest')
]
read_credentials _ = throw "cut off"

-- The credentials are sent if the method 2 is chosen.
pub read_method : ℕ → List ℕ → Outcome (Option (List ℕ × List ℕ) × List ℕ)
unfolding read_credentials
read_method method rest =
    let asked = read_credentials rest in if method == 2 then asked else ok (none, rest)

pub read_request : Option (List ℕ × List ℕ) → List ℕ → Outcome (Session × List ℕ)
read_request credentials
      (version ∷ command ∷ reserved ∷ address_type ∷ a ∷ b ∷ c ∷ d ∷ x ∷ y ∷ rest) =
    do
      throw_if (not (version == 5 && address_type == 1)) "version or address type"
      ok (
        record {
          credentials = credentials;
          command = command;
          address = word (a ∷ b ∷ c ∷ d ∷ []);
          port = word (x ∷ y ∷ []);
        },
        rest,
      )
read_request credentials _ = throw "cut off"

-- All that a proxy reads that chooses a method, which has to be one of those offered.
pub read_session : ℕ → List ℕ → Outcome (Session × List ℕ)
unfolding read_offer read_method read_request
read_session method text = do
  (offered, rest) ← read_offer text
  throw_if (not (contains method offered)) "method"
  (credentials, rest') ← read_method method rest
  read_request credentials rest'

read_credentials-credentials :
    (settings : ProxySettings) (rest : List ℕ)
    → read_credentials (credentials settings ++ rest)
      ≡ ok (some (settings.username, settings.password), rest)
unfolding read_credentials
read_credentials-credentials settings rest =
    let u = settings.username in
    let w = settings.password in
    rw append_assoc (
      rw (read_credentials, drop-append u (length w ∷ (w ++ rest)))
        (rw (take-append u (length w ∷ (w ++ rest)), take-append w rest, drop-append w rest) refl))

-- What a proxy learns from the settings and the target.
abbrev pub learnt : Option (List ℕ × List ℕ) → SockAddr → Session
learnt credentials target = record {
  credentials = credentials;
  command = 1;
  address = target.s_addr;
  port = target.sin_port;
}

read_request-tunnel_request :
    (credentials : Option (List ℕ × List ℕ)) (target : SockAddr) (rest : List ℕ)
    → target.s_addr < 2 ^ 32
    → target.sin_port < 2 ^ 16
    → read_request credentials (tunnel_request target 1 ++ rest)
      ≡ ok (learnt credentials target, rest)
unfolding read_request
read_request-tunnel_request credentials target rest a p = ap (λ s. ok (s, rest)) (ground arith)

-- The credentials that a proxy asks for with its reply.
abbrev pub asked_for : ProxySettings → List ℕ → Option (List ℕ × List ℕ)
asked_for settings reply =
    if get_or reply 1 0 == 2 then some (settings.username, settings.password) else none

named-is_empty : (xs : List ℕ) → xs ≢ [] → is_empty xs ≡ false
named-is_empty [] h = absurd (h refl)
named-is_empty (x ∷ xs) h = refl

session_lem :
    (settings : ProxySettings) (target : SockAddr) (reply sent tunnel : List ℕ)
    → Greeted settings reply sent
    → target.s_addr < 2 ^ 32
    → target.sin_port < 2 ^ 16
    → read_session (get_or reply 1 0) ((sent ++ tunnel_request target 1) ++ tunnel)
      ≡ ok (learnt (asked_for settings reply) target, tunnel)
unfolding read_session
session_lem settings target _ _ tunnel unauthenticated a p =
    elim (Bool-cases (is_empty settings.username)) [
      | inl e ↦ rw e (read_request-tunnel_request none target tunnel a p)
      | inr e ↦ rw e (read_request-tunnel_request none target tunnel a p)
    ]
session_lem settings target _ _ tunnel (authenticated named) a p =
    rw (named-is_empty settings.username named, append_assoc)
      (rw (read_credentials-credentials settings (tunnel_request target 1 ++ tunnel)) (
        read_request-tunnel_request (some (settings.username, settings.password)) target tunnel a
          p))

credentials-AreBytes :
    (settings : ProxySettings)
    → Fits settings
    → AreBytes settings.username
    → AreBytes settings.password
    → AreBytes (credentials settings)
credentials-AreBytes settings fits u w = (
  omega arith,
  (
    omega (arith, fits.0),
    All-append _ settings.username (length settings.password ∷ settings.password) u
        (omega (arith, fits.1), w),
  ),
)

offer-AreBytes : (settings : ProxySettings) → AreBytes (offer settings)
offer-AreBytes settings = elim (Bool-cases (is_empty settings.username)) [
  | inl e ↦ rw e (omega arith, (omega arith, (omega arith, tt)))
  | inr e ↦ rw e (omega arith, (omega arith, (omega arith, (omega arith, tt))))
]

sent-AreBytes :
    (settings : ProxySettings) {reply sent : List ℕ}
    → Greeted settings reply sent
    → Fits settings
    → AreBytes settings.username
    → AreBytes settings.password
    → AreBytes sent
sent-AreBytes settings unauthenticated fits u w = offer-AreBytes settings
sent-AreBytes settings (authenticated named) fits u w =
    All-append _ (offer settings) (credentials settings) (offer-AreBytes settings)
      (credentials-AreBytes settings fits u w)

tunnel_request-AreBytes : (target : SockAddr) → AreBytes (tunnel_request target 1)
tunnel_request-AreBytes target = ground arith

-- What a negotiation has sent, and what a proxy reads in it that chose a method in its reply.
abbrev pub Told : ProxySettings → SockAddr → List ℕ → List ℕ → List ℕ → Type 0
Told settings target reply out tunnel =
    AreBytes out
    × (read_session (get_or reply 1 0) (out ++ tunnel)
        ≡ ok (learnt (asked_for settings reply) target, tunnel))

Greeted-Told :
    (settings : ProxySettings) (target : SockAddr) {reply sent : List ℕ} (tunnel : List ℕ)
    → Fits settings
    → AreBytes settings.username
    → AreBytes settings.password
    → target.s_addr < 2 ^ 32
    → target.sin_port < 2 ^ 16
    → Greeted settings reply sent
    → Told settings target reply (sent ++ tunnel_request target 1) tunnel
Greeted-Told settings target {reply} {sent} tunnel fits u w a p greeted = (
  All-append _ sent (tunnel_request target 1) (sent-AreBytes settings greeted fits u w)
      (tunnel_request-AreBytes target),
  session_lem settings target reply sent tunnel greeted a p,
)

-- Let the proxy accept the greeting and grant the connection with an IPv4 address, on a socket that
-- refuses no write and whatever the chunks that arrive; let the credentials fit and be bytes, and
-- the target be an address. All that the negotiation has sent is bytes. A proxy that reads it finds
-- the method that it has chosen among those offered, the username and the password exactly if it
-- asks for them, and a CONNECT request for the address and the port of the target, and it goes on
-- at the first byte behind the request.
pub proxy_negotiate-Told :
    (gethostbyname : List ℕ → Option Hostent) (settings : ProxySettings) (target : SockAddr)
    (s : Socket) (reply sent rest tunnel : List ℕ) (reserved a b c d x y : ℕ)
    → Fits settings
    → AreBytes settings.username
    → AreBytes settings.password
    → target.s_addr < 2 ^ 32
    → target.sin_port < 2 ^ 16
    → Willing s.answers
    → Greeted settings reply sent
    → pending s ≡ reply ++ (5 ∷ 0 ∷ reserved ∷ 1 ∷ a ∷ b ∷ c ∷ d ∷ x ∷ y ∷ rest)
    → (out : List ℕ) × ((proxy_negotiate gethostbyname settings target s).1.sent ≡ s.sent ++ out)
      × Told settings target reply out tunnel
proxy_negotiate-Told gethostbyname settings target s reply sent rest tunnel reserved a b c d x y
      fits u w address port willing greeted come =
    (
      sent ++ tunnel_request target 1,
      (negotiate_granted gethostbyname settings target s reply sent rest reserved a b c d x y fits
          willing greeted come).2,
      Greeted-Told settings target tunnel fits u w address port greeted,
    )
