-- ===== src/Http/Request.antt =====
-- The CONNECT request, read as a proxy reads it (RFC 7231 and RFC 7617).
use transproxify.Base.{
  ℕ, zero, suc, ◌+◌, ◌/◌, ◌%◌, ◌^◌, ◌<◌, ◌≡◌, ◌≢◌, refl, sym, ap, ◌∙◌, inl, inr, List, [], ◌∷◌,
  ◌++◌, append_assoc, append-nil, Option, none, some, codes, arith, All, All-append, All-map, until,
  until-append, AreBytes, is_empty, ◌==◌, if◌then◌else◌, Bool-cases, Outcome, ok, throw, ◌>>=◌,
}
use transproxify.Base.Int.{ℤ, pos}
use transproxify.Util.{base64encode}
use transproxify.Util.Base64.{base64decode, base64decode-base64encode, base64encode-All}
use transproxify.Settings.{ProxySettings, http, tcp}
use transproxify.Settings.Valid.{Allows}
use transproxify.Main.{Parsed, number, invalid_argument, out_of_range, stoi}
use transproxify.Main.Number.{stoi-to_string}
use transproxify.Http.{to_string, digits_loop, tunnel_request, authorization, proxy_negotiate}
use transproxify.Http.Sent.{proxy_negotiate-sent}
use transproxify.Wire.{Socket, Willing}

pub record Request : Type 0 where
  pub host : List ℕ
  pub port : ℤ
  pub credentials : Option (List ℕ × List ℕ)

-- The text behind a text that has to be there.
abbrev pub expect : List ℕ → List ℕ → Outcome (List ℕ)
expect [] text = ok text
expect (c ∷ cs) [] = throw "request cut off"
expect (c ∷ cs) (x ∷ xs) =
    let rest = expect cs xs in if c == x then rest else throw "unexpected character"

abbrev read_port : Parsed → Outcome ℤ
read_port (number n) = ok n
read_port invalid_argument = throw "no port"
read_port out_of_range = throw "no port"

-- The header with the credentials, if there is one, and the empty line.
pub read_credentials : List ℕ → Outcome (Option (List ℕ × List ℕ) × List ℕ)
read_credentials [] = throw "request cut off"
read_credentials (c ∷ text) =
    let with_credentials : Outcome (Option (List ℕ × List ℕ) × List ℕ) = (do
      line ← expect (codes "Proxy-Authorization: Basic ") (c ∷ text)
      let (encoded, behind) = until b'\n' line
      rest ← expect (b'\n' ∷ []) behind
      ok (some (until b':' (base64decode encoded)), rest)) in
    if c == b'\n' then ok (none, text) else with_credentials

-- The request, and what follows it.
pub read_request : List ℕ → Outcome (Request × List ℕ)
unfolding read_credentials
read_request text = do
  line ← expect (codes "CONNECT ") text
  let (host, behind) = until b':' line
  let (port_text, version) = until b' ' behind
  port ← read_port (stoi port_text)
  header ← expect (codes "HTTP/1.1\nHost: ") version
  (credentials, rest) ← read_credentials (until b'\n' header).1
  ok (record { host = host; port = port; credentials = credentials }, rest)

expect-append : (cs text : List ℕ) → expect cs (cs ++ text) ≡ ok text
expect-append [] text = refl
expect-append (c ∷ cs) text = ground (arith, expect-append cs text)

digits-All :
    (fuel n b : ℕ) (text : List ℕ)
    → b < b'0'
    → All (λ x. x ≢ b) text
    → All (λ x. x ≢ b) (digits_loop fuel n text)
unfolding digits_loop
digits-All zero n b text h a = a
digits-All (suc fuel) n b text h a = elim (Bool-cases (n / 10 == 0)) [
  | inl e ↦ rw e (λ k. omega (arith, k, h), a)
  | inr e ↦ rw e (digits-All fuel (n / 10) b ((n % 10 + 48) ∷ text) h (λ k. omega (arith, k, h), a))
]

to_string-All : (n b : ℕ) → b < b'0' → All (λ x. x ≢ b) (to_string n)
unfolding to_string
to_string-All n b h = digits-All (suc n) n b [] h tt

-- The credentials of the settings, as the header carries them.
abbrev pub given : ProxySettings → Option (List ℕ × List ℕ)
given settings =
    if is_empty settings.username then none else some (settings.username, settings.password)

credentials_lem :
    (settings : ProxySettings) (tunnel : List ℕ)
    → All (λ b. b ≢ b':') settings.username
    → AreBytes settings.username
    → AreBytes settings.password
    → read_credentials (authorization settings ++ (b'\n' ∷ tunnel)) ≡ ok (given settings, tunnel)
unfolding read_credentials
credentials_lem settings tunnel colon u w = elim (Bool-cases (is_empty settings.username)) [
  | inl e ↦ rw e refl
  | inr e ↦
      rw
        (
          e,
          append_assoc,
          until-append b'\n' (base64encode plain) (b'\n' ∷ tunnel) (base64encode-All plain bytes),
          base64decode-base64encode plain bytes,
          until-append b':' settings.username settings.password colon,
        )
        refl
]
  where
    plain : List ℕ
    plain = settings.username ++ (b':' ∷ settings.password)

    bytes : AreBytes plain
    bytes = All-append _ settings.username (b':' ∷ settings.password) u (omega arith, w)

read_request-tunnel_request :
    (settings : ProxySettings) (host tunnel : List ℕ) (port : ℕ)
    → All (λ b. (b ≢ b':') × (b ≢ b'\n')) host
    → port < 2 ^ 31
    → Allows http tcp settings.username settings.password
    → AreBytes settings.username
    → AreBytes settings.password
    → read_request (tunnel_request settings host port ++ tunnel)
      ≡ ok (record { host = host; port = pos port; credentials = given settings }, tunnel)
unfolding read_request
read_request-tunnel_request settings host tunnel port h small allowed u w =
    ap read_request flat
    ∙ rw
        (
          until-append b':' host port_on (All-map _ _ (λ b k. k.0) host h),
          until-append b' ' (to_string port) version (to_string-All port b' ' (omega arith)),
          number_lem,
          until-append b'\n' line header line-All,
          credentials_lem settings tunnel allowed.1 u w,
        )
        refl
  where
    header : List ℕ
    header = authorization settings ++ (b'\n' ∷ tunnel)

    line : List ℕ
    line = host ++ (b':' ∷ to_string port)

    version : List ℕ
    version = codes "HTTP/1.1\nHost: " ++ (line ++ (b'\n' ∷ header))

    port_on : List ℕ
    port_on = to_string port ++ (b' ' ∷ version)

    flat :
        tunnel_request settings host port ++ tunnel ≡ codes "CONNECT " ++ (host ++ (b':' ∷ port_on))
    flat = simp append_assoc

    number_lem : stoi (to_string port) ≡ number (pos port)
    number_lem = ap stoi (sym (append-nil (to_string port))) ∙ stoi-to_string port [] small refl

    line-All : All (λ b. b ≢ b'\n') line
    line-All =
        All-append _ host (b':' ∷ to_string port) (All-map _ _ (λ b k. k.1) host h)
          (λ e. omega arith, to_string-All port b'\n' (omega arith))

-- What a proxy finds in the bytes that it is sent.
abbrev pub Requested : ProxySettings → List ℕ → ℕ → List ℕ → List ℕ → Type 0
Requested settings host port out tunnel =
    read_request (out ++ tunnel)
    ≡ ok (record { host = host; port = pos port; credentials = given settings }, tunnel)

-- Let the settings have passed the check for HTTP, their texts be bytes, the target's host have no
-- colon and no newline, its port be below 2 ^ 31, and the kernel refuse no write. Whatever the
-- proxy answers and whether the negotiation succeeds: a proxy that reads what the negotiation has
-- sent finds in it the host and the port of the target and the username and the password exactly,
-- or no credentials if there is no username, and it goes on at the first byte behind the request.
pub proxy_negotiate-Requested :
    (settings : ProxySettings) (host : List ℕ) (port : ℕ) (s : Socket) (tunnel : List ℕ)
    → All (λ b. (b ≢ b':') × (b ≢ b'\n')) host
    → port < 2 ^ 31
    → Allows http tcp settings.username settings.password
    → AreBytes settings.username
    → AreBytes settings.password
    → Willing s.answers
    → (out : List ℕ) × ((proxy_negotiate settings host port s).1.sent ≡ s.sent ++ out)
      × Requested settings host port out tunnel
proxy_negotiate-Requested settings host port s tunnel h small allowed u w willing = (
  tunnel_request settings host port,
  proxy_negotiate-sent settings host port s willing,
  read_request-tunnel_request settings host tunnel port h small allowed u w,
)
