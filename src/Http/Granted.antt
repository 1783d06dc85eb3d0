-- ===== src/Http/Granted.antt =====
-- The negotiation of a connection, and that it takes no byte of the tunnel.
use transproxify.Base.{
  ℕ, zero, suc, ◌+◌, ◌-◌, ◌*◌, ◌≤◌, ◌<◌, ◌≡◌, ◌≢◌, refl, ap, ◌∙◌, inl, inr, List, [], ◌∷◌, ◌++◌,
  true, false, some, arith, length, codes, All, le→leb, ◌==◌, if◌then◌else◌, Bool-cases, Outcome,
  ok, throw, append-nil, append_assoc,
}
use mathlib.Core.Path.{subst}
use transproxify.Wire.{Socket, pending, Willing}
use transproxify.Settings.{ProxySettings}
use transproxify.Socks5.{c_string}
use transproxify.Socks5.Greeting.{answer}
use transproxify.Upstream.Refines.{
  Transcript, Shows, Refines, bind_t, send_t, pure-Refines, fail-Refines, bind-Refines,
  send-Refines, if-Refines, Refines-ext,
}
use transproxify.Http.{status_code, tunnel_request, check_status, proxy_negotiate}
use transproxify.Http.Reply.{line_reply, drain_reply, status_reply, status-Refines}

-- No line feed, carriage return or zero byte.
abbrev pub Plain : List ℕ → Type 0
Plain = All (λ c. (c ≢ b'\n') × (c ≢ b'\r') × (c ≢ 0))

abbrev pub Headers : List (List ℕ) → Type 0
Headers = All (λ line. (line ≢ []) × Plain line)

-- The lines of a header, each ended by CR LF, then an empty line and the bytes of the tunnel.
abbrev pub lines : List (List ℕ) → List ℕ → List ℕ
lines [] tunnel = b'\r' ∷ b'\n' ∷ tunnel
lines (line ∷ more) tunnel = line ++ (b'\r' ∷ b'\n' ∷ lines more tunnel)

-- HTTP/1.1, a code of three digits, and a reason.
abbrev pub status_line : ℕ → ℕ → ℕ → List ℕ → List ℕ
status_line x y z reason = codes "HTTP/1.1 " ++ (x ∷ y ∷ z ∷ b' ' ∷ reason)

abbrev pub Digit : ℕ → Type 0
Digit c = (b'0' ≤ c) × (c ≤ b'9')

ne_false : (a b : ℕ) → a ≢ b → (a == b) ≡ false
ne_false a b h = ground arith

line_reply-append :
    (room : ℕ) (line text rest : List ℕ)
    → length text < room
    → Plain text
    → line_reply room line (text ++ (b'\r' ∷ b'\n' ∷ rest)) ≡ answer (ok (line ++ text)) rest []
line_reply-append zero line text rest h p = elim h [ ]
line_reply-append (suc room) line [] rest h p = rw append-nil
line_reply-append (suc room) line (c ∷ text) rest h ((n, r, _), p) = rw (ne_false c b'\r' r) (
    rw (ne_false c b'\n' n)
      (rw (line_reply-append room (line ++ c ∷ []) text rest (omega arith) p) (rw append_assoc)))

drain_reply-within :
    (text rest : List ℕ)
    → Plain text
    → drain_reply false (text ++ (b'\r' ∷ b'\n' ∷ rest)) ≡ drain_reply true rest
drain_reply-within [] rest p = refl
drain_reply-within (c ∷ text) rest ((n, r, _), p) =
    rw (ne_false c b'\r' r) (rw (ne_false c b'\n' n) (drain_reply-within text rest p))

drain_reply-lines :
    (headers : List (List ℕ)) (tunnel : List ℕ)
    → Headers headers
    → drain_reply true (lines headers tunnel) ≡ answer (ok tt) tunnel []
drain_reply-lines [] tunnel h = refl
drain_reply-lines ([] ∷ headers) tunnel ((full, _), h) = absurd (full refl)
drain_reply-lines ((c ∷ text) ∷ headers) tunnel ((_, ((n, r, _), p)), h) = rw (ne_false c b'\r' r) (
    rw (ne_false c b'\n' n)
      (drain_reply-within text (lines headers tunnel) p ∙ drain_reply-lines headers tunnel h))

c_string-Plain : (text : List ℕ) → Plain text → c_string text ≡ text
c_string-Plain [] p = refl
c_string-Plain (c ∷ text) ((_, _, z), p) =
    rw (ne_false c 0 z) (ap (λ t. c ∷ t) (c_string-Plain text p))

abbrev pub code_of : ℕ → ℕ → ℕ → ℕ
code_of x y z = (x - b'0') * 100 + (y - b'0') * 10 + (z - b'0')

status_code-status_line :
    (x y z : ℕ) (reason : List ℕ)
    → Digit x
    → Digit y
    → Digit z
    → status_code (status_line x y z reason) ≡ some (code_of x y z)
unfolding status_code
status_code-status_line x y z reason (x0, x9) (y0, y9) (z0, z9) = rw (
  le→leb b'0' x x0,
  le→leb x b'9' x9,
  le→leb b'0' y y0,
  le→leb y b'9' y9,
  le→leb b'0' z z0,
  le→leb z b'9' z9,
)

Plain-append : (xs ys : List ℕ) → Plain xs → Plain ys → Plain (xs ++ ys)
Plain-append [] ys p q = q
Plain-append (x ∷ xs) ys (c, p) q = (c, Plain-append xs ys p q)

Plain-status_line :
    (x y z : ℕ) (reason : List ℕ)
    → Digit x
    → Digit y
    → Digit z
    → Plain reason
    → Plain (status_line x y z reason)
Plain-status_line x y z reason dx dy dz p =
    Plain-append (codes "HTTP/1.1 ") (x ∷ y ∷ z ∷ b' ' ∷ reason) (omega arith)
      (omega arith, (omega arith, (omega arith, (omega arith, p))))

status_reply-lines :
    (x y z : ℕ) (reason : List ℕ) (headers : List (List ℕ)) (tunnel : List ℕ)
    → Digit x
    → Digit y
    → Digit z
    → Plain reason
    → length reason ≤ 242
    → Headers headers
    → status_reply (status_line x y z reason ++ (b'\r' ∷ b'\n' ∷ lines headers tunnel))
      ≡ answer (ok (code_of x y z)) tunnel []
status_reply-lines x y z reason headers tunnel dx dy dz p short h =
    let text = Plain-status_line x y z reason dx dy dz p in
    rw
      (line_reply-append 256 [] (status_line x y z reason) (lines headers tunnel) (omega arith)
        text)
      (rw (c_string-Plain _ text, status_code-status_line x y z reason dx dy dz)
        (rw (drain_reply-lines headers tunnel h)))

-- What becomes of a status code.
abbrev pub verdict : ℕ → Outcome (Unit {0})
verdict code =
    if code == 200
    then ok tt
    else throw (
        if code == 407
        then "upstream proxy authorization required"
        else "upstream proxy failed to establish connection to endpoint or rejected connection")

unfoldable pub verdict_t : ℕ → List ℕ → Transcript (Unit {0})
verdict_t code p = answer (verdict code) p []

check-Refines : (code : ℕ) → Refines (check_status code) (verdict_t code)
unfolding check_status verdict_t
check-Refines code =
    Refines-ext
      (if-Refines (code == 200) (pure-Refines tt)
        (if-Refines (code == 407) (fail-Refines _) (fail-Refines _)))
      λ p. elim (Bool-cases (code == 200)) [
        | inl e ↦ rw e
        | inr e ↦ rw e (elim (Bool-cases (code == 407)) [ inl k ↦ rw k | inr k ↦ rw k ])
      ]

unfoldable pub negotiate_t : ProxySettings → List ℕ → ℕ → List ℕ → Transcript (Unit {0})
negotiate_t settings host port =
    bind_t (send_t (tunnel_request settings host port)) λ _. bind_t status_reply verdict_t

negotiate-eq :
    (settings : ProxySettings) (host : List ℕ) (port code : ℕ) (p tunnel : List ℕ)
    → status_reply p ≡ answer (ok code) tunnel []
    → negotiate_t settings host port p
      ≡ answer (verdict code) tunnel (tunnel_request settings host port)
unfolding negotiate_t verdict_t
negotiate-eq settings host port code p tunnel e =
    rw e (ap (answer (verdict code) tunnel) (append-nil (tunnel_request settings host port)))

pub negotiate-Refines :
    (settings : ProxySettings) (host : List ℕ) (port : ℕ)
    → Refines (proxy_negotiate settings host port) (negotiate_t settings host port)
unfolding proxy_negotiate negotiate_t
negotiate-Refines settings host port =
    bind-Refines
      (send-Refines (tunnel_request settings host port)
        "write to upstream proxy failed during CONNECT")
      λ _. bind-Refines status-Refines check-Refines

-- What the negotiation makes of a reply with a status line and headers.
pub negotiate-replied :
    (settings : ProxySettings) (host : List ℕ) (port x y z : ℕ) (reason : List ℕ)
    (headers : List (List ℕ)) (tunnel p : List ℕ)
    → Digit x
    → Digit y
    → Digit z
    → Plain reason
    → length reason ≤ 242
    → Headers headers
    → p ≡ status_line x y z reason ++ (b'\r' ∷ b'\n' ∷ lines headers tunnel)
    → negotiate_t settings host port p
      ≡ answer (verdict (code_of x y z)) tunnel (tunnel_request settings host port)
negotiate-replied settings host port x y z reason headers tunnel p dx dy dz plain short h come =
    negotiate-eq settings host port (code_of x y z) p tunnel
      (ap status_reply come ∙ status_reply-lines x y z reason headers tunnel dx dy dz plain short h)

-- If the kernel refuses no write and the proxy answers with a status line of HTTP/1.1 that fits
-- into the buffer, header lines and an empty line, then, whatever the chunks that arrive, the
-- negotiation has sent the CONNECT request, returns exactly for status 200 and else throws as
-- `verdict` tells, and has read the reply up to its last byte: what follows is left for the tunnel.
pub proxy_negotiate_replied :
    (settings : ProxySettings) (host : List ℕ) (port : ℕ) (s : Socket) (x y z : ℕ) (reason : List ℕ)
    (headers : List (List ℕ)) (tunnel : List ℕ)
    → Willing s.answers
    → Digit x
    → Digit y
    → Digit z
    → Plain reason
    → length reason ≤ 242
    → Headers headers
    → pending s ≡ status_line x y z reason ++ (b'\r' ∷ b'\n' ∷ lines headers tunnel)
    → Shows s.sent
        (proxy_negotiate settings host port s)
        (answer (verdict (code_of x y z)) tunnel (tunnel_request settings host port))
proxy_negotiate_replied settings host port s x y z reason headers tunnel w dx dy dz p short h come =
    subst (Shows s.sent (proxy_negotiate settings host port s))
      (negotiate-replied settings host port x y z reason headers tunnel (pending s) dx dy dz p short
        h come)
      ((negotiate-Refines settings host port).shows s w)
