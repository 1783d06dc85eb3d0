-- ===== src/Socks4/Request.antt =====
-- The CONNECT request, read as a proxy reads it.
use transproxify.Base.{
  ℕ, ◌^◌, ◌<◌, ◌≤◌, length, leb, le→leb, ◌≡◌, ◌≢◌, refl, ap, ◌∙◌, List, [], ◌∷◌, ◌++◌, append_assoc,
  All, until, until-append, arith, Bool-cases, inl, inr, ◌==◌, Outcome, ok, throw, ◌>>◌, throw_if,
  not, ◌&&◌,
}
use transproxify.Address.{SockAddr, word}
use transproxify.Settings.{ProxySettings}
use transproxify.Socks5.{c_string}
use transproxify.Socks4.{user_id, proxy_negotiate}
use transproxify.Wire.{Socket, Willing, pending}
use transproxify.Upstream.{packet_size}
use transproxify.Socks4.Connect.{request, reply, proxy_negotiate_lem}

-- What a proxy learns: the address and the port as words of memory, and the user id.
pub record Session : Type 0 where
  pub address : ℕ
  pub port : ℕ
  pub user : List ℕ

-- The user id ends with a zero byte.
pub read_session : List ℕ → Outcome (Session × List ℕ)
read_session (version ∷ command ∷ x ∷ y ∷ a ∷ b ∷ c ∷ d ∷ text) = do
  throw_if (not (version == 4 && command == 1)) "version or command"
  let (user, rest) = until 0 text
  ok (record { address = word (a ∷ b ∷ c ∷ d ∷ []); port = word (x ∷ y ∷ []); user = user }, rest)
read_session _ = throw "cut off"

c_string-All : (xs : List ℕ) → All (λ b. b ≢ 0) (c_string xs)
c_string-All [] = tt
c_string-All (x ∷ xs) = elim (Bool-cases (x == 0)) [
  | inl e ↦ rw e tt
  | inr e ↦ rw e (ground arith, c_string-All xs)
]

-- What a proxy reads in the bytes that the code has sent.
abbrev pub Asked : ProxySettings → SockAddr → List ℕ → List ℕ → Type 0
Asked settings target out tunnel =
    read_session (out ++ tunnel)
    ≡ ok (
      record {
        address = target.s_addr;
        port = target.sin_port;
        user = c_string (user_id settings);
      },
      tunnel,
    )

request-Asked :
    (settings : ProxySettings) (target : SockAddr) (tunnel : List ℕ)
    → target.s_addr < 2 ^ 32
    → target.sin_port < 2 ^ 16
    → Asked settings target (request settings target) tunnel
unfolding read_session
request-Asked settings target tunnel a p = rw append_assoc (
    rw (until-append 0 (c_string (user_id settings)) tunnel (c_string-All (user_id settings)))
      (ap (λ s. ok (s, tunnel)) (ground arith)))

reply-sent : (out p : List ℕ) → (reply out p).sent ≡ out
reply-sent out [] = refl
reply-sent out (_ ∷ []) = refl
reply-sent out (version ∷ command ∷ rest) = elim (Bool-cases (leb 6 (length rest))) [
  | inl e ↦ rw e refl
  | inr e ↦ rw e refl
]

-- For a target whose address and port fit into their words, on a socket that refuses no write,
-- whatever the proxy answers and whether the negotiation
-- succeeds: if the request fits into its buffer, it has been sent whole. A proxy that reads it
-- finds the address and the port of the target and the user id up to its first zero byte, and goes
-- on at the first byte behind the request.
pub proxy_negotiate-Asked :
    (settings : ProxySettings) (target : SockAddr) (s : Socket) (tunnel : List ℕ)
    → length (request settings target) ≤ packet_size
    → target.s_addr < 2 ^ 32
    → target.sin_port < 2 ^ 16
    → Willing s.answers
    → (out : List ℕ) × ((proxy_negotiate settings target s).1.sent ≡ s.sent ++ out)
      × Asked settings target out tunnel
proxy_negotiate-Asked settings target s tunnel fits a p willing =
    let all = request settings target in
    let small = le→leb (length all) packet_size fits in
    (
      all,
      (proxy_negotiate_lem settings target s (omega (arith, fits)) willing).sent
          ∙ ap (λ t. s.sent ++ t) (rw small (reply-sent all (pending s))),
      request-Asked settings target tunnel a p,
    )
