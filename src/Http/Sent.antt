-- ===== src/Http/Sent.antt =====
-- All that the negotiation sends is its request.
use transproxify.Base.{
  ℕ, zero, suc, ◌≡◌, refl, ap, ◌∙◌, inl, inr, List, [], ◌∷◌, ◌++◌, append-nil, Option, none, some,
  Bool, true, false, Bool-cases, ◌==◌,
}
use transproxify.Settings.{ProxySettings}
use transproxify.Wire.{Socket, Willing, pending}
use transproxify.Upstream.Refines.{bind_t-sent}
use transproxify.Http.{tunnel_request, status_code, proxy_negotiate}
use transproxify.Socks5.{c_string}
use transproxify.Http.Reply.{line_reply, drain_reply, code_reply, status_reply}
use transproxify.Http.Granted.{verdict_t, negotiate_t, negotiate-Refines}

line_reply-sent : (room : ℕ) (line p : List ℕ) → (line_reply room line p).sent ≡ []
line_reply-sent zero line p = refl
line_reply-sent (suc room) line [] = refl
line_reply-sent (suc room) line (c ∷ p) = elim (Bool-cases (c == b'\r')) [
  | inl k ↦ rw k (line_reply-sent (suc room) line p)
  | inr k ↦ rw k (elim (Bool-cases (c == b'\n')) [
    | inl j ↦ rw j refl
    | inr j ↦ rw j (line_reply-sent room (line ++ c ∷ []) p)
  ])
]

drain_reply-sent : (newline : Bool) (p : List ℕ) → (drain_reply newline p).sent ≡ []
drain_reply-sent newline [] = refl
drain_reply-sent newline (c ∷ p) = elim (Bool-cases (c == b'\r')) [
  | inl k ↦ rw k (drain_reply-sent newline p)
  | inr k ↦ rw k (elim (Bool-cases (c == b'\n')) [
    | inl j ↦
        rw j
          (elim (Bool-cases newline) [ inl n ↦ rw n refl | inr n ↦ rw n (drain_reply-sent true p) ])
    | inr j ↦ rw j (drain_reply-sent false p)
  ])
]

code_reply-sent : (code : Option ℕ) (p : List ℕ) → (code_reply code p).sent ≡ []
code_reply-sent none p = refl
code_reply-sent (some code) p =
    bind_t-sent (drain_reply true) _ p (drain_reply-sent true p) λ a p. refl

status_reply-sent : (p : List ℕ) → (status_reply p).sent ≡ []
status_reply-sent p =
    bind_t-sent (line_reply 256 []) _ p (line_reply-sent 256 [] p)
      λ line p. code_reply-sent (status_code (c_string line)) p

negotiate_t-sent :
    (settings : ProxySettings) (host : List ℕ) (port : ℕ) (p : List ℕ)
    → (negotiate_t settings host port p).sent ≡ tunnel_request settings host port
unfolding negotiate_t verdict_t
negotiate_t-sent settings host port p =
    ap (λ t. tunnel_request settings host port ++ t)
      (bind_t-sent status_reply verdict_t p (status_reply-sent p) λ code p. refl)
    ∙ append-nil (tunnel_request settings host port)

pub proxy_negotiate-sent :
    (settings : ProxySettings) (host : List ℕ) (port : ℕ) (s : Socket)
    → Willing s.answers
    → (proxy_negotiate settings host port s).1.sent ≡ s.sent ++ tunnel_request settings host port
proxy_negotiate-sent settings host port s w =
    ((negotiate-Refines settings host port).shows s w).sent
    ∙ ap (λ t. s.sent ++ t) (negotiate_t-sent settings host port (pending s))
