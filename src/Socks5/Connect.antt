-- ===== src/Socks5/Connect.antt =====
-- The negotiation of a TCP connection: when it succeeds, and that it takes no byte of the tunnel.
use transproxify.Base.{
  ℕ, ◌≡◌, refl, ap, length, le→leb, ◌∙◌, ◌≢◌, List, [], ◌∷◌, ◌++◌, Option, arith, ok,
}
use transproxify.Address.{SockAddr, Hostent}
use transproxify.Settings.{ProxySettings}
use transproxify.Wire.{Socket, pending, Willing}
use transproxify.Upstream.Refines.{Transcript, Refines, bind_t, pure_t, pure-Refines, bind-Refines}
use transproxify.Socks5.{proxy_negotiate}
use transproxify.Socks5.Greeting.{Fits, offer, credentials, greeting_reply, greeting-Refines}
use transproxify.Socks5.Tunnel.{tunnel_request, tunnel-Refines}
use transproxify.Socks5.Reply.{tunnel_reply}

-- A greeting that the proxy accepts: its reply and what the code sends.
pub data Greeted (settings : ProxySettings) : List ℕ → List ℕ → Type 0 where
  unauthenticated : Greeted settings (5 ∷ 0 ∷ []) (offer settings)
  authenticated :
      settings.username ≢ []
      → Greeted settings (5 ∷ 2 ∷ 1 ∷ 0 ∷ []) (offer settings ++ credentials settings)

Greeted-reply :
    (settings : ProxySettings) {reply sent : List ℕ}
    → Greeted settings reply sent
    → (rest : List ℕ)
    → greeting_reply settings (reply ++ rest) ≡ record { outcome = ok tt; rest = rest; sent = sent }
Greeted-reply settings unauthenticated rest = refl
Greeted-reply settings (authenticated named) rest = ground arith

module _ (gethostbyname : List ℕ → Option Hostent) where
  abbrev pub negotiate_t : ProxySettings → SockAddr → List ℕ → Transcript (Unit {0})
  negotiate_t settings target = bind_t (greeting_reply settings) λ _.
      bind_t
        (λ p.
          let t = tunnel_reply gethostbyname p in
          record t { sent = tunnel_request target 1 ++ t.sent })
        (λ _. pure_t tt)

  pub negotiate-Refines :
      (settings : ProxySettings) (target : SockAddr)
      → Fits settings
      → Refines (proxy_negotiate gethostbyname settings target) (negotiate_t settings target)
  unfolding proxy_negotiate
  negotiate-Refines settings target h =
      bind-Refines (greeting-Refines settings h)
        λ _. bind-Refines (tunnel-Refines gethostbyname target 1) λ _. pure-Refines tt

  pub granted :
      (settings : ProxySettings) (target : SockAddr) {reply sent : List ℕ} (tunnel : List ℕ)
      (reserved a b c d x y : ℕ)
      → Greeted settings reply sent
      → negotiate_t settings target
          (reply ++ (5 ∷ 0 ∷ reserved ∷ 1 ∷ a ∷ b ∷ c ∷ d ∷ x ∷ y ∷ tunnel))
        ≡ record { outcome = ok tt; rest = tunnel; sent = sent ++ tunnel_request target 1 }
  granted settings target tunnel reserved a b c d x y greeted =
      rw (Greeted-reply settings greeted)
        (rw (le→leb 4 (length (a ∷ b ∷ c ∷ d ∷ x ∷ y ∷ tunnel)) (omega arith)))

  -- If the proxy accepts the greeting and grants the connection with an IPv4 address, then, on a
  -- socket that refuses no write and whatever the chunks that arrive, the negotiation succeeds. It
  -- has sent the offer, the credentials if they were chosen, and one CONNECT request for the
  -- target, and every byte behind the reply is left for the tunnel.
  pub negotiate_granted :
      (settings : ProxySettings) (target : SockAddr) (s : Socket) (reply sent tunnel : List ℕ)
      (reserved a b c d x y : ℕ)
      → Fits settings
      → Willing s.answers
      → Greeted settings reply sent
      → pending s ≡ reply ++ (5 ∷ 0 ∷ reserved ∷ 1 ∷ a ∷ b ∷ c ∷ d ∷ x ∷ y ∷ tunnel)
      → let r = proxy_negotiate gethostbyname settings target s in
        (r.0 ≡ ok tt)
        × (pending r.1 ≡ tunnel)
        × (r.1.sent ≡ s.sent ++ (sent ++ tunnel_request target 1))
  negotiate_granted settings target s reply sent tunnel reserved a b c d x y h w greeted come =
      let v = (negotiate-Refines settings target h).shows s w in
      let told =
        ap (negotiate_t settings target) come
        ∙ granted settings target tunnel reserved a b c d x y greeted in
      (
        v.outcome ∙ ap (λ t. t.outcome) told,
        v.rest ∙ ap (λ t. t.rest) told,
        v.sent ∙ ap (λ t. s.sent ++ t.sent) told,
      )
