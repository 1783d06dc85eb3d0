-- ===== src/Settings/Valid.antt =====
-- Which settings are accepted.
use transproxify.Base.{
  ℕ, String, ◌≤◌, ◌≡◌, refl, ◌≢◌, ◌⊎◌, inl, inr, ◌↔◌, List, [], ◌∷◌, Option, some, false, arith,
  length, All, Outcome, ok, throw, Option-cases,
}
use transproxify.Base.Int.{ℤ}
use transproxify.Address.{Hostent, af_inet}
use transproxify.Settings.{
  ProxyProtocol, direct, http, socks4, socks5, ProxiedProtocol, tcp, udp, ProxySettings, contains,
  check_protocol, resolve, proxy_address_of, new_settings,
}

-- Both credentials are given, or neither.
abbrev Paired : List ℕ → List ℕ → Type 0
Paired username password = ((username ≡ []) × (password ≡ [])) ⊎ ((username ≢ []) × (password ≢ []))

-- What each upstream protocol allows, as the usage text has it.
abbrev pub Allows : ProxyProtocol → ProxiedProtocol → List ℕ → List ℕ → Type 0
Allows direct proxied username password = Unit
Allows http tcp username password = Paired username password × All (λ b. b ≢ b':') username
Allows http udp username password = ⊥
Allows socks4 tcp username password = (username ≡ []) ⊎ (password ≡ [])
Allows socks4 udp username password = ⊥
Allows socks5 proxied username password =
    Paired username password × (length username ≤ 255) × (length password ≤ 255)

contains_absent : (b : ℕ) (xs : List ℕ) → contains b xs ≡ false → All (λ x. x ≢ b) xs
contains_absent b [] h = tt
contains_absent b (x ∷ xs) h = ground (arith, contains_absent b xs)

contains_of_absent : (b : ℕ) (xs : List ℕ) → All (λ x. x ≢ b) xs → contains b xs ≡ false
contains_of_absent b [] h = refl
contains_of_absent b (x ∷ xs) (h, hs) = ground (arith, contains_of_absent b xs hs)

check_protocol-Allows :
    (p : ProxyProtocol) (r : ProxiedProtocol) (u w : List ℕ)
    → (check_protocol p r u w ≡ ok tt) ↔ Allows p r u w
unfolding check_protocol
check_protocol-Allows direct tcp u w = (λ h. tt, λ h. refl)
check_protocol-Allows direct udp u w = (λ h. tt, λ h. refl)
check_protocol-Allows http tcp [] w = (λ h. ground arith, λ h. ground arith)
check_protocol-Allows http tcp (u ∷ us) w = (
  λ h. ground (arith, contains_absent b':' (u ∷ us)),
  λ h. ground (arith, contains_of_absent b':' (u ∷ us) h.1),
)
check_protocol-Allows http udp u w = (λ h. cc, λ h. absurd h)
check_protocol-Allows socks4 tcp u w = (λ h. ground arith, λ h. ground arith)
check_protocol-Allows socks4 udp u w = (λ h. cc, λ h. absurd h)
check_protocol-Allows socks5 tcp u w = (λ h. ground arith, λ h. ground arith)
check_protocol-Allows socks5 udp u w = (λ h. ground arith, λ h. ground arith)

-- The settings that the arguments ask for.
unfoldable pub asked :
    Hostent → ProxyProtocol → ProxiedProtocol → ℤ → List ℕ → List ℕ → ProxySettings
unfolding proxy_address_of
asked server p r port u w = record {
  proxy_protocol = p;
  proxied_protocol = r;
  username = u;
  password = w;
  proxy_address = proxy_address_of server port;
}

pub asked_lem :
    (server : Hostent) (p : ProxyProtocol) (r : ProxiedProtocol) (port : ℤ) (u w : List ℕ)
    → Allows p r u w
    → let s = asked server p r port u w in
      (s.proxied_protocol ≡ r)
      × (s.proxy_address.sin_family ≡ af_inet)
      × Allows s.proxy_protocol r s.username s.password
unfolding asked proxy_address_of
asked_lem server p r port u w h = (refl, refl, h)

Outcome-cases : (o : Outcome (Unit {0})) → (o ≡ ok tt) ⊎ ((e : String) × (o ≡ throw e))
Outcome-cases (ok tt) = inl refl
Outcome-cases (throw e) = inr (e, refl)

module _ (gethostbyname : List ℕ → Option Hostent) where
  -- The constructor returns exactly if the host resolves to an IPv4 address and the upstream
  -- protocol allows the proxied protocol and the credentials; then it returns what was asked for.
  pub new_settings_iff :
      (p : ProxyProtocol) (r : ProxiedProtocol) (host : List ℕ) (port : ℤ) (u w : List ℕ)
      (s : ProxySettings)
      → (new_settings gethostbyname p r host port u w ≡ ok s) ↔ (
          (server : Hostent) × (gethostbyname host ≡ some server)
          × (server.h_addrtype ≡ af_inet)
          × Allows p r u w
          × (s ≡ asked server p r port u w))
  unfolding new_settings resolve asked
  new_settings_iff p r host port u w s = (
    to,
    λ (server, found, family, allowed, e).
        rw (found, e) (ground (arith, (check_protocol-Allows p r u w).1 allowed)),
  )
    where
      checked :
          (new_settings gethostbyname p r host port u w ≡ ok s) → check_protocol p r u w ≡ ok tt
      checked h = elim (Outcome-cases (check_protocol p r u w)) [
        | inl e ↦ e
        | inr (m, e) ↦ absurd (ground (arith, e))
      ]

      to :
          new_settings gethostbyname p r host port u w ≡ ok s
          → ((server : Hostent) × (gethostbyname host ≡ some server)
              × (server.h_addrtype ≡ af_inet)
              × Allows p r u w
              × (s ≡ asked server p r port u w))
      to h = elim (Option-cases (gethostbyname host)) [
        | inl missing ↦ absurd (ground arith)
        | inr (server, found) ↦ (
          server,
          found,
          ground arith,
          (check_protocol-Allows p r u w).0 (checked h),
          ground (arith, checked h),
        )
      ]
