-- ===== src/UdpServer/Invariant.antt =====
-- What holds of the server between two operations.
use transproxify.Base.{
  ℕ, ◌≤◌, ◌≡◌, ◌⊎◌, inl, inr, true, false, none, some, length, [], ◌∷◌, ◌==◌, ==_iff, Bool-cases,
  refl,
}
use transproxify.Base.Order.{Ord, nat_ord, int_ord, option_ord, pair_ord}
use transproxify.Base.Map.{Map, find, Has}
use transproxify.Udp.Proxy.{Fd, Descriptors, UdpProxy, incoming_socket}
use transproxify.Udp.Descriptors.{Owns}
use transproxify.UdpServer.{Server, Key, key_of, udp_proxy_limit, holds}

-- The object with a number.
abbrev pub IsObject : Server → ℕ → UdpProxy → Type 0
IsObject s id p = s.objects id ≡ some p

-- The maps register exactly the objects that exist, each under its key and its socket, there are no
-- more than the limit, and the descriptors that are open are those of the objects and `outer`, each
-- owned by one object.
pub record IsValid (outer : Descriptors) (s : Server) : Type 0 where
  pub registered :
      (k : Key) (id : ℕ) → Has k id s.proxies → (p : UdpProxy) × IsObject s id p × (key_of p ≡ k)
  pub alive : (id : ℕ) (p : UdpProxy) → IsObject s id p → find (key_of p) s.proxies ≡ some id
  pub watched :
      (fd : Fd) (id : ℕ)
      → Has fd id s.socket_to_proxy
      → (p : UdpProxy) × IsObject s id p × (incoming_socket p ≡ fd)
  pub heard :
      (id : ℕ) (p : UdpProxy) (f : ℕ)
      → IsObject s id p
      → incoming_socket p ≡ some f
      → find (some f) s.socket_to_proxy ≡ some id
  pub fresh : (id : ℕ) → s.next ≤ id → s.objects id ≡ none
  pub limited : length s.proxies ≤ udp_proxy_limit
  pub owned :
      (id : ℕ) (p : UdpProxy) (f : ℕ)
      → IsObject s id p
      → Owns p f
      → (s.descriptors f ≡ true) × (outer f ≡ false)
  pub accounted :
      (f : ℕ)
      → s.descriptors f ≡ true
      → (outer f ≡ true) ⊎ ((id : ℕ) × (p : UdpProxy) × IsObject s id p × Owns p f)
  pub apart :
      (i j : ℕ) (p q : UdpProxy) (f : ℕ)
      → IsObject s i p
      → IsObject s j q
      → Owns p f
      → Owns q f
      → i ≡ j
  pub kept : (f : ℕ) → outer f ≡ true → s.descriptors f ≡ true

-- A number that a map holds is in one of its entries.
pub Has-holds :
    {K : Type 0} ⦃o : Ord K⦄ (id : ℕ) (m : Map K ℕ) → holds id m ≡ true → (k : K) × Has k id m
Has-holds id [] h = cc
Has-holds id ((k, i) ∷ m) h = elim (Bool-cases (i == id)) [
  | inl e ↦ (k, inl (refl, (==_iff i id).0 e))
  | inr e ↦ let (k', has) = Has-holds id m (rw e at h) in (k', inr has)
]
