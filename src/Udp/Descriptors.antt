-- ===== src/Udp/Descriptors.antt =====
-- The descriptors that a proxy owns, from its constructor to its destructor.
use transproxify.Base.{
  ℕ, ◌≡◌, ◌≢◌, refl, ◌⊎◌, inl, inr, List, Bool, true, false, Option, none, some, arith, Outcome, ok,
  throw, Bool-cases,
}
use transproxify.Address.{SockAddr, Hostent}
use transproxify.Settings.{ProxySettings}
use transproxify.Udp.Proxy.{
  Fd, Descriptors, opened, closed, Upward, direct, relay, UdpProxy, new_udp_proxy, DirectAnswers,
  Socks5Answers, new_direct_udp_proxy, new_socks5_udp_proxy, freed, incoming, connect_relay,
  reaches,
}

abbrev pub Holds : Upward → ℕ → Type 0
Holds (direct fd) f = fd ≡ some f
Holds (relay proxy_fd relay_fd address) f = (proxy_fd ≡ some f) ⊎ (relay_fd ≡ some f)

abbrev pub Owns : UdpProxy → ℕ → Type 0
Owns p f = Holds p.upward f

pub Holds-incoming : (u : Upward) (f : ℕ) → incoming u ≡ some f → Holds u f
Holds-incoming (direct fd) f h = h
Holds-incoming (relay proxy_fd relay_fd address) f h = inr h

-- `socket` gives a descriptor that is not open, or -1.
abbrev pub Fresh : Fd → Descriptors → Type 0
Fresh none d = Unit {0}
Fresh (some f) d = d f ≡ false

pub closed_iff :
    (fd : Fd) (d : Descriptors) (f : ℕ)
    → (closed fd d f ≡ true → (d f ≡ true) × (fd ≢ some f)) × (fd ≢ some f → closed fd d f ≡ d f)
closed_iff none d f = ground arith
closed_iff (some g) d f = ground arith

pub opened_iff :
    (fd : Fd) (d : Descriptors) (f : ℕ)
    → (opened fd d f ≡ true → (d f ≡ true) ⊎ (fd ≡ some f))
      × (d f ≡ true → opened fd d f ≡ true)
      × (fd ≡ some f → opened fd d f ≡ true)
opened_iff none d f = ground arith
opened_iff (some g) d f = ground arith

-- What was opened and is fresh is closed again.
pub closed-opened :
    (fd : Fd) (d : Descriptors) (f : ℕ) → Fresh fd d → closed fd (opened fd d) f ≡ d f
closed-opened none d f h = refl
closed-opened (some g) d f h = ground arith

-- A destructor closes what the proxy owns, and nothing else.
pub freed_iff :
    (u : Upward) (d : Descriptors) (f : ℕ)
    → (freed u d f ≡ true → (d f ≡ true) × ¬ Holds u f) × (¬ Holds u f → freed u d f ≡ d f)
freed_iff (direct fd) d f = closed_iff fd d f
freed_iff (relay proxy_fd relay_fd address) d f =
    ground (arith, closed_iff proxy_fd (closed relay_fd d) f, closed_iff relay_fd d f)

-- What a constructor does: on an exception every descriptor is as it was before; else those of the
-- new proxy, which were not open, are open in addition.
abbrev pub Gains : Upward → Descriptors → Descriptors → ℕ → Type 0
Gains u d d' f =
    (d' f ≡ true → (d f ≡ true) ⊎ Holds u f)
    × (d f ≡ true → d' f ≡ true)
    × (Holds u f → (d' f ≡ true) × (d f ≡ false))

abbrev pub Makes : ℕ → SockAddr → SockAddr → Descriptors → Outcome UdpProxy × Descriptors → Type 0
Makes now client target d (throw e, d') = (f : ℕ) → d' f ≡ d f
Makes now client target d (ok p, d') =
    (p ≡ new_udp_proxy now client target p.upward) × ((f : ℕ) → Gains p.upward d d' f)

Gains-direct :
    (fd : Fd) (d : Descriptors) (f : ℕ) → Fresh fd d → Gains (direct fd) d (opened fd d) f
Gains-direct none d f h = ground arith
Gains-direct (some g) d f h = ground arith

direct-Makes :
    (fd : Fd) (bound connected : Bool) (now : ℕ) (client target : SockAddr) (d : Descriptors)
    → Fresh fd d
    → let k : DirectAnswers = record {
      target_socket_fd = fd;
      bound = bound;
      connected = connected;
    } in
      Makes now client target d (new_direct_udp_proxy k now client target d)
unfolding new_direct_udp_proxy
direct-Makes none bound connected now client target d h = (refl, λ f. Gains-direct none d f h)
direct-Makes (some g) false connected now client target d h = λ f. closed-opened (some g) d f h
direct-Makes (some g) true false now client target d h = λ f. closed-opened (some g) d f h
direct-Makes (some g) true true now client target d h = (refl, λ f. Gains-direct (some g) d f h)

pub new_direct_udp_proxy-Makes :
    (k : DirectAnswers) (now : ℕ) (client target : SockAddr) (d : Descriptors)
    → Fresh k.target_socket_fd d
    → Makes now client target d (new_direct_udp_proxy k now client target d)
new_direct_udp_proxy-Makes k now client target d h =
    direct-Makes k.target_socket_fd k.bound k.connected now client target d h

Gains-relay :
    (a b : Fd) (address : SockAddr) (d : Descriptors) (f : ℕ)
    → Fresh a d
    → Fresh b (opened a d)
    → Gains (relay a b address) d (opened b (opened a d)) f
Gains-relay none none address d f h k = ground arith
Gains-relay (some g) none address d f h k = ground arith
Gains-relay none (some g) address d f h k = ground arith
Gains-relay (some g) (some g') address d f h k = ground arith

closed-relay :
    (a b : Fd) (d : Descriptors) (f : ℕ)
    → Fresh a d
    → Fresh b (opened a d)
    → closed a (closed b (opened b (opened a d))) f ≡ d f
closed-relay none b d f h k = closed-opened b d f k
closed-relay (some g) b d f h k =
    ground (arith, closed-opened b (opened (some g) d) f k, closed-opened (some g) d f h)

relay-Makes :
    (k : Socks5Answers) (now : ℕ) (client target : SockAddr) (d : Descriptors)
    (address : Outcome SockAddr)
    → Fresh k.proxy_socket_fd d
    → Fresh k.relay_socket_fd (opened k.proxy_socket_fd d)
    → Makes now client target d (connect_relay k now client target d address)
unfolding connect_relay
relay-Makes k now client target d (throw e) h j = λ f. closed-opened k.proxy_socket_fd d f h
relay-Makes k now client target d (ok address) h j =
    elim (Bool-cases (reaches k.relay_socket_fd k.relay_connected)) [
      | inl e ↦ rw e (refl, λ f. Gains-relay k.proxy_socket_fd k.relay_socket_fd address d f h j)
      | inr e ↦ rw e (λ f. closed-relay k.proxy_socket_fd k.relay_socket_fd d f h j)
    ]

pub new_socks5_udp_proxy-Makes :
    (gethostbyname : List ℕ → Option Hostent) (settings : ProxySettings) (k : Socks5Answers)
    (now : ℕ) (client target : SockAddr) (d : Descriptors)
    → Fresh k.proxy_socket_fd d
    → Fresh k.relay_socket_fd (opened k.proxy_socket_fd d)
    → Makes now client target d (new_socks5_udp_proxy gethostbyname settings k now client target d)
unfolding new_socks5_udp_proxy
new_socks5_udp_proxy-Makes gethostbyname settings k now client target d h j =
    relay-Makes k now client target d _ h j
