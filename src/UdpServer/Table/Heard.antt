-- ===== src/UdpServer/Table/Heard.antt =====
-- What the datagrams of a round from upstream do to the table: each proxy by itself.
use mathlib.Core.Path.{subst}
use transproxify.Base.{
  ok-injective, some-injective, ℕ, ◌≡◌, refl, sym, ap, ◌∙◌, ◌⊎◌, inl, inr, List, [], ◌∷◌, Bool,
  true, false, Option, none, some, Bool-cases, Option-cases, Outcome, ok, throw, ◌==◌, ==_iff,
  if◌then◌else◌,
}
use transproxify.Base.Order.{nat_ord, int_ord, option_ord, pair_ord}
use transproxify.Base.Map.{Map, Has, find, Has-find}
use transproxify.Address.{Hostent}
use transproxify.Udp.{hand_down, handed_down}
use transproxify.Udp.Score.{hand_down_again}
use transproxify.Udp.Proxy.{Fd, Descriptors, UdpProxy, incoming_socket, check_socket}
use transproxify.UdpServer.{Server, Key, recv, refreshed, handing}
use transproxify.UdpServer.Invariant.{IsObject, IsValid}
use transproxify.UdpServer.Creation.{IsSane}
use transproxify.UdpServer.Deletion.{set_object_self}
use transproxify.UdpServer.Traffic.{recv-IsSane}
use transproxify.UdpServer.Handed.{refreshed-object}
use transproxify.UdpServer.Loop.{Round, descriptors_of, recv_ready, recv_all}
use transproxify.UdpServer.Loop.Reachable.{Known}
use transproxify.UdpServer.Table.{table, object_of}

-- The time is noted, unless an exception is caught.
abbrev told : Outcome ℕ → UdpProxy → UdpProxy
told (throw e) p = p
told (ok time) p = record p { last_packet_time = time }

-- A descriptor is one of the list.
abbrev pub Among : Fd → List Fd → Type 0
Among fd [] = ⊥
Among fd (f ∷ fds) = (f ≡ fd) ⊎ Among fd fds

pub Has-Among : (fd : Fd) (id : ℕ) (m : Map Fd ℕ) → Has fd id m → Among fd (descriptors_of m)
Has-Among fd id [] has = elim has [ ]
Has-Among fd id ((f, i) ∷ m) (inl (e, _)) = inl e
Has-Among fd id ((f, i) ∷ m) (inr has) = inr (Has-Among fd id m has)

abbrev is_at : Fd → ℕ → Bool
is_at none f = false
is_at (some g) f = g == f

is_at-eq : (fd : Fd) (f : ℕ) → is_at fd f ≡ true → fd ≡ some f
is_at-eq none f h = cc
is_at-eq (some g) f h = ap some ((==_iff g f).0 h)

is_at_self : (fd : Fd) (f : ℕ) → fd ≡ some f → is_at fd f ≡ true
is_at_self fd f e = rw e ((==_iff f f).1 refl)

told-object :
    (o : Outcome ℕ) (id : ℕ) (p : UdpProxy) (s : Server)
    → IsObject s id p
    → IsObject (refreshed o id p s) id (told o p)
told-object (throw e) id p s ob = ob
told-object (ok t) id p s ob = set_object_self id _ s.objects

refreshed-proxies :
    (o : Outcome ℕ) (id : ℕ) (p : UdpProxy) (s : Server) → (refreshed o id p s).proxies ≡ s.proxies
refreshed-proxies (throw e) id p s = refl
refreshed-proxies (ok t) id p s = refl

module _ (gethostbyname : List ℕ → Option Hostent) (r : Round) where
  -- The time after what is received on a socket.
  abbrev pub outcome : ℕ → UdpProxy → Outcome ℕ
  outcome f p =
      hand_down (r.client_socket f) r.now (check_socket gethostbyname p f (r.received f))
        p.last_packet_time

  abbrev heard_at : Fd → UdpProxy → UdpProxy
  heard_at none p = p
  heard_at (some f) p = let p' = told (outcome f p) p in if r.ready f then p' else p

  -- A proxy after a round: if its socket is reported, the datagram received there is checked and
  -- handed down, and if the client has been sent it, the time of the round is noted.
  abbrev pub heard : UdpProxy → UdpProxy
  heard p = heard_at (incoming_socket p) p

  told_again :
      (f : ℕ) (p : UdpProxy) (o : Outcome ℕ)
      → outcome f p ≡ o
      → told (outcome f (told o p)) (told o p) ≡ told o p
  told_again f p (throw e) h = ap (λ o. told o p) h
  told_again f p (ok t) h =
      ap (λ o. told o (record p { last_packet_time = t }))
        (hand_down_again (r.client_socket f) r.now (check_socket gethostbyname p f (r.received f))
          p.last_packet_time t h)

  told-incoming : (o : Outcome ℕ) (p : UdpProxy) → incoming_socket (told o p) ≡ incoming_socket p
  told-incoming (throw e) p = refl
  told-incoming (ok t) p = refl

  heard_at_again : (fd : Fd) (p : UdpProxy) → heard_at fd (heard_at fd p) ≡ heard_at fd p
  heard_at_again none p = refl
  heard_at_again (some f) p = elim (Bool-cases (r.ready f)) [
    | inl e ↦ rw e (told_again f p (outcome f p) refl)
    | inr e ↦ rw e refl
  ]

  heard_at-incoming : (fd : Fd) (p : UdpProxy) → incoming_socket (heard_at fd p) ≡ incoming_socket p
  heard_at-incoming none p = refl
  heard_at-incoming (some f) p = elim (Bool-cases (r.ready f)) [
    | inl e ↦ rw e (told-incoming (outcome f p) p)
    | inr e ↦ rw e refl
  ]

  heard_again : (p : UdpProxy) → heard (heard p) ≡ heard p
  heard_again p =
      ap (λ fd. heard_at fd (heard p)) (heard_at-incoming (incoming_socket p) p)
      ∙ heard_at_again (incoming_socket p) p

  -- One socket, and the sockets of a list.
  abbrev at_socket : ℕ → UdpProxy → UdpProxy
  at_socket f p = if is_at (incoming_socket p) f then heard p else p

  abbrev heard_in : List Fd → UdpProxy → UdpProxy
  heard_in [] p = p
  heard_in (none ∷ fds) p = heard_in fds p
  heard_in (some f ∷ fds) p = heard_in fds (at_socket f p)

  heard_in_fixed : (fds : List Fd) (p : UdpProxy) → heard p ≡ p → heard_in fds p ≡ p
  heard_in_fixed [] p e = refl
  heard_in_fixed (none ∷ fds) p e = heard_in_fixed fds p e
  heard_in_fixed (some f ∷ fds) p e = elim (Bool-cases (is_at (incoming_socket p) f)) [
    | inl h ↦ rw h (ap (heard_in fds) e ∙ heard_in_fixed fds p e)
    | inr h ↦ rw h (heard_in_fixed fds p e)
  ]

  heard_in-Among :
      (fds : List Fd) (p : UdpProxy) → Among (incoming_socket p) fds → heard_in fds p ≡ heard p
  heard_in-Among [] p among = elim among [ ]
  heard_in-Among (none ∷ fds) p (inl e) =
      let same : heard p ≡ p = ap (λ fd. heard_at fd p) (sym e) in
      heard_in_fixed fds p same ∙ sym same
  heard_in-Among (none ∷ fds) p (inr among) = heard_in-Among fds p among
  heard_in-Among (some f ∷ fds) p among = elim (Bool-cases (is_at (incoming_socket p) f)) [
    | inl h ↦ rw h (heard_in_fixed fds (heard p) (heard_again p))
    | inr h ↦ rw h (elim among [
      | inl e ↦ absurd (cc (sym (is_at_self (incoming_socket p) f (sym e)) ∙ h))
      | inr among' ↦ heard_in-Among fds p among'
    ])
  ]

  heard-told :
      (f : ℕ) (p : UdpProxy)
      → incoming_socket p ≡ some f
      → r.ready f ≡ true
      → heard p ≡ told (outcome f p) p
  heard-told f p own ready = ap (λ fd. heard_at fd p) own ∙ rw ready refl

  at_quiet : (f : ℕ) (p : UdpProxy) → r.ready f ≡ false → at_socket f p ≡ p
  at_quiet f p quiet = elim (Bool-cases (is_at (incoming_socket p) f)) [
    | inl h ↦ rw h (ap (λ fd. heard_at fd p) (is_at-eq (incoming_socket p) f h) ∙ rw quiet refl)
    | inr h ↦ rw h refl
  ]

  recv-object :
      (outer : Descriptors) (s s1 : Server) (f i : ℕ)
      → IsValid outer s
      → find (some f) s.socket_to_proxy ≡ some i
      → recv gethostbyname (r.client_socket f) (r.received f) r.now f s ≡ ok s1
      → r.ready f ≡ true
      → (s1.proxies ≡ s.proxies)
        × ((id : ℕ) (p : UdpProxy) → IsObject s id p → IsObject s1 id (at_socket f p))
  unfolding recv
  recv-object outer s s1 f i v known done ready =
      let (q, ob, own) = v.watched (some f) i (Has-find (some f) i s.socket_to_proxy known) in
      let o = outcome f q in
      let down = check_socket gethostbyname q f (r.received f) in
      let more =
        handed_down (r.client_socket f) q.client_address q.target_address (r.received f).payload
          down in
      let s' = handing more s in
      let e : recv gethostbyname (r.client_socket f) (r.received f) r.now f s
          ≡ ok (refreshed o i q s') =
        rw (known, recv) (rw (ob, recv)) in
      let is : refreshed o i q s' ≡ s1 = ok-injective (sym e ∙ done) in
      (
        ap (λ t. t.proxies) (sym is) ∙ refreshed-proxies o i q s',
        λ id p ob'. elim (Bool-cases (is_at (incoming_socket p) f)) [
          | inl at ↦
              let is_i : id ≡ i =
                some-injective
                  (sym (v.heard id p f ob' (is_at-eq (incoming_socket p) f at)) ∙ known) in
              let is_q : q ≡ p = some-injective (sym ob ∙ ap s.objects (sym is_i) ∙ ob') in
              rw at (
                subst (λ x. IsObject s1 id x) (ap heard is_q)
                  (subst (λ j. IsObject s1 j (heard q)) (sym is_i)
                    (subst (λ t. IsObject t i (heard q)) is
                      (subst (λ x. IsObject (refreshed o i q s') i x)
                        (sym (heard-told f q own ready)) (told-object o i q s' ob)))))
          | inr away ↦ rw away (
              subst (λ t. IsObject t id p) is
                (refreshed-object o i id q p s'
                  (λ same.
                    let is_q : q ≡ p = some-injective (sym ob ∙ ap s.objects (sym same) ∙ ob') in
                    cc (
                      sym (is_at_self (incoming_socket p) f (ap incoming_socket (sym is_q) ∙ own))
                      ∙ away))
                  ob'))
        ],
      )

  recv_all-object :
      (since : ℕ) (outer : Descriptors) (fds : List Fd) (s s' : Server)
      → IsSane since r.now outer s
      → Known s.socket_to_proxy fds
      → recv_all gethostbyname r fds s ≡ ok s'
      → (s'.proxies ≡ s.proxies)
        × ((id : ℕ) (p : UdpProxy) → IsObject s id p → IsObject s' id (heard_in fds p))
  unfolding recv_all recv_ready
  recv_all-object since outer [] s s' v known e =
      let same : s ≡ s' = ok-injective e in
      (ap (λ t. t.proxies) (sym same), λ id p ob. subst (λ t. IsObject t id p) same ob)
  recv_all-object since outer (none ∷ fds) s s' v known e =
      recv_all-object since outer fds s s' v known.1 e
  recv_all-object since outer (some f ∷ fds) s s' v ((i, k), known) e =
      elim (Bool-cases (r.ready f)) [
        | inl ready ↦
            let (s1, done, v1, kept) =
              recv-IsSane since r.now outer gethostbyname (r.client_socket f) (r.received f) f i s v
                k in
            let (same, moved) = recv-object outer s s1 f i v.valid k done ready in
            let (same', moved') =
              recv_all-object since outer fds s1 s' v1 (rw kept known) (rw (ready, done) at e) in
            (same' ∙ same, λ id p ob. moved' id (at_socket f p) (moved id p ob))
        | inr ready ↦
            let (same, moved) = recv_all-object since outer fds s s' v known (rw ready at e) in
            (
              same,
              λ id p ob.
                  subst (λ x. IsObject s' id (heard_in fds x)) (sym (at_quiet f p ready))
                    (moved id p ob),
            )
      ]

  all_heard :
      (since : ℕ) (outer : Descriptors) (s : Server)
      → IsSane since r.now outer s
      → (id : ℕ) (p : UdpProxy) → IsObject s id p
      → heard_in (descriptors_of s.socket_to_proxy) p ≡ heard p
  all_heard since outer s v id p ob = elim (Option-cases (incoming_socket p)) [
    | inl none_there ↦
        let same : heard p ≡ p = ap (λ fd. heard_at fd p) none_there in
        heard_in_fixed (descriptors_of s.socket_to_proxy) p same ∙ sym same
    | inr (f, own) ↦
        let m = s.socket_to_proxy in
        heard_in-Among (descriptors_of m) p (
          subst (λ fd. Among fd (descriptors_of m)) (sym own)
            (Has-Among (some f) id m (Has-find (some f) id m (v.valid.heard id p f ob own))))
  ]

  abbrev pub mapped : Option UdpProxy → Option UdpProxy
  mapped none = none
  mapped (some p) = some (heard p)

  -- Nothing else happens to the table.
  pub recv_all-table :
      (since : ℕ) (outer : Descriptors) (s s' : Server)
      → IsSane since r.now outer s
      → Known s.socket_to_proxy (descriptors_of s.socket_to_proxy)
      → recv_all gethostbyname r (descriptors_of s.socket_to_proxy) s ≡ ok s'
      → (s'.proxies ≡ s.proxies) × ((k : Key) → table s' k ≡ mapped (table s k))
  unfolding table object_of
  recv_all-table since outer s s' v known e =
      let fds = descriptors_of s.socket_to_proxy in
      let (same, moved) = recv_all-object since outer fds s s' v known e in
      (
        same,
        λ k. elim (Option-cases (find k s.proxies)) [
          | inl h ↦ rw (same, h) refl
          | inr (id, h) ↦
              let (p, ob, key) = v.valid.registered k id (Has-find k id s.proxies h) in
              rw (same, h) (rw ob (moved id p ob ∙ ap some (all_heard since outer s v id p ob)))
        ],
      )
