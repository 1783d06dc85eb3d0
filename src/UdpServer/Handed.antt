-- ===== src/UdpServer/Handed.antt =====
-- What each operation of the server adds to the datagrams that were handed to clients.
use mathlib.Core.Path.{subst}
use transproxify.Base.{
  ℕ, ◌≡◌, ◌≢◌, refl, sym, ap, ◌∙◌, inl, inr, List, [], ◌++◌, append-nil, append_assoc, Bool-cases,
  Option, none, some, Option-cases, some-injective, ok-injective, length, leb, Outcome, ok, throw,
  ◌||◌,
}
use transproxify.Base.Order.{nat_ord, int_ord, option_ord, pair_ord}
use transproxify.Base.Map.{Has-find, find, erase}
use transproxify.Address.{SockAddr, Hostent}
use transproxify.Udp.{ToClient, ClientSocket, Received, hand_down, handed_down}
use transproxify.Udp.Proxy.{
  Fd, Descriptors, UdpProxy, incoming_socket, check_socket, send_to_target,
}
use transproxify.UdpServer.{
  Server, Answers, key, key_of, holds, release, delete_proxy, victim, evict_proxy, make_room, noted,
  transmit, registered, new_proxy, send_new, send, recv, refreshed, handing, udp_proxy_limit,
}
use transproxify.UdpServer.Invariant.{IsObject, IsValid}
use transproxify.UdpServer.Deletion.{set_object_ne}

noted-handed :
    (fd : Fd) (o : Outcome (Option (List ℕ))) (s : Server) → (noted fd o s).handed ≡ s.handed
unfolding noted
noted-handed fd (throw e) s = refl
noted-handed fd (ok none) s = refl
noted-handed fd (ok (some packet)) s = refl

transmit-handed :
    (sendto : List ℕ → Option ℕ) (buffer : List ℕ) (id : ℕ) (s : Server)
    → (transmit sendto buffer id s).handed ≡ s.handed
unfolding transmit
transmit-handed sendto buffer id s = elim (Option-cases (s.objects id)) [
  | inl e ↦ rw (e, transmit) refl
  | inr (p, e) ↦
      rw (e, transmit) (noted-handed (incoming_socket p) (send_to_target p sendto buffer) s)
]

release-handed : (id : ℕ) (s : Server) → (release id s).handed ≡ s.handed
unfolding release
release-handed id s = elim (Option-cases (s.objects id)) [
  | inl e ↦ rw (e, release) refl
  | inr (p, e) ↦
      rw (e, release)
        (elim (Bool-cases (holds id s.proxies || holds id s.socket_to_proxy)) [
          | inl h ↦ rw h refl
          | inr h ↦ rw h refl
        ])
]

delete_proxy-handed : (id : ℕ) (s : Server) → (delete_proxy id s).handed ≡ s.handed
unfolding delete_proxy
delete_proxy-handed id s = elim (Option-cases (s.objects id)) [
  | inl e ↦ rw (e, delete_proxy) refl
  | inr (p, e) ↦
      rw (e, delete_proxy)
        (release-handed id (record s {
          proxies = erase (key_of p) s.proxies;
          socket_to_proxy = erase (incoming_socket p) s.socket_to_proxy;
        }))
]

evict_proxy-handed : (now : ℕ) (s : Server) → (evict_proxy now s).handed ≡ s.handed
unfolding evict_proxy
evict_proxy-handed now s = elim (Option-cases (victim now s)) [
  | inl e ↦ rw (e, evict_proxy) refl
  | inr (id, e) ↦ rw (e, evict_proxy) (delete_proxy-handed id s)
]

make_room-handed : (now : ℕ) (s : Server) → (make_room now s).handed ≡ s.handed
unfolding make_room
make_room-handed now s = elim (Bool-cases (leb udp_proxy_limit (length s.proxies))) [
  | inl full ↦ rw full (evict_proxy-handed now s)
  | inr room ↦ rw room refl
]

registered-handed :
    (x : Outcome UdpProxy × Descriptors) (s : Server) → (registered x s).1.handed ≡ s.handed
unfolding registered
registered-handed (throw e, d) s = refl
registered-handed (ok p, d) s = refl

send_new-handed :
    (sendto : List ℕ → Option ℕ) (buffer : List ℕ) (x : Outcome ℕ × Server)
    → (send_new sendto buffer x).handed ≡ x.1.handed
unfolding send_new
send_new-handed sendto buffer (throw e, s) = refl
send_new-handed sendto buffer (ok id, s) = transmit-handed sendto buffer id s

module _ (gethostbyname : List ℕ → Option Hostent) where
  new_proxy-handed :
      (k : Answers) (now : ℕ) (client target : SockAddr) (s : Server)
      → (new_proxy gethostbyname k now client target s).1.handed ≡ s.handed
  unfolding new_proxy
  new_proxy-handed k now client target s =
      registered-handed _ (make_room now s) ∙ make_room-handed now s

  pub send-handed :
      (k : Answers) (sendto : List ℕ → Option ℕ) (now : ℕ) (source destination : SockAddr)
      (buffer : List ℕ) (s : Server)
      → (send gethostbyname k sendto now source destination buffer s).handed ≡ s.handed
  unfolding send
  send-handed k sendto now source destination buffer s =
      elim (Option-cases (find (key source destination) s.proxies)) [
        | inl e ↦
            rw (e, send)
              (send_new-handed sendto buffer (new_proxy gethostbyname k now source destination s)
                ∙ new_proxy-handed k now source destination s)
        | inr (id, e) ↦ rw (e, send) (transmit-handed sendto buffer id s)
      ]

-- More has been handed to clients.
abbrev pub Grown : Server → Server → Type 0
Grown s s' = (more : List ToClient) × (s'.handed ≡ s.handed ++ more)

pub Grown-refl : (s : Server) → Grown s s
Grown-refl s = ([], sym (append-nil s.handed))

pub Grown-trans : (s t u : Server) → Grown s t → Grown t u → Grown s u
Grown-trans s t u (x, e) (y, h) = (x ++ y, h ∙ ap (λ z. z ++ y) e ∙ append_assoc s.handed x y)

refreshed-handed :
    (o : Outcome ℕ) (id : ℕ) (p : UdpProxy) (s : Server) → (refreshed o id p s).handed ≡ s.handed
refreshed-handed (throw e) id p s = refl
refreshed-handed (ok t) id p s = refl

pub refreshed-object :
    (o : Outcome ℕ) (id i : ℕ) (p q : UdpProxy) (s : Server)
    → i ≢ id
    → IsObject s i q
    → IsObject (refreshed o id p s) i q
refreshed-object (throw e) id i p q s ne ob = ob
refreshed-object (ok t) id i p q s ne ob = set_object_ne id _ s.objects i ne ∙ ob

module _ (gethostbyname : List ℕ → Option Hostent) (k : ClientSocket) (r : Received) (now : ℕ) where
  -- `recv` on a socket in the map: it hands more to a client, and the proxies of other sockets stay.
  pub recv-Grown :
      (outer : Descriptors) (s s' : Server) (f i : ℕ)
      → IsValid outer s
      → find (some f) s.socket_to_proxy ≡ some i
      → recv gethostbyname k r now f s ≡ ok s'
      → Grown s s'
        × ((id fd : ℕ) (p : UdpProxy)
            → IsObject s id p
            → incoming_socket p ≡ some fd
            → f ≢ fd
            → IsObject s' id p)
  unfolding recv
  recv-Grown outer s s' f i v known done =
      let (q, ob, own) = v.watched (some f) i (Has-find (some f) i s.socket_to_proxy known) in
      let down = check_socket gethostbyname q f r in
      let o = hand_down k now down q.last_packet_time in
      let more = handed_down k q.client_address q.target_address r.payload down in
      let e : recv gethostbyname k r now f s ≡ ok (refreshed o i q (handing more s)) =
        rw (known, recv) (rw (ob, recv)) in
      let is : refreshed o i q (handing more s) ≡ s' = ok-injective (sym e ∙ done) in
      (
        (more, ap (λ t. t.handed) (sym is) ∙ refreshed-handed o i q (handing more s)),
        λ id fd p ob' own' ne.
            subst (λ t. IsObject t id p) is
              (refreshed-object o i id q p (handing more s)
                (λ same. ne (
                  some-injective (
                    sym own
                    ∙ ap incoming_socket (some-injective (sym ob ∙ ap s.objects (sym same) ∙ ob'))
                    ∙ own')))
                ob'),
      )
