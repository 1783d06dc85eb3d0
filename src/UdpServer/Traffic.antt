-- ===== src/UdpServer/Traffic.antt =====
-- `send` and `recv` keep the invariant; `recv` finds every socket that is in the map.
use mathlib.Core.Path.{subst}
use transproxify.Base.{
  some-injective, ℕ, ◌+◌, ◌^◌, ◌≤◌, ◌<◌, ◌≡◌, refl, sym, ap, ◌∙◌, ◌⊎◌, inl, inr, List, [], ◌∷◌,
  ◌++◌, Option, none, some, arith, Option-cases, Outcome, ok, throw,
}
use transproxify.Base.Order.{nat_ord, int_ord, option_ord, pair_ord}
use transproxify.Base.Map.{Has-find, find}
use transproxify.Address.{SockAddr, Hostent}
use transproxify.Udp.{Received, ClientSocket, hand_down, handed_down}
use transproxify.Udp.Proxy.{
  Fd, Descriptors, UdpProxy, incoming_socket, check_socket, send_to_target,
}
use transproxify.Udp.Score.{hand_down_time}
use transproxify.UdpServer.{
  Server, key, key_of, Answers, make_room, transmit, send, send_new, noted, recv, refreshed,
  handing,
}
use transproxify.UdpServer.Invariant.{IsObject}
use transproxify.UdpServer.Creation.{IsSane, Grants, Creates, new_proxy-Creates}
use transproxify.UdpServer.Changed.{sent-IsSane, changed-IsSane}

-- What `transmit` sends, if it sends anything.
abbrev pub Transmits : (List ℕ → Option ℕ) → List ℕ → ℕ → Server → Server → Type 0
Transmits sendto buffer id s s' =
    (s' ≡ s)
    ⊎ ((p : UdpProxy) × (packet : List ℕ) × IsObject s id p
        × (send_to_target p sendto buffer ≡ ok (some packet))
        × (s' ≡ record s { sent = s.sent ++ ((incoming_socket p, packet) ∷ []) }))

noted-Transmits :
    (sendto : List ℕ → Option ℕ) (buffer : List ℕ) (id : ℕ) (s : Server) (p : UdpProxy)
    (o : Outcome (Option (List ℕ)))
    → IsObject s id p
    → send_to_target p sendto buffer ≡ o
    → Transmits sendto buffer id s (noted (incoming_socket p) o s)
unfolding noted
noted-Transmits sendto buffer id s p (throw e) ob h = inl refl
noted-Transmits sendto buffer id s p (ok none) ob h = inl refl
noted-Transmits sendto buffer id s p (ok (some packet)) ob h = inr (p, packet, ob, h, refl)

transmit-Transmits :
    (sendto : List ℕ → Option ℕ) (buffer : List ℕ) (id : ℕ) (s : Server)
    → Transmits sendto buffer id s (transmit sendto buffer id s)
unfolding transmit
transmit-Transmits sendto buffer id s = elim (Option-cases (s.objects id)) [
  | inl e ↦ inl (rw (e, transmit))
  | inr (p, e) ↦
      let same : transmit sendto buffer id s
          ≡ noted (incoming_socket p) (send_to_target p sendto buffer) s =
        rw (e, transmit) in
      subst (Transmits sendto buffer id s) (sym same)
        (noted-Transmits sendto buffer id s p (send_to_target p sendto buffer) e refl)
]

-- What `send` does: nothing is sent, or one datagram goes out through the proxy that is registered
-- for the source and the destination.
abbrev pub Routes :
    SockAddr → SockAddr → (List ℕ → Option ℕ) → List ℕ → List (Fd × List ℕ) → Server → Type 0
Routes source destination sendto buffer before s =
    (s.sent ≡ before)
    ⊎ ((id : ℕ) × (p : UdpProxy) × (packet : List ℕ) × (find (key source destination) s.proxies
          ≡ some id)
        × IsObject s id p
        × (key_of p ≡ key source destination)
        × (send_to_target p sendto buffer ≡ ok (some packet))
        × (s.sent ≡ before ++ ((incoming_socket p, packet) ∷ [])))

refreshed-map :
    (o : Outcome ℕ) (id : ℕ) (p : UdpProxy) (s : Server)
    → (refreshed o id p s).socket_to_proxy ≡ s.socket_to_proxy
refreshed-map (throw e) id p s = refl
refreshed-map (ok t) id p s = refl

module _ (since until : ℕ) (outer : Descriptors) where
  transmit-Routes :
      (source destination : SockAddr) (sendto : List ℕ → Option ℕ) (buffer : List ℕ) (id : ℕ)
      (s : Server)
      → IsSane since until outer s
      → find (key source destination) s.proxies ≡ some id
      → let s' = transmit sendto buffer id s in
        IsSane since until outer s' × Routes source destination sendto buffer s.sent s'
  transmit-Routes source destination sendto buffer id s v known =
      elim (transmit-Transmits sendto buffer id s) [
        | inl e ↦ rw e (v, inl refl)
        | inr (p, packet, ob, h, e) ↦
            let (q, ob', same) =
              v.valid.registered (key source destination) id
                (Has-find (key source destination) id s.proxies known) in
            let is_q : q ≡ p = some-injective (sym ob' ∙ ob) in
            rw e (
              sent-IsSane since until outer s _ s.handed v,
              inr (id, p, packet, known, ob, ap key_of (sym is_q) ∙ same, h, refl),
            )
      ]

  send_new-Routes :
      (source destination : SockAddr) (sendto : List ℕ → Option ℕ) (buffer : List ℕ)
      (before : List (Fd × List ℕ)) (r : Outcome ℕ × Server)
      → Creates since until outer source destination before r
      → IsSane since until outer (send_new sendto buffer r)
        × Routes source destination sendto buffer before (send_new sendto buffer r)
  unfolding send_new
  send_new-Routes source destination sendto buffer before (throw e, s) (v, quiet, unknown) =
      (v, inl quiet)
  send_new-Routes source destination sendto buffer before (ok id, s) (v, quiet, known) =
      subst
        (λ b.
          IsSane since until outer (transmit sendto buffer id s)
          × Routes source destination sendto buffer b (transmit sendto buffer id s))
        quiet (transmit-Routes source destination sendto buffer id s v known)

  -- `send` keeps the invariant, on every path, if the kernel gives new sockets descriptors that are
  -- not open and the program has run for less than 2 ^ 31 seconds. It sends nothing, or one
  -- datagram, which is the one that the proxy makes of the data, through the proxy that is then
  -- registered for the source and the destination.
  pub send-Routes :
      (gethostbyname : List ℕ → Option Hostent) (k : Answers) (sendto : List ℕ → Option ℕ)
      (source destination : SockAddr) (buffer : List ℕ) (s : Server)
      → since ≤ until
      → until < since + 2 ^ 31
      → IsSane since until outer s
      → Grants k (make_room until s).descriptors
      → let s' = send gethostbyname k sendto until source destination buffer s in
        IsSane since until outer s' × Routes source destination sendto buffer s.sent s'
  unfolding send
  send-Routes gethostbyname k sendto source destination buffer s le h v g =
      elim (Option-cases (find (key source destination) s.proxies)) [
        | inl e ↦
            rw (e, send)
              (send_new-Routes source destination sendto buffer s.sent _ (
                new_proxy-Creates since until outer h gethostbyname k source destination s le v e
                  g))
        | inr (id, e) ↦ rw (e, send) (transmit-Routes source destination sendto buffer id s v e)
      ]

  refreshed-IsSane :
      (o : Outcome ℕ) (id : ℕ) (s : Server) (p : UdpProxy)
      → IsSane since until outer s
      → IsObject s id p
      → ((time : ℕ) → o ≡ ok time → (time ≡ until) ⊎ (time ≡ p.last_packet_time))
      → IsSane since until outer (refreshed o id p s)
  refreshed-IsSane (throw e) id s p v ob time = v
  refreshed-IsSane (ok t) id s p v ob time =
      changed-IsSane since until outer s v id p (record p { last_packet_time = t }) ob refl refl
        (let old = v.timely id p ob in
          elim (time t refl) [
            | inl e ↦ record {
              started = old.started;
              heard_later = omega (arith, e, old.heard_later, old.heard_before);
              heard_before = omega (arith, e);
            }
            | inr e ↦ record {
              started = old.started;
              heard_later = omega (arith, e, old.heard_later);
              heard_before = omega (arith, e, old.heard_before);
            }
          ])

  -- `recv` finds the proxy of a socket that is in the map, so that it does not throw. It keeps the
  -- invariant, and the maps and the descriptors as they are.
  pub recv-IsSane :
      (gethostbyname : List ℕ → Option Hostent) (k : ClientSocket) (r : Received) (fd id : ℕ)
      (s : Server)
      → IsSane since until outer s
      → find (some fd) s.socket_to_proxy ≡ some id
      → (s' : Server) × (recv gethostbyname k r until fd s ≡ ok s')
        × IsSane since until outer s'
        × (s'.socket_to_proxy ≡ s.socket_to_proxy)
  unfolding recv
  recv-IsSane gethostbyname k r fd id s v known =
      let (p, ob, own) =
        v.valid.watched (some fd) id (Has-find (some fd) id s.socket_to_proxy known) in
      let down = check_socket gethostbyname p fd r in
      let o = hand_down k until down p.last_packet_time in
      let sent_down = handed_down k p.client_address p.target_address r.payload down in
      let s' = handing sent_down s in
      (
        refreshed o id p s',
        rw (known, recv) (rw (ob, recv)),
        refreshed-IsSane o id s' p
            (sent-IsSane since until outer s s.sent (s.handed ++ sent_down) v) ob
            (λ time. hand_down_time k until down p.last_packet_time time),
        refreshed-map o id p s',
      )
