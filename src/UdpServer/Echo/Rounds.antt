-- ===== src/UdpServer/Echo/Rounds.antt =====
-- A datagram that comes back from upstream as it was sent there, in a round of the server.
use transproxify.Base.{
  ℕ, ◌≤◌, ◌≡◌, ◌≢◌, refl, sym, ap, ◌∙◌, inl, inr, List, [], ◌∷◌, ◌++◌, append-nil, append_assoc,
  Bool-cases, Option, none, some, some-injective, ok-injective, length, ◌==◌, ==_iff, is_empty,
  arith, ok, true, false,
}
use transproxify.Base.Order.{nat_ord, int_ord, option_ord, pair_ord}
use transproxify.Base.Map.{Has-find}
use transproxify.Address.{Hostent}
use transproxify.Settings.{ProxySettings}
use transproxify.Udp.{ToClient}
use transproxify.Udp.Datagram.{IsIpv4}
use transproxify.Udp.Proxy.{Fd, Descriptors, UdpProxy, opened, incoming_socket, send_to_target}
use transproxify.Udp.Echo.{origin, Takes}
use transproxify.UdpServer.{Server, recv}
use transproxify.UdpServer.Invariant.{IsObject, IsValid}
use transproxify.UdpServer.Creation.{IsSane}
use transproxify.UdpServer.Traffic.{recv-IsSane}
use transproxify.UdpServer.Handed.{Grown, Grown-refl, Grown-trans, recv-Grown, send-handed}
use transproxify.UdpServer.Echo.{recv-send_to_target}
use transproxify.UdpServer.Table.Heard.{Among, Has-Among}
use transproxify.UdpServer.Loop.{
  Arrival, quiet, broken, arrived, Round, Loop, descriptors_of, recv_all, recv_ready, arrive, round,
}
use transproxify.UdpServer.Loop.Reachable.{
  Known, Known-descriptors_of, Reached, Reached-IsSane, later-IsSane,
}

-- A datagram is one of those that were handed to clients from a state on.
abbrev pub Hands : ToClient → Server → Server → Type 0
Hands reply s s' =
    (before : List ToClient) × (after : List ToClient) × (s'.handed
      ≡ (s.handed ++ before) ++ (reply ∷ after))

Hands-later : (reply : ToClient) (s t u : Server) → Grown s t → Hands reply t u → Hands reply s u
Hands-later reply s t u (x, e) (before, after, h) = (
  x ++ before,
  after,
  h
      ∙ ap (λ z. (z ++ before) ++ (reply ∷ after)) e
      ∙ ap (λ z. z ++ (reply ∷ after)) (append_assoc s.handed x before),
)

Hands-now :
    (reply : ToClient) (s t u : Server)
    → t.handed ≡ s.handed ++ (reply ∷ [])
    → Grown t u
    → Hands reply s u
Hands-now reply s t u e (x, h) = (
  [],
  x,
  h
      ∙ ap (λ z. z ++ x) e
      ∙ append_assoc s.handed (reply ∷ []) x
      ∙ ap (λ z. z ++ (reply ∷ x)) (sym (append-nil s.handed)),
)

module _ (gethostbyname : List ℕ → Option Hostent) (since : ℕ) (outer : Descriptors)
    (r : Round) where
  recv_all-Grown :
      (fds : List Fd) (s : Server)
      → IsSane since r.now outer s
      → Known s.socket_to_proxy fds
      → (s' : Server) × (recv_all gethostbyname r fds s ≡ ok s') × Grown s s'
  unfolding recv_all recv_ready
  recv_all-Grown [] s v known = (s, refl, Grown-refl s)
  recv_all-Grown (none ∷ fds) s v known = recv_all-Grown fds s v known.1
  recv_all-Grown (some f ∷ fds) s v ((i, e), known) = elim (Bool-cases (r.ready f)) [
    | inl ready ↦
        let k = r.client_socket f in
        let (s1, done, v1, same) =
          recv-IsSane since r.now outer gethostbyname k (r.received f) f i s v e in
        let (g, _) =
          recv-Grown gethostbyname k (r.received f) r.now outer s s1 f i v.valid e done in
        let (s', rest, g') = recv_all-Grown fds s1 v1 (rw same known) in
        (s', rw (ready, done) rest, Grown-trans s s1 s' g g')
    | inr ready ↦ rw ready (recv_all-Grown fds s v known)
  ]

  arrive-handed :
      (a : Arrival) (l : Loop) → (arrive gethostbyname r a l).server.handed ≡ l.server.handed
  unfolding arrive
  arrive-handed quiet l = refl
  arrive-handed broken l = refl
  arrive-handed (arrived source destination buffer) l = elim (Bool-cases (is_empty buffer)) [
    | inl e ↦ rw e refl
    | inr e ↦ rw e (send-handed gethostbyname r.answers r.sendto r.now source _ buffer l.server)
  ]

  module _ (id fd : ℕ) (p : UdpProxy) (sendto : List ℕ → Option ℕ) (buffer packet : List ℕ)
      (own : incoming_socket p ≡ some fd) (target : IsIpv4 p.target_address)
      (small : length buffer ≤ 65507) (takes : Takes (r.client_socket fd) (length buffer))
      (sent : send_to_target p sendto buffer ≡ ok (some packet)) (ready : r.ready fd ≡ true)
      (come : r.received fd ≡ record { from = origin p; payload = some packet }) where
    abbrev reply : ToClient
    reply = record { source = p.target_address; destination = p.client_address; buffer = buffer }

    recv-Hands :
        (s s1 : Server) (f : ℕ)
        → IsValid outer s
        → IsObject s id p
        → f ≡ fd
        → recv gethostbyname (r.client_socket f) (r.received f) r.now f s ≡ ok s1
        → s1.handed ≡ s.handed ++ (reply ∷ [])
    recv-Hands s s1 f v ob is_fd done =
        let told =
          recv-send_to_target gethostbyname (r.client_socket fd) sendto outer s id r.now fd p buffer
            packet v ob own target small takes sent in
        let done' = rw come at rw is_fd at done in
        ap (λ t. t.handed) (ok-injective (sym done' ∙ told))

    not_equal : (f g : ℕ) → (f == g) ≡ false → f ≢ g
    not_equal f g h e = ground (arith, h, e)

    later_Among :
        (f : ℕ) (fds : List Fd) → f ≢ fd → Among (some fd) (some f ∷ fds) → Among (some fd) fds
    later_Among f fds ne (inl e) = absurd (ne (some-injective e))
    later_Among f fds ne (inr among) = among

    recv_all-Hands :
        (fds : List Fd) (s : Server)
        → IsSane since r.now outer s
        → Known s.socket_to_proxy fds
        → IsObject s id p
        → Among (some fd) fds
        → (s' : Server) × (recv_all gethostbyname r fds s ≡ ok s') × Hands reply s s'
    unfolding recv_all recv_ready
    recv_all-Hands [] s v known ob among = elim among [ ]
    recv_all-Hands (none ∷ fds) s v known ob (inl e) = absurd (cc e)
    recv_all-Hands (none ∷ fds) s v known ob (inr among) = recv_all-Hands fds s v known.1 ob among
    recv_all-Hands (some f ∷ fds) s v ((i, e), known) ob among =
        let k = r.client_socket f in
        let (s1, done, v1, same) =
          recv-IsSane since r.now outer gethostbyname k (r.received f) f i s v e in
        elim (Bool-cases (f == fd)) [
          | inl here ↦
              let is_fd : f ≡ fd = (==_iff f fd).0 here in
              let (s', rest, g) = recv_all-Grown fds s1 v1 (rw same known) in
              let is_ready : r.ready f ≡ true = ap r.ready is_fd ∙ ready in
              (
                s',
                rw (is_ready, done) rest,
                Hands-now reply s s1 s' (recv-Hands s s1 f v.valid ob is_fd done) g,
              )
          | inr elsewhere ↦
              let ne : f ≢ fd = not_equal f fd elsewhere in
              let among' = later_Among f fds ne among in
              elim (Bool-cases (r.ready f)) [
                | inl it_is ↦
                    let (g, stays) =
                      recv-Grown gethostbyname k (r.received f) r.now outer s s1 f i v.valid e
                        done in
                    let (s', rest, hands) =
                      recv_all-Hands fds s1 v1 (rw same known) (stays id fd p ob own ne) among' in
                    (s', rw (it_is, done) rest, Hands-later reply s s1 s' g hands)
                | inr it_is ↦ rw it_is (recv_all-Hands fds s v known ob among')
              ]
        ]

module _ (gethostbyname : List ℕ → Option Hostent) (settings : ProxySettings) (since bind_fd : ℕ)
    (d : Descriptors) where
  -- In every state that `run` reaches, take a proxy whose target is an IPv4 address and that has sent
  -- a datagram of at most 65507 bytes upwards. If what was sent comes back on the proxy's socket in
  -- the next round, and the kernel opens a socket to the client and takes a datagram of that
  -- length, then the round does not throw, whatever else comes in, and among the datagrams that it
  -- adds to those handed to clients is the data of that datagram, from the target to the client of
  -- the proxy. The clock does not go back.
  pub round-Hands :
      (clock : ℕ) (l : Loop) (r : Round) (id fd : ℕ) (p : UdpProxy) (sendto : List ℕ → Option ℕ)
      (buffer packet : List ℕ)
      → Reached gethostbyname settings since bind_fd d clock l
      → clock ≤ r.now
      → IsObject l.server id p
      → incoming_socket p ≡ some fd
      → IsIpv4 p.target_address
      → length buffer ≤ 65507
      → Takes (r.client_socket fd) (length buffer)
      → send_to_target p sendto buffer ≡ ok (some packet)
      → r.ready fd ≡ true
      → r.received fd ≡ record { from = origin p; payload = some packet }
      → (l' : Loop) × (round gethostbyname (some r) l ≡ ok l')
        × Hands
            (record { source = p.target_address; destination = p.client_address; buffer = buffer })
            l.server
            l'.server
  unfolding round
  round-Hands clock l r id fd p sendto buffer packet before le ob own target small takes sent ready
        come =
      let outer = opened (some bind_fd) d in
      let (past, v0) = Reached-IsSane gethostbyname settings since bind_fd d before in
      let v = later-IsSane since clock r.now outer l.server le v0 in
      let m = l.server.socket_to_proxy in
      let known = Known-descriptors_of m m (λ fd id has. has) in
      let among =
        Has-Among (some fd) id m (Has-find (some fd) id m (v.valid.heard id p fd ob own)) in
      let (s, e, (x, y, handed)) =
        recv_all-Hands gethostbyname since outer r id fd p sendto buffer packet own target small
          takes sent ready come (descriptors_of m) l.server v known ob among in
      let l1 : Loop = record l { server = s } in
      (
        arrive gethostbyname r r.arrival l1,
        rw (e, round),
        (x, y, arrive-handed gethostbyname since outer r r.arrival l1 ∙ handed),
      )
