-- ===== src/UdpServer/Loop/Reachable.antt =====
-- Every state that the loop of the server reaches, and that no round with an answer of `poll` throws.
use transproxify.Base.{
  ok-injective, ℕ, ◌+◌, ◌^◌, ◌≤◌, ◌<◌, ◌≡◌, refl, sym, ◌∙◌, inl, inr, List, [], ◌∷◌, Option, none,
  some, arith, All, is_empty, Bool-cases, ok,
}
use transproxify.Base.Order.{nat_ord, int_ord, option_ord, pair_ord}
use transproxify.Base.Map.{Map, Has, find, find-Has}
use transproxify.Address.{Hostent}
use transproxify.Settings.{ProxySettings}
use transproxify.Udp.Proxy.{Fd, Descriptors, opened}
use transproxify.UdpServer.{Server, make_room}
use transproxify.UdpServer.Loop.{
  Arrival, quiet, broken, arrived, Round, Loop, descriptors_of, recv_ready, recv_all, arrive, round,
  start,
}
use transproxify.UdpServer.Invariant.{IsValid}
use transproxify.UdpServer.Creation.{IsSane, Grants}
use transproxify.UdpServer.Traffic.{send-Routes, recv-IsSane}

-- Every one of these descriptors is in the map.
abbrev pub Known : Map Fd ℕ → List Fd → Type 0
Known m = All (λ fd. (id : ℕ) × (find fd m ≡ some id))

pub Known-descriptors_of :
    (m keys : Map Fd ℕ)
    → ((fd : Fd) (id : ℕ) → Has fd id keys → Has fd id m)
    → Known m (descriptors_of keys)
Known-descriptors_of m [] h = tt
Known-descriptors_of m ((fd, id) ∷ keys) h = (
  find-Has fd id m (h fd id (inl (refl, refl))),
  Known-descriptors_of m keys (λ fd' id' has. h fd' id' (inr has)),
)

-- Time goes on.
pub later-IsSane :
    (since until later : ℕ) (outer : Descriptors) (s : Server)
    → until ≤ later
    → IsSane since until outer s
    → IsSane since later outer s
later-IsSane since until later outer s le v = record {
  valid = v.valid;
  timely = λ id p ob.
      let t = v.timely id p ob in
      record {
        started = t.started;
        heard_later = t.heard_later;
        heard_before = omega (arith, t.heard_before, le);
      };
}

-- What the kernel gives for new sockets in a round: descriptors that are not open once the round
-- has made room for a new proxy.
abbrev pub Honest : (List ℕ → Option Hostent) → Round → Loop → Type 0
Honest gethostbyname r l =
    (s : Server)
    → recv_all gethostbyname r (descriptors_of l.server.socket_to_proxy) l.server ≡ ok s
    → Grants r.answers (make_room r.now s).descriptors

module _ (gethostbyname : List ℕ → Option Hostent) (since : ℕ) (outer : Descriptors) where
  pub recv_all-IsSane :
      (r : Round) (fds : List Fd) (s : Server)
      → IsSane since r.now outer s
      → Known s.socket_to_proxy fds
      → (s' : Server) × (recv_all gethostbyname r fds s ≡ ok s') × IsSane since r.now outer s'
  unfolding recv_all recv_ready
  recv_all-IsSane r [] s v known = (s, refl, v)
  recv_all-IsSane r (none ∷ fds) s v known = recv_all-IsSane r fds s v known.1
  recv_all-IsSane r (some fd ∷ fds) s v ((id, e), known) = elim (Bool-cases (r.ready fd)) [
    | inl ready ↦
        let (s', done, v', same) =
          recv-IsSane since r.now outer gethostbyname (r.client_socket fd) (r.received fd) fd id s v
            e in
        rw (ready, done) (recv_all-IsSane r fds s' v' (rw same known))
    | inr ready ↦ rw ready (recv_all-IsSane r fds s v known)
  ]

  arrive-IsSane :
      (r : Round) (a : Arrival) (l : Loop)
      → since ≤ r.now
      → r.now < since + 2 ^ 31
      → Grants r.answers (make_room r.now l.server).descriptors
      → IsSane since r.now outer l.server
      → IsSane since r.now outer (arrive gethostbyname r a l).server
  unfolding arrive
  arrive-IsSane r quiet l le h g v = v
  arrive-IsSane r broken l le h g v = v
  arrive-IsSane r (arrived source destination buffer) l le h g v =
      elim (Bool-cases (is_empty buffer)) [
        | inl e ↦ rw e v
        | inr e ↦
            rw e
              (send-Routes since r.now outer gethostbyname r.answers r.sendto source _ buffer
                l.server le h v g).0
      ]

  round-IsSane :
      (r : Round) (clock : ℕ) (l : Loop)
      → since ≤ clock
      → clock ≤ r.now
      → r.now < since + 2 ^ 31
      → Honest gethostbyname r l
      → IsSane since clock outer l.server
      → (l' : Loop) × (round gethostbyname (some r) l ≡ ok l') × IsSane since r.now outer l'.server
  unfolding round
  round-IsSane r clock l begun le h honest v =
      let m = l.server.socket_to_proxy in
      let (s, done, v') =
        recv_all-IsSane r (descriptors_of m) l.server
          (later-IsSane since clock r.now outer l.server le v)
          (Known-descriptors_of m m (λ fd id has. has)) in
      (
        arrive gethostbyname r r.arrival (record l { server = s }),
        rw (done, round),
        arrive-IsSane r r.arrival (record l { server = s }) (omega arith) h (honest s done) v',
      )

pub start-IsSane :
    (settings : ProxySettings) (since fd : ℕ) (d : Descriptors)
    → IsSane since since (opened (some fd) d) (start settings fd d).server
start-IsSane settings since fd d = record {
  valid = record {
    registered = λ k id has. elim has [ ];
    alive = λ id p ob. cc;
    watched = λ k id has. elim has [ ];
    heard = λ id p f ob. cc;
    fresh = λ id le. refl;
    limited = omega arith;
    owned = λ id p f ob. cc;
    accounted = λ f h. inl h;
    apart = λ i j p q f ob. cc;
    kept = λ f h. h;
  };
  timely = λ id p ob. cc;
}

-- The states after some rounds of `run`, and the time of the last round. The clock does not go back,
-- the rounds take less than 2 ^ 31 seconds, and new sockets get descriptors that are not open.
pub data Reached (gethostbyname : List ℕ → Option Hostent) (settings : ProxySettings) (since fd : ℕ)
    (d : Descriptors) : ℕ → Loop → Type 0 where
  begun : Reached gethostbyname settings since fd d since (start settings fd d)
  next :
      {clock : ℕ} {l : Loop} (r : Round) (l' : Loop)
      → Reached gethostbyname settings since fd d clock l
      → clock ≤ r.now
      → r.now < since + 2 ^ 31
      → Honest gethostbyname r l
      → round gethostbyname (some r) l ≡ ok l'
      → Reached gethostbyname settings since fd d r.now l'

module _ (gethostbyname : List ℕ → Option Hostent) (settings : ProxySettings) (since fd : ℕ)
    (d : Descriptors) where
  pub Reached-IsSane :
      {clock : ℕ} {l : Loop}
      → Reached gethostbyname settings since fd d clock l
      → (since ≤ clock) × IsSane since clock (opened (some fd) d) l.server
  Reached-IsSane begun = (omega arith, start-IsSane settings since fd d)
  Reached-IsSane (next {clock} {l} r l' before le h honest done) =
      let (past, v) = Reached-IsSane before in
      let (l'', done', v') =
        round-IsSane gethostbyname since (opened (some fd) d) r clock l past le h honest v in
      let same : l'' ≡ l' = ok-injective (sym done' ∙ done) in (omega arith, rw (← same) v')

  -- In every state that `run` reaches, and after one more round: each entry of either map is that
  -- of a proxy that exists, under its addresses or its socket. Every proxy that exists is found
  -- under its addresses and, if its socket is not -1, under its socket. There are at most 256. The
  -- descriptors that are open are those that were open before the first round and those that the
  -- proxies own, each owned by one. A round for which `poll` succeeds does not throw, so that `recv`
  -- never meets a socket of no proxy. The conditions are those of `Reached`: the clock does not go
  -- back, the server has run for less than 2 ^ 31 seconds, and the kernel gives new sockets
  -- descriptors that are not open.
  pub serves :
      (clock : ℕ) (l : Loop) (r : Round)
      → Reached gethostbyname settings since fd d clock l
      → clock ≤ r.now
      → r.now < since + 2 ^ 31
      → Honest gethostbyname r l
      → IsValid (opened (some fd) d) l.server
        × ((l' : Loop) × (round gethostbyname (some r) l ≡ ok l')
            × IsValid (opened (some fd) d) l'.server)
  serves clock l r before le h honest =
      let (past, v) = Reached-IsSane before in
      let (l', done, v') =
        round-IsSane gethostbyname since (opened (some fd) d) r clock l past le h honest v in
      (v.valid, (l', done, v'.valid))
