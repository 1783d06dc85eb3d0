-- ===== src/Tcp/Progress.antt =====
-- The relay comes to its end if both streams end and `poll` keeps reporting them.
use transproxify.Base.{
  ℕ, suc, ◌<◌, ◌≡◌, ◌≢◌, refl, List, [], ◌∷◌, Bool, true, false, ◌||◌, length, some, if◌then◌else◌,
  map, Outcome, ok, throw,
}
use transproxify.Wire.{Socket, pending}
use transproxify.Tcp.{
  Polled, Relay, Ended, running, finished, start, client_block, proxy_block, when, and_then,
  relay_round, go_on, relay_loop, relay,
}
use transproxify.Tcp.Live.{IsGood, Live, Lives, client_block-Lives, proxy_block-Lives}

-- One round more where a socket is ready.
abbrev pub count : Bool → ℕ → ℕ
count true n = suc n
count false n = n

client_when-Lives :
    (n m : ℕ) (r : Relay) (enabled ready : Bool)
    → r.client_open ≡ enabled
    → Live (count ready n) m r
    → Lives n m (when enabled ready client_block r)
unfolding when
client_when-Lives n m r true true e l = client_block-Lives n m r l e
client_when-Lives n m r true false e l = l
client_when-Lives n m r false ready e l = record {
  client_left = λ o. cc;
  proxy_left = l.proxy_left;
  client_good = l.client_good;
  proxy_good = l.proxy_good;
}

proxy_when-Lives :
    (n m : ℕ) (r : Relay) (enabled ready : Bool)
    → r.proxy_open ≡ enabled
    → Live n (count ready m) r
    → Lives n m (when enabled ready proxy_block r)
unfolding when
proxy_when-Lives n m r true true e l = proxy_block-Lives n m r l e
proxy_when-Lives n m r true false e l = l
proxy_when-Lives n m r false ready e l = record {
  client_left = l.client_left;
  proxy_left = λ o. cc;
  client_good = l.client_good;
  proxy_good = l.proxy_good;
}

and_then-Lives :
    (n m n' m' : ℕ) (x : Outcome (Unit {0}) × Relay) (block : Relay → Outcome (Unit {0}) × Relay)
    → Lives n m x
    → ((r : Relay) → Live n m r → Lives n' m' (block r))
    → Lives n' m' (and_then x block)
unfolding and_then
and_then-Lives n m n' m' (throw e, r) block h k = elim h [ ]
and_then-Lives n m n' m' (ok u, r) block h k = k r h

round-Lives :
    (n m : ℕ) (polled : Polled) (r : Relay)
    → Live (count polled.client_ready n) (count polled.proxy_ready m) r
    → Lives n m (relay_round (some polled) r)
unfolding relay_round
round-Lives n m polled r l =
    and_then-Lives n (count polled.proxy_ready m) n m _ _
      (client_when-Lives n (count polled.proxy_ready m) r r.client_open polled.client_ready refl l)
      λ r' l'. proxy_when-Lives n m r' r'.proxy_open polled.proxy_ready refl l'

go_on-finished :
    (n m : ℕ) (x : Outcome (Unit {0}) × Relay) (rest : Relay → Ended × Relay)
    → Lives n m x
    → ((r : Relay) → Live n m r → (rest r).0 ≡ finished)
    → (go_on x rest).0 ≡ finished
unfolding go_on
go_on-finished n m (throw e, r) rest h k = elim h [ ]
go_on-finished n m (ok u, r) rest h k = k r h

-- The rounds in which a socket is reported.
abbrev pub client_rounds : List Polled → ℕ
client_rounds [] = 0
client_rounds (polled ∷ polls) = count polled.client_ready (client_rounds polls)

abbrev pub proxy_rounds : List Polled → ℕ
proxy_rounds [] = 0
proxy_rounds (polled ∷ polls) = count polled.proxy_ready (proxy_rounds polls)

or-elim-finished :
    (a b : Bool) (r : Relay) (x : Ended × Relay)
    → x.0 ≡ finished
    → (if a || b then x else (finished, r)).0 ≡ finished
or-elim-finished true b r x h = h
or-elim-finished false true r x h = h
or-elim-finished false false r x h = refl

nothing_open :
    (a b : Bool) (r : Relay)
    → a ≢ true
    → b ≢ true
    → let x : Ended × Relay = if a || b then (running, r) else (finished, r) in x.0 ≡ finished
nothing_open true b r h k = elim (h refl) [ ]
nothing_open false true r h k = elim (k refl) [ ]
nothing_open false false r h k = refl

loop-finished :
    (polls : List Polled) (r : Relay)
    → Live (client_rounds polls) (proxy_rounds polls) r
    → (relay_loop (map some polls) r).0 ≡ finished
unfolding relay_loop
loop-finished [] r l =
    nothing_open r.client_open r.proxy_open r (λ o. elim (l.client_left o) [ ])
      (λ o. elim (l.proxy_left o) [ ])
loop-finished (polled ∷ polls) r l = or-elim-finished r.client_open r.proxy_open r _ (
    go_on-finished (client_rounds polls) (proxy_rounds polls) (relay_round (some polled) r)
      (relay_loop (map some polls))
      (round-Lives (client_rounds polls) (proxy_rounds polls) polled r l) (loop-finished polls))

-- If both streams end without an error, the kernel refuses no write, and `poll` reports no error and
-- each socket in more rounds than bytes come from it, the relay comes to its end, however reads and
-- writes are cut up and in whatever order the sockets are reported.
pub relay-finished :
    (polls : List Polled) (client proxy : Socket)
    → IsGood client
    → IsGood proxy
    → length (pending client) < client_rounds polls
    → length (pending proxy) < proxy_rounds polls
    → (relay (map some polls) client proxy).0 ≡ finished
unfolding relay
relay-finished polls client proxy g h n m =
    loop-finished polls (start client proxy)
      (record { client_left = λ o. n; proxy_left = λ o. m; client_good = g; proxy_good = h })
