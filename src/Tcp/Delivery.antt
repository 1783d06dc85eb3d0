-- ===== src/Tcp/Delivery.antt =====
-- The relay loses and invents no byte.
use transproxify.Base.{
  ℕ, ◌≡◌, refl, sym, ap, ◌∙◌, List, [], ◌∷◌, ◌++◌, Bool, ◌||◌, Option, if◌then◌else◌, true, false,
  append-nil, Outcome, ok, throw,
}
use transproxify.Wire.{Socket, pending}
use transproxify.Tcp.{
  Polled, Relay, Ended, running, finished, failing, start, relay_round, go_on, relay_loop, relay,
  run, relay_after,
}
use transproxify.Upstream.{M}
use transproxify.Tcp.Stands.{Stands, After, round-After}

-- What holds of a relay where it stands: bytes are lost by an exception alone, and the loop is over
-- only if all bytes have been delivered.
abbrev pub Delivered : Socket → Socket → Ended × Relay → Type 0
Delivered client proxy (running, r) = Stands client proxy [] [] r
Delivered client proxy (finished, r) =
    Stands client proxy [] [] r
    × (r.proxy.sent ≡ proxy.sent ++ pending client)
    × (r.client.sent ≡ client.sent ++ pending proxy)
Delivered client proxy (failing e, r) =
    (up : List ℕ) × (down : List ℕ) × Stands client proxy up down r

go_on-Delivered :
    (client proxy : Socket) (x : Outcome (Unit {0}) × Relay) (rest : Relay → Ended × Relay)
    → After client proxy x
    → ((r : Relay) → Stands client proxy [] [] r → Delivered client proxy (rest r))
    → Delivered client proxy (go_on x rest)
unfolding go_on
go_on-Delivered client proxy (throw e, r) rest h k = h
go_on-Delivered client proxy (ok u, r) rest h k = k r h

-- The loop is over when both streams have ended, and then nothing is left to deliver.
stop-Delivered :
    (client proxy : Socket) (r : Relay) (x : Ended × Relay) (client_open proxy_open : Bool)
    → r.client_open ≡ client_open
    → r.proxy_open ≡ proxy_open
    → Stands client proxy [] [] r
    → Delivered client proxy x
    → Delivered client proxy (if client_open || proxy_open then x else (finished, r))
stop-Delivered client proxy r x true proxy_open e e' s h = h
stop-Delivered client proxy r x false true e e' s h = h
stop-Delivered client proxy r x false false e e' s h = (
  s,
  sym (append-nil r.proxy.sent) ∙ ap (λ u. r.proxy.sent ++ u) (sym (s.client_drained e)) ∙ s.upward,
  sym (append-nil r.client.sent)
      ∙ ap (λ u. r.client.sent ++ u) (sym (s.proxy_drained e'))
      ∙ s.downward,
)

loop-Delivered :
    (client proxy : Socket) (polls : List (Option Polled)) (r : Relay)
    → Stands client proxy [] [] r
    → Delivered client proxy (relay_loop polls r)
unfolding relay_loop
loop-Delivered client proxy [] r s =
    stop-Delivered client proxy r (running, r) r.client_open r.proxy_open refl refl s s
loop-Delivered client proxy (polled ∷ polls) r s =
    stop-Delivered client proxy r _ r.client_open r.proxy_open refl refl s (
      go_on-Delivered client proxy (relay_round polled r) (relay_loop polls)
        (round-After client proxy polled r s) (loop-Delivered client proxy polls))

-- However `poll` answers and however the kernel cuts up reads and writes: each side has been sent,
-- in order, the bytes that came from the other side, up to those still to be read and, after an
-- exception only, those that were read and not written. The write side of a socket is shut down
-- exactly when the other's stream has ended, and then all of that stream has been sent on. If the
-- loop is over, every byte that either side sent has been delivered.
pub relay_lem :
    (polls : List (Option Polled)) (client proxy : Socket)
    → Delivered client proxy (relay polls client proxy)
unfolding relay
relay_lem polls client proxy = loop-Delivered client proxy polls (start client proxy) (record {
  upward = refl;
  downward = refl;
  proxy_told = refl;
  client_told = refl;
  client_drained = λ e. cc;
  proxy_drained = λ e. cc;
})

Delivered-finished :
    (client proxy : Socket) (x : Ended × Relay)
    → x.0 ≡ finished
    → Delivered client proxy x
    → (x.1.proxy.sent ≡ proxy.sent ++ pending client)
      × (x.1.client.sent ≡ client.sent ++ pending proxy)
Delivered-finished client proxy (running, r) e h = cc
Delivered-finished client proxy (finished, r) e h = (h.1, h.2)
Delivered-finished client proxy (failing m, r) e h = cc

after-finished :
    (polls : List (Option Polled)) (client : Socket) (n : Outcome (Unit {0}) × Socket)
    → (relay_after polls client n).0 ≡ finished
    → ((relay_after polls client n).1.proxy.sent ≡ n.1.sent ++ pending client)
      × ((relay_after polls client n).1.client.sent ≡ client.sent ++ pending n.1)
unfolding relay_after
after-finished polls client (throw e, proxy) over = cc
after-finished polls client (ok u, proxy) over =
    Delivered-finished client proxy (relay polls client proxy) over (relay_lem polls client proxy)

-- A run that ends, whatever the negotiation is: the bytes that the negotiation has left unread are
-- given to the client, and all bytes of the client are sent behind those of the negotiation.
pub run-finished :
    (proxy_negotiate : M (Unit {0})) (polls : List (Option Polled)) (client proxy : Socket)
    → (run true proxy_negotiate polls client proxy).0 ≡ finished
    → let r = (run true proxy_negotiate polls client proxy).1 in
      (r.proxy.sent ≡ (proxy_negotiate proxy).1.sent ++ pending client)
      × (r.client.sent ≡ client.sent ++ pending (proxy_negotiate proxy).1)
unfolding run
run-finished proxy_negotiate polls client proxy over =
    after-finished polls client (proxy_negotiate proxy) over
