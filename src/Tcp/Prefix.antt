-- ===== src/Tcp/Prefix.antt =====
-- What the two sides can have been sent, whatever happens: nothing before the negotiation has
-- succeeded, and then what the other side sent, in order, from its first byte on.
use mathlib.Core.List.{append_cancel_left}
use transproxify.Base.{
  ℕ, ◌≡◌, refl, sym, ap, ◌∙◌, List, [], ◌++◌, append_assoc, Bool, true, false, Option, Outcome, ok,
  throw,
}
use transproxify.Wire.{Socket, pending}
use transproxify.Upstream.{M}
use transproxify.Tcp.{
  Polled, Relay, Ended, running, finished, failing, start, relay, relay_after, run,
}
use transproxify.Tcp.Stands.{Stands}
use transproxify.Tcp.Delivery.{Delivered, relay_lem}
use transproxify.Tcp.Later.{Later, loop-Later}

abbrev pub IsPrefix : List ℕ → List ℕ → Type 0
IsPrefix xs all = (rest : List ℕ) × (xs ++ rest ≡ all)

-- What came before is cancelled: the bytes added are a prefix of those that were to come.
prefix_of_rest :
    (before u up rest all : List ℕ) → (before ++ u) ++ (up ++ rest) ≡ before ++ all → IsPrefix u all
prefix_of_rest before u up rest all e = (
  up ++ rest,
  append_cancel_left before (u ++ (up ++ rest)) all (sym (append_assoc before u (up ++ rest)) ∙ e),
)

-- Each side has been sent a prefix of what the other side sent.
abbrev pub Passed : Socket → Socket → Relay → Type 0
Passed client proxy r =
    (u : List ℕ) × (v : List ℕ) × (r.proxy.sent ≡ proxy.sent ++ u)
    × IsPrefix u (pending client)
    × (r.client.sent ≡ client.sent ++ v)
    × IsPrefix v (pending proxy)

Stands-Passed :
    (client proxy : Socket) (up down : List ℕ) (r : Relay)
    → Stands client proxy up down r
    → Later (start client proxy) r
    → Passed client proxy r
Stands-Passed client proxy up down r s ((v, e), (u, h)) = (
  u,
  v,
  h,
  prefix_of_rest proxy.sent u up (pending r.client) (pending client)
      (ap (λ t. t ++ (up ++ pending r.client)) (sym h) ∙ s.upward),
  e,
  prefix_of_rest client.sent v down (pending r.proxy) (pending proxy)
      (ap (λ t. t ++ (down ++ pending r.proxy)) (sym e) ∙ s.downward),
)

Delivered-Passed :
    (client proxy : Socket) (x : Ended × Relay)
    → Delivered client proxy x
    → Later (start client proxy) x.1
    → Passed client proxy x.1
Delivered-Passed client proxy (running, r) s later = Stands-Passed client proxy [] [] r s later
Delivered-Passed client proxy (finished, r) s later = Stands-Passed client proxy [] [] r s.0 later
Delivered-Passed client proxy (failing e, r) (up, down, s) later =
    Stands-Passed client proxy up down r s later

-- A tunnel never mixes up its sides. Without a connection nothing is sent; if the negotiation
-- fails, nothing reaches the client.
abbrev pub Contained : Bool → Outcome (Unit {0}) × Socket → Socket → Socket → Relay → Type 0
Contained false n client proxy r = (r.client ≡ client) × (r.proxy ≡ proxy)
Contained true (throw e, after) client proxy r = (r.client ≡ client) × (r.proxy ≡ after)
Contained true (ok u, after) client proxy r = Passed client after r

after-Contained :
    (polls : List (Option Polled)) (client proxy : Socket) (n : Outcome (Unit {0}) × Socket)
    → Contained true n client proxy (relay_after polls client n).1
unfolding relay_after relay
after-Contained polls client proxy (throw e, after) = (refl, refl)
after-Contained polls client proxy (ok u, after) =
    Delivered-Passed client after (relay polls client after) (relay_lem polls client after)
      (loop-Later polls (start client after))

-- A run, whatever the negotiation is and however `poll` and the kernel answer, whether it ends,
-- goes on or throws. Without a connection nothing is sent to either side. After a failed
-- negotiation the proxy has been sent what the negotiation wrote and the client nothing. Else the
-- proxy has been sent, behind what the negotiation wrote, a prefix of what the client sends, and
-- the client a prefix of what the negotiation has left unread.
pub run-Contained :
    (connected : Bool) (proxy_negotiate : M (Unit {0})) (polls : List (Option Polled))
    (client proxy : Socket)
    → Contained connected
        (proxy_negotiate proxy)
        client
        proxy
        (run connected proxy_negotiate polls client proxy).1
unfolding run
run-Contained true proxy_negotiate polls client proxy =
    after-Contained polls client proxy (proxy_negotiate proxy)
run-Contained false proxy_negotiate polls client proxy = (refl, refl)
