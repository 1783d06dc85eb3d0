-- ===== src/Tcp/Later.antt =====
-- That a relay only appends to what its sockets have been sent: `relay_loop`, block by block.
use transproxify.Base.{
  ℕ, ◌≡◌, refl, sym, ap, ◌∙◌, inl, inr, String, List, [], ◌∷◌, ◌++◌, append-nil, append_assoc, Bool,
  true, false, Option, none, some, take, drop, ◌||◌, if◌then◌else◌, Outcome, ok, throw,
}
use transproxify.Wire.{Inbound, eof, broken, chunk, Socket, Answer, read, rechunk}
use transproxify.Util.{write_exactly}
use transproxify.Util.Writing.{Wrote, write_exactly_lem}
use transproxify.Tcp.{
  Polled, Relay, Ended, running, finished, Pumped, pump, passed_on, client_end, proxy_end,
  client_block, proxy_block, when, and_then, relay_round, go_on, relay_loop,
}

-- A socket has been sent more.
abbrev pub Grows : List ℕ → List ℕ → Type 0
Grows before after = (u : List ℕ) × (after ≡ before ++ u)

Grows-refl : (xs : List ℕ) → Grows xs xs
Grows-refl xs = ([], sym (append-nil xs))

Grows-trans : (xs ys zs : List ℕ) → Grows xs ys → Grows ys zs → Grows xs zs
Grows-trans xs ys zs (u, e) (v, h) = (u ++ v, h ∙ ap (λ t. t ++ v) e ∙ append_assoc xs u v)

Wrote-Grows : (buf sent : List ℕ) (r : Bool × Socket) → Wrote buf sent r → Grows sent r.1.sent
Wrote-Grows buf sent r (inl (e, w)) = (buf, w)
Wrote-Grows buf sent r (inr (p, q, e, rest, f, w)) = (p, w)

-- A block writes to one socket only.
abbrev Writes : Socket → Socket → Pumped → Type 0
Writes from to p = (p.from.sent ≡ from.sent) × Grows to.sent p.to.sent

passed_on-Writes :
    (write_error : String) (from from' to : Socket) (r : Bool × Socket)
    → from'.sent ≡ from.sent
    → Grows to.sent r.1.sent
    → Writes from to (passed_on write_error from' r)
unfolding passed_on
passed_on-Writes write_error from from' to (true, to') e g = (e, g)
passed_on-Writes write_error from from' to (false, to') e g = (e, g)

pump-Writes :
    (read_error write_error : String) (i : Inbound) (answers : List Answer) (sent : List ℕ)
    (to : Socket)
    → let from : Socket = record { inbound = i; answers = answers; sent = sent } in
      Writes from to (pump read_error write_error from to)
unfolding pump read
pump-Writes read_error write_error eof answers sent to = (refl, Grows-refl to.sent)
pump-Writes read_error write_error broken answers sent to = (refl, Grows-refl to.sent)
pump-Writes read_error write_error (chunk b bs i) answers sent to =
    let n : ℕ = 65535 in
    passed_on-Writes write_error (record { inbound = chunk b bs i; answers = answers; sent = sent })
      (record { inbound = rechunk (drop n bs) i; answers = answers; sent = sent }) to
      (write_exactly (b ∷ take n bs) to) refl
      (Wrote-Grows (b ∷ take n bs) to.sent (write_exactly (b ∷ take n bs) to)
        (write_exactly_lem (b ∷ take n bs) to).0)

-- Both sockets of a relay have been sent more.
abbrev pub Later : Relay → Relay → Type 0
Later r r' = Grows r.client.sent r'.client.sent × Grows r.proxy.sent r'.proxy.sent

Later-refl : (r : Relay) → Later r r
Later-refl r = (Grows-refl r.client.sent, Grows-refl r.proxy.sent)

Later-trans : (r s t : Relay) → Later r s → Later s t → Later r t
Later-trans r s t (c, p) (c', p') = (
  Grows-trans r.client.sent s.client.sent t.client.sent c c',
  Grows-trans r.proxy.sent s.proxy.sent t.proxy.sent p p',
)

client_end-Later : (o : Outcome Bool) (s r : Relay) → Later s r → Later s (client_end o r).1
unfolding client_end
client_end-Later (throw e) s r h = h
client_end-Later (ok true) s r h = h
client_end-Later (ok false) s r h = h

proxy_end-Later : (o : Outcome Bool) (s r : Relay) → Later s r → Later s (proxy_end o r).1
unfolding proxy_end
proxy_end-Later (throw e) s r h = h
proxy_end-Later (ok true) s r h = h
proxy_end-Later (ok false) s r h = h

equal-Grows : (xs ys : List ℕ) → ys ≡ xs → Grows xs ys
equal-Grows xs ys e = ([], e ∙ sym (append-nil xs))

client_block-Later : (r : Relay) → Later r (client_block r).1
unfolding client_block
client_block-Later r =
    let e : String = "client read error" in
    let e' : String = "upstream proxy write error" in
    let p = pump e e' r.client r.proxy in
    let (same, more) = pump-Writes e e' r.client.inbound r.client.answers r.client.sent r.proxy in
    client_end-Later p.still_open r (record r { client = p.from; proxy = p.to })
      (equal-Grows r.client.sent p.from.sent same, more)

proxy_block-Later : (r : Relay) → Later r (proxy_block r).1
unfolding proxy_block
proxy_block-Later r =
    let e : String = "upstream proxy read error" in
    let e' : String = "client write error" in
    let p = pump e e' r.proxy r.client in
    let (same, more) = pump-Writes e e' r.proxy.inbound r.proxy.answers r.proxy.sent r.client in
    proxy_end-Later p.still_open r (record r { proxy = p.from; client = p.to })
      (more, equal-Grows r.proxy.sent p.from.sent same)

when-Later :
    (enabled ready : Bool) (block : Relay → Outcome (Unit {0}) × Relay) (r : Relay)
    → Later r (block r).1
    → Later r (when enabled ready block r).1
unfolding when
when-Later true true block r h = h
when-Later true false block r h = Later-refl r
when-Later false ready block r h = Later-refl r

and_then-Later :
    (s : Relay) (x : Outcome (Unit {0}) × Relay) (block : Relay → Outcome (Unit {0}) × Relay)
    → Later s x.1
    → ((r : Relay) → Later r (block r).1)
    → Later s (and_then x block).1
unfolding and_then
and_then-Later s (throw e, r) block h k = h
and_then-Later s (ok u, r) block h k = Later-trans s r (block r).1 h (k r)

round-Later : (polled : Option Polled) (r : Relay) → Later r (relay_round polled r).1
unfolding relay_round
round-Later none r = Later-refl r
round-Later (some polled) r =
    and_then-Later r _ _
      (when-Later r.client_open polled.client_ready client_block r (client_block-Later r))
      λ r'. when-Later r'.proxy_open polled.proxy_ready proxy_block r' (proxy_block-Later r')

go_on-Later :
    (s : Relay) (x : Outcome (Unit {0}) × Relay) (rest : Relay → Ended × Relay)
    → Later s x.1
    → ((r : Relay) → Later r (rest r).1)
    → Later s (go_on x rest).1
unfolding go_on
go_on-Later s (throw e, r) rest h k = h
go_on-Later s (ok u, r) rest h k = Later-trans s r (rest r).1 h (k r)

if-Later :
    (b : Bool) (r : Relay) (x y : Ended × Relay)
    → Later r x.1
    → Later r y.1
    → Later r (if b then x else y).1
if-Later true r x y h k = h
if-Later false r x y h k = k

pub loop-Later : (polls : List (Option Polled)) (r : Relay) → Later r (relay_loop polls r).1
unfolding relay_loop
loop-Later [] r =
    if-Later (r.client_open || r.proxy_open) r (running, r) (finished, r) (Later-refl r)
      (Later-refl r)
loop-Later (polled ∷ polls) r =
    if-Later (r.client_open || r.proxy_open) r _ (finished, r)
      (go_on-Later r (relay_round polled r) (relay_loop polls) (round-Later polled r)
        (loop-Later polls))
      (Later-refl r)
