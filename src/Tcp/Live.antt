-- ===== src/Tcp/Live.antt =====
-- Blocks of the relay that do not fail, and the rounds that the streams still take.
use transproxify.Base.{
  ℕ, suc, ◌<◌, ◌≡◌, refl, ap, ◌∙◌, String, List, ◌∷◌, Bool, true, false, arith, length, take, drop,
  Outcome, ok, throw,
}
use transproxify.Wire.{
  Inbound, eof, broken, chunk, Socket, Answer, ends, pending, Willing, read, rechunk,
}
use transproxify.Util.{write_exactly}
use transproxify.Util.Reading.{ends-rechunk}
use transproxify.Util.Writing.{write_exactly-Willing}
use transproxify.Tcp.Pump.{Read, pump-Pumps}
use transproxify.Tcp.{Relay, pump, passed_on, client_end, proxy_end, client_block, proxy_block}

-- A block that does not fail.
abbrev Succeeds : Outcome Bool → Type 0
Succeeds (ok b) = Unit {0}
Succeeds (throw e) = ⊥

-- A stream that ends without an error, on a socket that refuses no write.
abbrev pub IsGood : Socket → Type 0
IsGood s = (ends s.inbound ≡ true) × Willing s.answers

passed_on-Succeeds :
    (write_error : String) (from : Socket) (r : Bool × Socket)
    → r.0 ≡ true
    → Willing r.1.answers
    → Succeeds (passed_on write_error from r).still_open
      × ((passed_on write_error from r).from ≡ from)
      × Willing (passed_on write_error from r).to.answers
unfolding passed_on
passed_on-Succeeds write_error from (true, to) e w = (tt, refl, w)
passed_on-Succeeds write_error from (false, to) e w = cc

pump-Succeeds :
    (read_error write_error : String) (i : Inbound) (answers : List Answer) (sent : List ℕ)
    (to : Socket)
    → ends i ≡ true
    → Willing to.answers
    → let from : Socket = record { inbound = i; answers = answers; sent = sent } in
      let p = pump read_error write_error from to in
      Succeeds p.still_open
      × (ends p.from.inbound ≡ true)
      × (p.from.answers ≡ answers)
      × Willing p.to.answers
unfolding pump read
pump-Succeeds read_error write_error eof answers sent to e w = (tt, refl, refl, w)
pump-Succeeds read_error write_error broken answers sent to e w = cc
pump-Succeeds read_error write_error (chunk b bs i) answers sent to e w =
    let n : ℕ = 65535 in
    let done = write_exactly-Willing (b ∷ take n bs) to w in
    let from' : Socket = record {
      inbound = rechunk (drop n bs) i;
      answers = answers;
      sent = sent;
    } in
    let (s, same, w') =
      passed_on-Succeeds write_error from' (write_exactly (b ∷ take n bs) to) done.0 done.1 in
    (
      s,
      ap (λ f. ends f.inbound) same ∙ ends-rechunk (drop n bs) i ∙ e,
      ap (λ f. f.answers) same,
      w',
    )

-- The bytes and the end of each stream that is open take fewer than so many rounds.
pub record Live (client_rounds proxy_rounds : ℕ) (r : Relay) : Type 0 where
  pub client_left : r.client_open ≡ true → length (pending r.client) < client_rounds
  pub proxy_left : r.proxy_open ≡ true → length (pending r.proxy) < proxy_rounds
  pub client_good : IsGood r.client
  pub proxy_good : IsGood r.proxy

-- A block that is left with no exception, and how many rounds are then enough.
abbrev pub Lives : ℕ → ℕ → Outcome (Unit {0}) × Relay → Type 0
Lives n m (ok u, r) = Live n m r
Lives n m (throw e, r) = ⊥

client_end-Lives :
    (n m : ℕ) (r : Relay) (o : Outcome Bool) (from' to' : Socket) (lost : List ℕ)
    → Live (suc n) m r
    → r.client_open ≡ true
    → Succeeds o
    → Read o lost r.client from'
    → to'.inbound ≡ r.proxy.inbound
    → IsGood from'
    → Willing to'.answers
    → Lives n m (client_end o (record r { client = from'; proxy = to' }))
unfolding client_end
client_end-Lives n m r (throw e) from' to' lost l opened s told kept good w = elim s [ ]
client_end-Lives n m r (ok true) from' to' lost l opened s (e, less) kept good w = record {
  client_left = λ _. omega (arith, less, l.client_left opened);
  proxy_left = λ o. rw kept (l.proxy_left o);
  client_good = good;
  proxy_good = (ap ends kept ∙ l.proxy_good.0, w);
}
client_end-Lives n m r (ok false) from' to' lost l opened s told kept good w = record {
  client_left = λ e. cc;
  proxy_left = λ o. rw kept (l.proxy_left o);
  client_good = good;
  proxy_good = (ap ends kept ∙ l.proxy_good.0, w);
}

proxy_end-Lives :
    (n m : ℕ) (r : Relay) (o : Outcome Bool) (from' to' : Socket) (lost : List ℕ)
    → Live n (suc m) r
    → r.proxy_open ≡ true
    → Succeeds o
    → Read o lost r.proxy from'
    → to'.inbound ≡ r.client.inbound
    → IsGood from'
    → Willing to'.answers
    → Lives n m (proxy_end o (record r { proxy = from'; client = to' }))
unfolding proxy_end
proxy_end-Lives n m r (throw e) from' to' lost l opened s told kept good w = elim s [ ]
proxy_end-Lives n m r (ok true) from' to' lost l opened s (e, less) kept good w = record {
  client_left = λ o. rw kept (l.client_left o);
  proxy_left = λ _. omega (arith, less, l.proxy_left opened);
  client_good = (ap ends kept ∙ l.client_good.0, w);
  proxy_good = good;
}
proxy_end-Lives n m r (ok false) from' to' lost l opened s told kept good w = record {
  client_left = λ o. rw kept (l.client_left o);
  proxy_left = λ e. cc;
  client_good = (ap ends kept ∙ l.client_good.0, w);
  proxy_good = good;
}

pub client_block-Lives :
    (n m : ℕ) (r : Relay) → Live (suc n) m r → r.client_open ≡ true → Lives n m (client_block r)
unfolding client_block
client_block-Lives n m r l opened =
    let e : String = "client read error" in
    let e' : String = "upstream proxy write error" in
    let p = pump e e' r.client r.proxy in
    let f = pump-Pumps e e' r.client.inbound r.client.answers r.client.sent r.proxy in
    let (s, end, same, w) =
      pump-Succeeds e e' r.client.inbound r.client.answers r.client.sent r.proxy l.client_good.0
        l.proxy_good.1 in
    client_end-Lives n m r p.still_open p.from p.to f.0.0 l opened s f.0.2 f.2
      (end, rw same l.client_good.1) w

pub proxy_block-Lives :
    (n m : ℕ) (r : Relay) → Live n (suc m) r → r.proxy_open ≡ true → Lives n m (proxy_block r)
unfolding proxy_block
proxy_block-Lives n m r l opened =
    let e : String = "upstream proxy read error" in
    let e' : String = "client write error" in
    let p = pump e e' r.proxy r.client in
    let f = pump-Pumps e e' r.proxy.inbound r.proxy.answers r.proxy.sent r.client in
    let (s, end, same, w) =
      pump-Succeeds e e' r.proxy.inbound r.proxy.answers r.proxy.sent r.client l.proxy_good.0
        l.client_good.1 in
    proxy_end-Lives n m r p.still_open p.from p.to f.0.0 l opened s f.0.2 f.2
      (end, rw same l.proxy_good.1) w
