-- ===== src/Tcp/Stands.antt =====
-- The invariant of the relay, and that every round keeps it.
use transproxify.Base.{
  ℕ, ◌≡◌, refl, sym, ap, ◌∙◌, String, List, [], ◌++◌, Bool, Option, none, some, true, false, not,
  Outcome, ok, throw,
}
use transproxify.Wire.{Socket, bytes, pending}
use transproxify.Tcp.{
  Polled, Relay, pump, client_end, proxy_end, client_block, proxy_block, when, and_then,
  relay_round,
}
use transproxify.Tcp.Pump.{Flow, Read, pump-Pumps}

-- How a relay stands that began with a client and a proxy: `up` and `down` are the bytes read and
-- not written. The write side of one socket is shut down exactly when the other's stream ended.
pub record Stands (client proxy : Socket) (up down : List ℕ) (r : Relay) : Type 0 where
  pub upward : r.proxy.sent ++ (up ++ pending r.client) ≡ proxy.sent ++ pending client
  pub downward : r.client.sent ++ (down ++ pending r.proxy) ≡ client.sent ++ pending proxy
  pub proxy_told : r.proxy_shut ≡ not r.client_open
  pub client_told : r.client_shut ≡ not r.proxy_open
  pub client_drained : r.client_open ≡ false → pending r.client ≡ []
  pub proxy_drained : r.proxy_open ≡ false → pending r.proxy ≡ []

-- Bytes are lost by an exception alone.
abbrev pub After : Socket → Socket → Outcome (Unit {0}) × Relay → Type 0
After client proxy (ok u, r) = Stands client proxy [] [] r
After client proxy (throw e, r) = (up : List ℕ) × (down : List ℕ) × Stands client proxy up down r

nothing_lost :
    (lost : List ℕ) (from to from' to' : Socket) {all : List ℕ}
    → Flow lost from to from' to'
    → lost ≡ []
    → to.sent ++ pending from ≡ all
    → to'.sent ++ pending from' ≡ all
nothing_lost lost from to from' to' flow e h =
    ap (λ u. to'.sent ++ (u ++ pending from')) (sym e) ∙ flow ∙ h

-- What the block does not change of the other direction.
other_way :
    (from to from' to' : Socket) {all : List ℕ}
    → from'.sent ≡ from.sent
    → to'.inbound ≡ to.inbound
    → from.sent ++ pending to ≡ all
    → from'.sent ++ pending to' ≡ all
other_way from to from' to' same kept h = rw (same, kept) h

module _ (client proxy : Socket) (r : Relay) (s : Stands client proxy [] [] r) where
  client_end-After :
      (o : Outcome Bool) (from' to' : Socket) (lost : List ℕ)
      → r.client_open ≡ true
      → Flow lost r.client r.proxy from' to'
      → Read o lost r.client from'
      → from'.sent ≡ r.client.sent
      → to'.inbound ≡ r.proxy.inbound
      → After client proxy (client_end o (record r { client = from'; proxy = to' }))
  unfolding client_end
  client_end-After (throw e) from' to' lost opened flow told same kept = (
    lost,
    [],
    record {
      upward = flow ∙ s.upward;
      downward = other_way r.client r.proxy from' to' same kept s.downward;
      proxy_told = s.proxy_told;
      client_told = s.client_told;
      client_drained = λ e. cc;
      proxy_drained = λ e. ap bytes kept ∙ s.proxy_drained e;
    },
  )
  client_end-After (ok true) from' to' lost opened flow (none_lost, less) same kept = record {
    upward = nothing_lost lost r.client r.proxy from' to' flow none_lost s.upward;
    downward = other_way r.client r.proxy from' to' same kept s.downward;
    proxy_told = s.proxy_told;
    client_told = s.client_told;
    client_drained = λ e. cc;
    proxy_drained = λ e. ap bytes kept ∙ s.proxy_drained e;
  }
  client_end-After (ok false) from' to' lost opened flow (none_lost, drained) same kept = record {
    upward = nothing_lost lost r.client r.proxy from' to' flow none_lost s.upward;
    downward = other_way r.client r.proxy from' to' same kept s.downward;
    proxy_told = refl;
    client_told = s.client_told;
    client_drained = λ e. drained;
    proxy_drained = λ e. ap bytes kept ∙ s.proxy_drained e;
  }

  proxy_end-After :
      (o : Outcome Bool) (from' to' : Socket) (lost : List ℕ)
      → r.proxy_open ≡ true
      → Flow lost r.proxy r.client from' to'
      → Read o lost r.proxy from'
      → from'.sent ≡ r.proxy.sent
      → to'.inbound ≡ r.client.inbound
      → After client proxy (proxy_end o (record r { proxy = from'; client = to' }))
  unfolding proxy_end
  proxy_end-After (throw e) from' to' lost opened flow told same kept = (
    [],
    lost,
    record {
      upward = other_way r.proxy r.client from' to' same kept s.upward;
      downward = flow ∙ s.downward;
      proxy_told = s.proxy_told;
      client_told = s.client_told;
      client_drained = λ e. ap bytes kept ∙ s.client_drained e;
      proxy_drained = λ e. cc;
    },
  )
  proxy_end-After (ok true) from' to' lost opened flow (none_lost, less) same kept = record {
    upward = other_way r.proxy r.client from' to' same kept s.upward;
    downward = nothing_lost lost r.proxy r.client from' to' flow none_lost s.downward;
    proxy_told = s.proxy_told;
    client_told = s.client_told;
    client_drained = λ e. ap bytes kept ∙ s.client_drained e;
    proxy_drained = λ e. cc;
  }
  proxy_end-After (ok false) from' to' lost opened flow (none_lost, drained) same kept = record {
    upward = other_way r.proxy r.client from' to' same kept s.upward;
    downward = nothing_lost lost r.proxy r.client from' to' flow none_lost s.downward;
    proxy_told = s.proxy_told;
    client_told = refl;
    client_drained = λ e. ap bytes kept ∙ s.client_drained e;
    proxy_drained = λ e. drained;
  }

  client_block-After : r.client_open ≡ true → After client proxy (client_block r)
  unfolding client_block
  client_block-After opened =
      let e : String = "client read error" in
      let e' : String = "upstream proxy write error" in
      let p = pump e e' r.client r.proxy in
      let (flowed, same, kept) =
        pump-Pumps e e' r.client.inbound r.client.answers r.client.sent r.proxy in
      client_end-After p.still_open p.from p.to flowed.0 opened flowed.1 flowed.2 same kept

  proxy_block-After : r.proxy_open ≡ true → After client proxy (proxy_block r)
  unfolding proxy_block
  proxy_block-After opened =
      let e : String = "upstream proxy read error" in
      let e' : String = "client write error" in
      let p = pump e e' r.proxy r.client in
      let (flowed, same, kept) =
        pump-Pumps e e' r.proxy.inbound r.proxy.answers r.proxy.sent r.client in
      proxy_end-After p.still_open p.from p.to flowed.0 opened flowed.1 flowed.2 same kept

  when-After :
      (enabled ready : Bool) (block : Relay → Outcome (Unit {0}) × Relay)
      → (enabled ≡ true → After client proxy (block r))
      → After client proxy (when enabled ready block r)
  unfolding when
  when-After true true block h = h refl
  when-After true false block h = s
  when-After false ready block h = s

and_then-After :
    (client proxy : Socket) (x : Outcome (Unit {0}) × Relay)
    (block : Relay → Outcome (Unit {0}) × Relay)
    → After client proxy x
    → ((r : Relay) → Stands client proxy [] [] r → After client proxy (block r))
    → After client proxy (and_then x block)
unfolding and_then
and_then-After client proxy (throw e, r) block h k = h
and_then-After client proxy (ok u, r) block h k = k r h

pub round-After :
    (client proxy : Socket) (polled : Option Polled) (r : Relay)
    → Stands client proxy [] [] r
    → After client proxy (relay_round polled r)
unfolding relay_round
round-After client proxy none r s = ([], [], s)
round-After client proxy (some polled) r s =
    and_then-After client proxy _ _
      (when-After client proxy r s r.client_open polled.client_ready client_block
        (client_block-After client proxy r s))
      λ r' s'.
        when-After client proxy r' s' r'.proxy_open polled.proxy_ready proxy_block
          (proxy_block-After client proxy r' s')
