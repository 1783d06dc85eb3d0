-- ===== src/Tcp.antt =====
-- TcpProxy.hpp and DirectTcpProxy.hpp: the relay between client and upstream, and `run`. What
-- `poll` answers is an input. `DirectTcpProxy` has no negotiation.
pub mod Pump
pub mod Stands
pub mod Delivery
pub mod Later
pub mod Prefix
pub mod Live
pub mod Progress
pub mod Tunnel
pub mod HttpTunnel
pub mod Socks4Tunnel
use transproxify.Base.{
  ℕ, String, List, [], ◌∷◌, Bool, true, false, ◌||◌, Option, none, some, if◌then◌else◌, Outcome, ok,
  throw,
}
use transproxify.Wire.{Socket, Got, failed, got, read}
use transproxify.Util.{write_exactly}
use transproxify.Upstream.{M}

-- `char data[65536]`
abbrev pub data_size : ℕ
data_size = 65536

-- What `poll` reports of one round: whether POLLIN or POLLHUP is set for each of the two sockets.
pub record Polled : Type 0 where
  pub client_ready : Bool
  pub proxy_ready : Bool

-- The two sockets, whether each still delivers, and whether each was shut down for writing.
pub record Relay : Type 0 where
  pub client_open : Bool
  pub proxy_open : Bool
  pub client : Socket
  pub proxy : Socket
  pub client_shut : Bool
  pub proxy_shut : Bool

abbrev pub start : Socket → Socket → Relay
start client proxy = record {
  client_open = true;
  proxy_open = true;
  client = client;
  proxy = proxy;
  client_shut = false;
  proxy_shut = false;
}

-- One `read` and the `write_exactly` that follows it. The result is false at the end of the stream.
pub record Pumped : Type 0 where
  pub still_open : Outcome Bool
  pub from : Socket
  pub to : Socket

-- What `write_exactly` makes of the bytes read.
passed_on : String → Socket → Bool × Socket → Pumped
passed_on write_error from (true, to) = record { still_open = ok true; from = from; to = to }
passed_on write_error from (false, to) = record {
  still_open = throw write_error;
  from = from;
  to = to;
}

pub pump : String → String → Socket → Socket → Pumped
unfolding passed_on
pump read_error write_error from to =
    let (r, i) = read data_size from.inbound in
    let from' = record from { inbound = i } in
    elim r [
      | failed ↦ record { still_open = throw read_error; from = from'; to = to }
      | got [] ↦ record { still_open = ok false; from = from'; to = to }
      | got (b ∷ bs) ↦ passed_on write_error from' (write_exactly (b ∷ bs) to)
    ]

-- The end of the client's stream is passed on to the proxy by `shutdown`.
client_end : Outcome Bool → Relay → Outcome (Unit {0}) × Relay
client_end (throw e) r = (throw e, r)
client_end (ok true) r = (ok tt, r)
client_end (ok false) r = (ok tt, record r { client_open = false; proxy_shut = true })

proxy_end : Outcome Bool → Relay → Outcome (Unit {0}) × Relay
proxy_end (throw e) r = (throw e, r)
proxy_end (ok true) r = (ok tt, r)
proxy_end (ok false) r = (ok tt, record r { proxy_open = false; client_shut = true })

-- The block for the client: its bytes go to the proxy.
pub client_block : Relay → Outcome (Unit {0}) × Relay
unfolding client_end pump
client_block r =
    let p = pump "client read error" "upstream proxy write error" r.client r.proxy in
    client_end p.still_open (record r { client = p.from; proxy = p.to })

-- The block for the proxy.
pub proxy_block : Relay → Outcome (Unit {0}) × Relay
unfolding proxy_end pump
proxy_block r =
    let p = pump "upstream proxy read error" "client write error" r.proxy r.client in
    proxy_end p.still_open (record r { proxy = p.from; client = p.to })

-- A block is entered if its socket is open and ready.
when : Bool → Bool → (Relay → Outcome (Unit {0}) × Relay) → Relay → Outcome (Unit {0}) × Relay
when true true block r = block r
when true false block r = (ok tt, r)
when false ready block r = (ok tt, r)

-- An exception ends the round.
and_then :
    Outcome (Unit {0}) × Relay → (Relay → Outcome (Unit {0}) × Relay) → Outcome (Unit {0}) × Relay
and_then (throw e, r) block = (throw e, r)
and_then (ok u, r) block = block r

-- The body of the loop, with the answer of `poll`; `none` is -1.
pub relay_round : Option Polled → Relay → Outcome (Unit {0}) × Relay
unfolding client_block proxy_block when and_then
relay_round none r = (throw "poll error whilst proxying", r)
relay_round (some polled) r =
    and_then (when r.client_open polled.client_ready client_block r)
      λ r'. when r'.proxy_open polled.proxy_ready proxy_block r'

-- Where the loop stands after the answers given.
pub data Ended : Type 0 where
  running finished : Ended
  failing : String → Ended

-- The loop goes on with the next answer, or an exception ends it.
go_on : Outcome (Unit {0}) × Relay → (Relay → Ended × Relay) → Ended × Relay
go_on (throw e, r) rest = (failing e, r)
go_on (ok u, r) rest = rest r

-- `while (clientOpen || proxyOpen)`, over the answers of `poll` that are known.
pub relay_loop : List (Option Polled) → Relay → Ended × Relay
unfolding relay_round go_on
relay_loop [] r = if r.client_open || r.proxy_open then (running, r) else (finished, r)
relay_loop (polled ∷ polls) r =
    let next = go_on (relay_round polled r) (relay_loop polls) in
    if r.client_open || r.proxy_open then next else (finished, r)

-- `relay`
unfoldable pub relay : List (Option Polled) → Socket → Socket → Ended × Relay
unfolding relay_loop
relay polls client proxy = relay_loop polls (start client proxy)

-- What becomes of the tunnel once the negotiation is over.
relay_after : List (Option Polled) → Socket → Outcome (Unit {0}) × Socket → Ended × Relay
unfolding relay
relay_after polls client (throw e, proxy) = (failing e, start client proxy)
relay_after polls client (ok u, proxy) = relay polls client proxy

-- `TcpProxy::run`: whether `connect` succeeds, the negotiation, and the relay.
pub run : Bool → M (Unit {0}) → List (Option Polled) → Socket → Socket → Ended × Relay
unfolding relay_after
run connected proxy_negotiate polls client proxy =
    let rest = relay_after polls client (proxy_negotiate proxy) in
    if connected then rest else (failing "could not connect to upstream proxy", start client proxy)

-- `DirectTcpProxy::run`
pub direct_run : Bool → List (Option Polled) → Socket → Socket → Ended × Relay
unfolding relay
direct_run connected polls client target =
    let rest = relay polls client target in
    if connected then rest else (failing "could not connect to target", start client target)
