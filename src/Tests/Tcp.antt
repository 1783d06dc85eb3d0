-- ===== src/Tests/Tcp.antt =====
-- The relay on concrete sockets: both sides send, one closes first, and a write fails.
use transproxify.Base.{List, map, arith, ◌≡◌, refl, [], ◌∷◌, true, false, Option, some, Outcome, ok}
use transproxify.Wire.{Socket, chunk, eof, refuse, accept}
use transproxify.Tcp.{Polled, finished, failing, relay, run}
use transproxify.Tcp.Progress.{relay-finished}
use transproxify.Tcp.Prefix.{Contained, run-Contained}
use transproxify.Tcp.Delivery.{Delivered, relay_lem}

abbrev both : Option Polled
both = some (record { client_ready = true; proxy_ready = true })

abbrev pub talking : Socket
talking = record { inbound = chunk 7 (8 ∷ []) (chunk 9 [] eof); answers = []; sent = [] }

abbrev refusing : Socket
refusing = record { inbound = chunk 4 [] eof; answers = accept 1 ∷ refuse ∷ []; sent = [] }

-- The first byte of a pair is written, then the write fails.
write_fails : (relay (both ∷ []) talking refusing).0 ≡ failing "upstream proxy write error"
unfolding relay transproxify.Wire.read transproxify.Util.write_exactly
write_fails = refl

relay_lem_example : Delivered talking refusing (relay (both ∷ []) talking refusing)
relay_lem_example = relay_lem (both ∷ []) talking refusing

-- The client ends first; the proxy goes on and is reported later.
abbrev first : Polled
first = record { client_ready = true; proxy_ready = false }

abbrev second : Polled
second = record { client_ready = false; proxy_ready = true }

abbrev pub schedule : List Polled
schedule = first ∷ first ∷ second ∷ first ∷ first ∷ second ∷ []

abbrev answering : Socket
answering = record { inbound = chunk 4 [] eof; answers = []; sent = [] }

relay-finished_example : (relay (map some schedule) talking answering).0 ≡ finished
relay-finished_example =
    relay-finished schedule talking answering (refl, tt) (refl, tt) (omega arith) (omega arith)

-- The negotiation sends a byte and succeeds; then the proxy's socket refuses the client's bytes.
abbrev greet : Socket → Outcome (Unit {0}) × Socket
greet proxy = (ok tt, record proxy { sent = 5 ∷ [] })

run-Contained_example :
    Contained true (greet refusing) talking refusing (run true greet (both ∷ []) talking refusing).1
run-Contained_example = run-Contained true greet (both ∷ []) talking refusing
