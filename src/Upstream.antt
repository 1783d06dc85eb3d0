-- ===== src/Upstream.antt =====
-- The exchange with the upstream proxy over its socket: a computation that reads and writes the
-- socket and may throw. The pieces are those that every `proxy_negotiate` is made of.
pub mod Refines
pub mod Packets
use transproxify.Base.{
  ℕ, String, List, [], ◌∷◌, ◌++◌, Bool, true, false, Option, none, some, length, ◌==◌,
  if◌then◌else◌, Outcome, ok, throw,
}
use transproxify.Wire.{Inbound, Socket, Got, failed, got}
use transproxify.Util.{read_exactly, write_exactly, build_packet}

-- The socket goes on with whatever was read and sent before an exception.
abbrev pub M : Type 0 → Type 0
M Value = Socket → Outcome Value × Socket

abbrev pub pure : {Value : Type 0} → Value → M Value
pure value socket = (ok value, socket)

abbrev pub fail : {Value : Type 0} → String → M Value
fail message socket = (throw message, socket)

-- The rest of a computation after its first part.
abbrev resume :
    {First Last : Type 0} → Outcome First × Socket → (First → M Last) → Outcome Last × Socket
resume (ok value, socket) more = more value socket
resume (throw message, socket) more = (throw message, socket)

infixl 5 ◌>>=◌
abbrev pub ◌>>=◌ : {First Last : Type 0} → M First → (First → M Last) → M Last
◌>>=◌ first more socket = resume (first socket) more

infixl 5 ◌>>◌
abbrev pub ◌>>◌ : {Last : Type 0} → M (Unit {0}) → M Last → M Last
first >> last = first >>= λ _. last

-- `if (!condition) throw std::runtime_error(message);`
abbrev pub require : Bool → String → M (Unit {0})
require true message = pure tt
require false message = fail message

received : Got → ℕ → String → Outcome (List ℕ)
received failed n message = throw message
received (got buffer) n message = if length buffer == n then ok buffer else throw message

-- `if (read_exactly(fd, &buffer, n) != n) throw std::runtime_error(message);`
pub receive : ℕ → String → M (List ℕ)
unfolding received
receive n message s =
    let (r, i) = read_exactly n s.inbound in (received r n message, record s { inbound = i })

-- The chain of `build_packet` calls; `none` if one of them fails.
pub build_packets : ℕ → List ℕ → List (List ℕ) → Option (List ℕ)
build_packets size packet [] = some packet
build_packets size packet (part ∷ parts) = elim (build_packet size packet part) [
  | none ↦ none
  | some packet' ↦ build_packets size packet' parts
]

written : Bool → String → Outcome (Unit {0})
written true message = ok tt
written false message = throw message

-- `if (write_exactly(fd, buffer, count) < 0) throw std::runtime_error(message);`
pub send : List ℕ → String → M (Unit {0})
unfolding written
send buffer message s = let (done, s') = write_exactly buffer s in (written done message, s')

-- `char packet[65536]`
abbrev pub packet_size : ℕ
packet_size = 65536

-- A packet built of parts and then written; one message for every failure.
pub send_packet : List (List ℕ) → String → M (Unit {0})
send_packet parts message s = elim (build_packets packet_size [] parts) [
  | none ↦ (throw message, s)
  | some packet ↦ send packet message s
]
