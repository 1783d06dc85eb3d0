-- ===== src/Upstream/Packets.antt =====
-- A packet built of parts and then sent.
use mathlib.Core.List.{flatten}
use mathlib.Core.Path.{subst}
use transproxify.Base.{
  ℕ, ◌≤◌, ◌<◌, ◌≡◌, ap, ◌∙◌, inl, inr, String, List, [], ◌∷◌, ◌++◌, leb→le, le→leb, none, some,
  arith, length, leb, if◌then◌else◌, append-nil, append_assoc, length-append, Bool-cases,
}
use transproxify.Util.{build_packet, size_mod}
use transproxify.Util.Writing.{build_packet_lem}
use transproxify.Upstream.{build_packets, packet_size, send_packet}
use transproxify.Upstream.Refines.{Refines, send_t, fail_t, send-Refines, fail-Refines}

pub build_packets-eq :
    (size : ℕ) (packet : List ℕ) (parts : List (List ℕ))
    → length (packet ++ flatten parts) < size_mod
    → length packet ≤ size
    → build_packets size packet parts ≡ (
        if leb (length (packet ++ flatten parts)) size
        then some (packet ++ flatten parts)
        else none)
unfolding build_packets flatten
build_packets-eq size packet [] small fits = rw append-nil (rw (le→leb (length packet) size fits))
build_packets-eq size packet (part ∷ parts) small fits =
    let whole = append_assoc packet part (flatten parts) in
    let total = length-append (packet ++ part) (flatten parts) in
    let least = length-append packet part in
    let grow = build_packet_lem size packet part (omega (arith, ap length whole, total, least)) in
    elim (Bool-cases (leb (length (packet ++ part)) size)) [
      | inl k ↦
          let grown : build_packet size packet part ≡ some (packet ++ part) = grow ∙ rw k in
          rw (grown, build_packets)
            (rw (← whole) (
              build_packets-eq size (packet ++ part) parts (omega (arith, ap length whole))
                (leb→le _ _ k)))
      | inr k ↦
          let full : build_packet size packet part ≡ none = grow ∙ rw k in
          rw (full, build_packets, ← whole) (ground (arith, total))
    ]

-- A packet is sent whole if its parts fit into the buffer, and else nothing is sent.
pub send_packet-Refines :
    (parts : List (List ℕ)) (e : String) (packet : List ℕ)
    → flatten parts ≡ packet
    → length packet < size_mod
    → Refines
        (send_packet parts e)
        (λ p. if leb (length packet) packet_size then send_t packet p else fail_t e p)
unfolding send_packet
send_packet-Refines parts e packet whole small = record {
  ending = λ s.
      let built = build_packets-eq packet_size [] parts (rw whole small) (omega arith) in
      rw (built, send_packet, whole)
        (elim (Bool-cases (leb (length packet) packet_size)) [
          | inl k ↦ rw k ((send-Refines packet e).ending s)
          | inr k ↦ rw k
        ]);
  shows = λ s w.
      let built = build_packets-eq packet_size [] parts (rw whole small) (omega arith) in
      rw (built, send_packet, whole)
        (elim (Bool-cases (leb (length packet) packet_size)) [
          | inl k ↦ rw k ((send-Refines packet e).shows s w)
          | inr k ↦ rw k ((fail-Refines e).shows s w)
        ]);
}

pub send_small-Refines :
    (parts : List (List ℕ)) (e : String) (packet : List ℕ)
    → flatten parts ≡ packet
    → length packet ≤ packet_size
    → Refines (send_packet parts e) (send_t packet)
send_small-Refines parts e packet whole fits =
    subst (λ b. Refines (send_packet parts e) (λ p. if b then send_t packet p else fail_t e p))
      (le→leb (length packet) packet_size fits)
      (send_packet-Refines parts e packet whole (omega arith))
