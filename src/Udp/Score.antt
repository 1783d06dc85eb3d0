-- ===== src/Udp/Score.antt =====
-- Times and scores, while the clock does not go back and the program has run for less than 2 ^ 31
-- seconds.
use transproxify.Base.{
  throw, refl, ℕ, ◌+◌, ◌-◌, ◌^◌, ◌≤◌, ◌<◌, ◌≡◌, ◌⊎◌, inl, inr, true, min, arith, leb, if◌then◌else◌,
  Bool-cases, Outcome, ok, ◌↔◌,
}
use transproxify.Base.Int.{pos, negsuc, ◌-ℤ◌, sub_ℕ, to_int, ltb_ℤ, ◌≤ℤ◌}
use transproxify.Udp.{ignored, to_client, ClientSocket, Down, hand_down, send_to_client}
use transproxify.Address.{SockAddr}
use transproxify.Udp.Proxy.{Upward, new_udp_proxy, UdpProxy, eviction_score, timed_out}

-- The times of a proxy, between the start of the program and now.
pub record Timely (since until : ℕ) (p : UdpProxy) : Type 0 where
  pub started : since ≤ p.start_time
  pub heard_later : p.start_time ≤ p.last_packet_time
  pub heard_before : p.last_packet_time ≤ until

to_int_small : (n : ℕ) → n < 2 ^ 31 → to_int (pos n) ≡ pos n
unfolding to_int
to_int_small n h = ground arith

to_int_negative : (n : ℕ) → n < 2 ^ 31 → to_int (negsuc n) ≡ negsuc n
unfolding to_int
to_int_negative n h = ground arith

minus : (a b : ℕ) → a ≤ b → pos b -ℤ pos a ≡ pos (b - a)
unfolding ◌-ℤ◌
minus a b h = ground arith

minus_any : (a b : ℕ) → pos b -ℤ pos a ≡ sub_ℕ b a
unfolding ◌-ℤ◌
minus_any a b = ground arith

to_int-sub_ℕ : (a b : ℕ) → a < 2 ^ 31 → b ≤ 10 → to_int (sub_ℕ a b) ≡ sub_ℕ a b
to_int-sub_ℕ a b h k = elim (Bool-cases (leb b a)) [
  | inl e ↦ rw e (to_int_small (a - b) (omega arith))
  | inr e ↦ rw e (to_int_negative (b - a - 1) (omega arith))
]

limit : (n : ℕ) → (if ltb_ℤ (pos 10) (pos n) then pos 10 else pos n) ≡ pos (min 10 n)
limit n = ground arith

-- The score is the time since the last packet, less up to ten seconds of activity.
pub eviction_score-eq :
    (since until : ℕ) (p : UdpProxy)
    → Timely since until p
    → until < since + 2 ^ 31
    → eviction_score until p
      ≡ sub_ℕ (until - p.last_packet_time) (min 10 (p.last_packet_time - p.start_time))
unfolding eviction_score
eviction_score-eq since until p t h = rw (minus p.start_time p.last_packet_time t.heard_later) (
    rw
      (to_int_small (p.last_packet_time - p.start_time)
        (omega (arith, h, t.heard_before, t.started)))
      (rw (limit (p.last_packet_time - p.start_time), minus p.last_packet_time until t.heard_before)
        (rw minus_any
          (to_int-sub_ℕ _ _ (omega (arith, h, t.started, t.heard_later)) (omega arith)))))

-- It is higher than the score that `evict_proxy` begins with.
pub eviction_score_bound :
    (since until : ℕ) (p : UdpProxy)
    → Timely since until p
    → until < since + 2 ^ 31
    → negsuc 9 ≤ℤ eviction_score until p
eviction_score_bound since until p t h = rw (eviction_score-eq since until p t h) (ground arith)

-- `timed_out` tells whether more than five minutes have gone since the last packet.
pub timed_out_iff :
    (since until : ℕ) (p : UdpProxy)
    → Timely since until p
    → (timed_out until p ≡ true) ↔ (p.last_packet_time + 300 < until)
unfolding timed_out
timed_out_iff since until p t =
    rw (minus p.last_packet_time until t.heard_before) (ground (arith, t.heard_before))

pub new-Timely :
    (since now : ℕ) (client target : SockAddr) (upward : Upward)
    → since ≤ now
    → Timely since now (new_udp_proxy now client target upward)
new-Timely since now client target upward h = record {
  started = h;
  heard_later = omega arith;
  heard_before = omega arith;
}

-- `send_to_client` sets the time to now or leaves it.
pub hand_down_time :
    (k : ClientSocket) (now : ℕ) (down : Outcome Down) (last time : ℕ)
    → hand_down k now down last ≡ ok time
    → (time ≡ now) ⊎ (time ≡ last)
unfolding hand_down send_to_client
hand_down_time k now down last time h = ground arith

-- The same datagram handed down at the same time once more leaves the time as it is.
pub hand_down_again :
    (k : ClientSocket) (now : ℕ) (down : Outcome Down) (last time : ℕ)
    → hand_down k now down last ≡ ok time
    → hand_down k now down time ≡ ok time
unfolding hand_down send_to_client
hand_down_again k now (throw e) last time h = absurd (cc h)
hand_down_again k now (ok ignored) last time h = refl
hand_down_again k now (ok (to_client offset len)) last time h = ground (arith, h)
