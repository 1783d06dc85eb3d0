-- ===== src/Tests/Udp.antt =====
-- The datagrams of the relay on concrete data.
use transproxify.Base.{
  ℕ, ◌-◌, ◌≡◌, refl, List, [], ◌∷◌, codes, arith, Option, none, some, length, drop, true, ok, take,
  ltb, if◌then◌else◌,
}
use transproxify.Address.{SockAddr, Hostent, same_address}
use transproxify.Util.{size_mod}
use transproxify.Udp.{
  to_client, at, port_at, socks5_check_socket, socks5_send_to_target, ClientSocket, hand_down,
  handed_down,
}
use transproxify.Udp.Datagram.{datagram, socks5_send_to_target_lem, socks5_check_socket-datagram}
use transproxify.Udp.Bounds.{Rest, socks5_check_socket-Rest, truncated_counts}

-- 192.0.2.1:53 and 192.0.2.1:13568
abbrev target : SockAddr
target = record { sin_family = 2; sin_port = 13568; s_addr = 16908480; sin_zero = 0 }

abbrev even_target : SockAddr
even_target = record { sin_family = 2; sin_port = 53; s_addr = 16908480; sin_zero = 0 }

abbrev relay : SockAddr
relay = record { sin_family = 2; sin_port = 14340; s_addr = 150994954; sin_zero = 0 }

abbrev unresolved : List ℕ → Option Hostent
unresolved name = none

socks5_send_to_target_lem_example :
    socks5_send_to_target (λ packet. some (length packet)) target (codes "query")
    ≡ ok (some (0 ∷ 0 ∷ 0 ∷ 1 ∷ 192 ∷ 0 ∷ 2 ∷ 1 ∷ 0 ∷ 53 ∷ codes "query"))
socks5_send_to_target_lem_example =
    socks5_send_to_target_lem (λ packet. some (length packet)) target (codes "query") refl

reply_checked :
    (socks5_check_socket unresolved relay 7 target 7
        (record { from = relay; payload = some (datagram target (codes "reply")) })
      ≡ ok (to_client 10 5))
    × (drop 10 (datagram target (codes "reply")) ≡ codes "reply")
reply_checked =
    socks5_check_socket-datagram unresolved relay target 7 (codes "reply") (omega arith)
      (omega arith)

abbrev reply : List ℕ
reply = datagram target (codes "reply")

socks5_check_socket-Rest_example :
    (◌≡◌ {A = ℕ} 7 7)
    × (same_address relay relay ≡ true)
    × (at reply 2 ≡ 0)
    × (port_at reply 8 ≡ 13568)
    × Rest reply 10 5
socks5_check_socket-Rest_example =
    socks5_check_socket-Rest unresolved relay target 7 7 relay reply 10 5 (omega arith)
      reply_checked.0

-- The kernel refuses a datagram that is too long with -1.
abbrev kernel : ClientSocket
kernel = record {
  opened = true;
  transparent = true;
  bound = true;
  sendto = λ len. if ltb 65507 len then size_mod - 1 else len;
}

truncated_counts_example :
    let payload : Option (List ℕ) = some (take 9 (datagram even_target [])) in
    let down =
      socks5_check_socket unresolved relay 7 even_target 7
        (record { from = relay; payload = payload }) in
    (hand_down kernel 900 down 100 ≡ ok 900)
    × (handed_down kernel target even_target payload down ≡ [])
truncated_counts_example =
    truncated_counts unresolved kernel target relay even_target 7 900 100 (omega arith)
      (omega arith) refl refl refl refl
