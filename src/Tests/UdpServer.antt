-- ===== src/Tests/UdpServer.antt =====
-- The UDP server with one direct proxy.
use mathlib.Core.Path.{subst}
use transproxify.Base.{
  ok-injective, ℕ, ◌≡◌, ◌≢◌, refl, List, [], ◌∷◌, ◌++◌, true, false, Option, none, some, arith,
  length, ltb, ◌==◌, ok,
}
use transproxify.Base.Order.{nat_ord, int_ord, option_ord, pair_ord}
use transproxify.Base.Map.{emplace}
use transproxify.Base.Int.{to_short}
use transproxify.Address.{SockAddr, Hostent, zero_address}
use transproxify.Settings.{ProxySettings, direct, udp}
use transproxify.Wire.{eof}
use transproxify.Udp.Proxy.{Descriptors, opened, new_direct_udp_proxy, direct_send_to_target}
use transproxify.UdpServer.{
  Server, Answers, make_room, new_proxy, send, evict_proxy, score_of, clean_proxies,
}
use transproxify.UdpServer.Invariant.{IsValid}
use transproxify.UdpServer.Creation.{IsSane, Grants, Creates, new_proxy-Creates}
use transproxify.UdpServer.Eviction.{Evicts, evict_proxy_lem}
use transproxify.UdpServer.Traffic.{Routes, send-Routes}
use transproxify.Udp.{ClientSocket}
use transproxify.Udp.Proxy.{UdpProxy, new_udp_proxy, send_to_target}
use transproxify.Udp.Proxy
use transproxify.UdpServer.{recv, set_object}
use transproxify.UdpServer.Invariant.{IsObject}
use transproxify.UdpServer.Echo.{recv-send_to_target}
use transproxify.UdpServer.Echo.Rounds.{Hands, round-Hands}
use transproxify.UdpServer.Loop.Reachable.{Reached, next}
use transproxify.UdpServer.Cleaning.{Cleans, clean_proxies_lem}
use transproxify.UdpServer.Loop.{arrive, Round, quiet, arrived, Loop, start, round, recv_all}
use transproxify.UdpServer.Loop.Reachable.{start-IsSane, begun, Honest, serves}

abbrev settings : ProxySettings
settings = record {
  proxy_protocol = direct;
  proxied_protocol = udp;
  username = [];
  password = [];
  proxy_address = zero_address;
}

-- 10.0.0.2:5353 and 192.0.2.1:53
abbrev client : SockAddr
client = record { sin_family = 2; sin_port = 59668; s_addr = 33554442; sin_zero = 0 }

abbrev target : SockAddr
target = record { sin_family = 2; sin_port = 13568; s_addr = 16908480; sin_zero = 0 }

abbrev unresolved : List ℕ → Option Hostent
unresolved name = none

-- The standard streams, before the server's socket 3.
abbrev standard : Descriptors
standard f = ltb f 3

abbrev outer : Descriptors
outer = opened (some 3) standard

abbrev answers : Answers
answers = record {
  for_direct = record { target_socket_fd = some 4; bound = true; connected = true };
  for_socks5 = record {
    proxy_socket_fd = none;
    connected = false;
    stream = record { inbound = eof; answers = []; sent = [] };
    relay_socket_fd = none;
    relay_connected = false;
  };
}

abbrev took : List ℕ → Option ℕ
took buffer = some (length buffer)

abbrev server : Server
server = (start settings 3 standard).server

granted : Grants answers (make_room 1000 server).descriptors
unfolding make_room
granted = (refl, tt, tt)

sends :
    (send unresolved answers took 1000 client target (1 ∷ 2 ∷ []) server).sent
    ≡ (some 4, 1 ∷ 2 ∷ []) ∷ []
unfolding send new_proxy make_room emplace nat_ord int_ord option_ord pair_ord to_short
    new_direct_udp_proxy direct_send_to_target
sends = refl

send-Routes_example :
    let s' = send unresolved answers took 1000 client target (1 ∷ 2 ∷ []) server in
    IsSane 1000 1000 outer s' × Routes client target took (1 ∷ 2 ∷ []) [] s'
send-Routes_example =
    send-Routes 1000 1000 outer unresolved answers took client target (1 ∷ 2 ∷ []) server
      (omega arith) (omega arith) (start-IsSane settings 1000 3 standard) granted

created :
    Creates 1000 1000 outer client target []
      (new_proxy unresolved answers 1000 client target server)
created =
    new_proxy-Creates 1000 1000 outer (omega arith) unresolved answers client target server
      (omega arith) (start-IsSane settings 1000 3 standard) refl granted

new_proxy-Creates_example :
    Creates 1000 1000 outer client target []
      (new_proxy unresolved answers 1000 client target server)
new_proxy-Creates_example =
    new_proxy-Creates 1000 1000 outer (omega arith) unresolved answers client target server
      (omega arith) (start-IsSane settings 1000 3 standard) refl granted

-- The server with its proxy.
abbrev serving : Server
serving = (new_proxy unresolved answers 1000 client target server).1

has_proxy : serving.proxies ≢ []
unfolding new_proxy make_room emplace new_direct_udp_proxy nat_ord int_ord option_ord pair_ord
    to_short
has_proxy e = cc

evict_proxy_lem_example : Evicts (score_of 1000 serving.objects) serving (evict_proxy 1000 serving)
evict_proxy_lem_example =
    let sane = created.0 in
    evict_proxy_lem 1000 1000 outer serving sane.valid sane.timely (omega arith) has_proxy

-- A round in which the first datagram comes in.
abbrev first_round : Round
first_round = record {
  now = 1007;
  ready = λ f. false;
  received = λ f. record { from = zero_address; payload = none };
  client_socket =
      λ f. record { opened = false; transparent = false; bound = false; sendto = λ n. n };
  arrival = arrived client (some target) (1 ∷ 2 ∷ []);
  answers = answers;
  sendto = took;
}

honest : Honest unresolved first_round (start settings 3 standard)
unfolding recv_all make_room
honest s e =
    subst (λ t. Grants answers (make_room 1007 t).descriptors) (ok-injective e) (refl, tt, tt)

serves_example :
    IsValid outer server
    × ((l' : Loop) × (round unresolved (some first_round) (start settings 3 standard) ≡ ok l')
        × IsValid outer l'.server)
serves_example =
    serves unresolved settings 1000 3 standard 1000 (start settings 3 standard) first_round begun
      (omega arith) (omega arith) honest

abbrev second : Loop
second = arrive unresolved first_round first_round.arrival (start settings 3 standard)

done : round unresolved (some first_round) (start settings 3 standard) ≡ ok second
unfolding round recv_all
done = refl

-- More than 300 seconds later the proxy has timed out.
clean_proxies_lem_example : Cleans 2000 serving (clean_proxies 2000 serving)
clean_proxies_lem_example = let sane = created.0 in clean_proxies_lem 2000 outer serving sane.valid

abbrev proxy : UdpProxy
proxy = new_udp_proxy 1000 client target (Proxy.direct (some 4))

proxy_known : IsObject serving 0 proxy
unfolding new_proxy make_room emplace new_direct_udp_proxy nat_ord int_ord option_ord pair_ord
    to_short
proxy_known = refl

was_sent : send_to_target proxy took (1 ∷ 2 ∷ []) ≡ ok (some (1 ∷ 2 ∷ []))
unfolding direct_send_to_target
was_sent = refl

abbrev to_the_client : ClientSocket
to_the_client = record { opened = true; transparent = true; bound = true; sendto = λ n. n }

recv-send_to_target_example :
    recv unresolved to_the_client
      (record { from = target; payload = some (1 ∷ 2 ∷ []) })
      1003
      4
      serving
    ≡ ok (record serving {
      objects = set_object 0 (some (record proxy { last_packet_time = 1003 })) serving.objects;
      handed =
          serving.handed
          ++ (record { source = target; destination = client; buffer = 1 ∷ 2 ∷ [] } ∷ []);
    })
recv-send_to_target_example =
    let sane = created.0 in
    recv-send_to_target unresolved to_the_client took outer serving 0 1003 4 proxy (1 ∷ 2 ∷ [])
      (1 ∷ 2 ∷ []) sane.valid proxy_known refl (omega arith) (omega arith)
      (record { opened = refl; transparent = refl; bound = refl; whole = refl }) was_sent

-- A round in which the answer comes in on the proxy's socket.
abbrev second_round : Round
second_round = record {
  now = 1008;
  ready = λ f. f == 4;
  received = λ f. record { from = target; payload = some (1 ∷ 2 ∷ []) };
  client_socket = λ f. to_the_client;
  arrival = quiet;
  answers = answers;
  sendto = took;
}

reached : Reached unresolved settings 1000 3 standard 1007 second
reached = next first_round second begun (omega arith) (omega arith) honest done

abbrev sender : UdpProxy
sender = new_udp_proxy 1007 client target (Proxy.direct (some 4))

sender_known : IsObject second.server 0 sender
unfolding arrive send new_proxy make_room emplace new_direct_udp_proxy nat_ord int_ord option_ord
    pair_ord to_short direct_send_to_target
sender_known = refl

sender_sent : send_to_target sender took (1 ∷ 2 ∷ []) ≡ ok (some (1 ∷ 2 ∷ []))
unfolding direct_send_to_target
sender_sent = refl

round-Hands_example :
    (l' : Loop) × (round unresolved (some second_round) second ≡ ok l')
    × Hands
        (record { source = target; destination = client; buffer = 1 ∷ 2 ∷ [] })
        second.server
        l'.server
round-Hands_example =
    round-Hands unresolved settings 1000 3 standard 1007 second second_round 0 4 sender took
      (1 ∷ 2 ∷ []) (1 ∷ 2 ∷ []) reached (omega arith) sender_known refl (omega arith) (omega arith)
      (record { opened = refl; transparent = refl; bound = refl; whole = refl }) sender_sent refl
      refl
