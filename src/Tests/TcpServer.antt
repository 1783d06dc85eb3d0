-- ===== src/Tests/TcpServer.antt =====
-- The TCP server with a connection through a SOCKS4 proxy.
use transproxify.Base.{ℕ, ◌≡◌, refl, List, [], ◌∷◌, codes, map, true, false, none, some, arith, ltb}
use transproxify.Settings.{ProxySettings, socks4, tcp}
use transproxify.Address.{zero_address}
use transproxify.Socks4.Connect
use transproxify.Tcp.{Ended, Relay}
use transproxify.Udp.Proxy.{Descriptors}
use transproxify.TcpServer.{ChildAnswers, exited, Accepted, refused, unforked, forked, child}
use transproxify.TcpServer.Tunnel.{Works, Delivered, by_socks4, child-Delivered}
use transproxify.Tests.Socks.{target, unresolved, granting}
use transproxify.Tests.Tcp.{schedule, talking}

abbrev settings : ProxySettings
settings = record {
  proxy_protocol = socks4;
  proxied_protocol = tcp;
  username = codes "joe";
  password = [];
  proxy_address = zero_address;
}

-- The text of no address is needed here.
abbrev no_text : ℕ → List ℕ
no_text address = []

-- The standard streams.
abbrev standard : Descriptors
standard f = ltb f 3

-- The socket to the proxy gets the number that the listening socket had.
abbrev answers : ChildAnswers
answers = record {
  tied = true;
  parent_lives = true;
  original_target = some target;
  own_address = none;
  peer = some zero_address;
  upstream_fd = some 3;
  connected = true;
  polls = map some schedule;
  client = talking;
  upstream = granting;
}

abbrev accepted : List Accepted
accepted = refused ∷ unforked 4 ∷ forked 4 answers ∷ []

works : Works answers schedule 3
works = record {
  tied = refl;
  parent_lives = refl;
  has_socket = refl;
  connected = refl;
  polled = refl;
  client_good = (refl, tt);
  upstream_good = (refl, tt);
}

child-Delivered_example :
    let c = child unresolved no_text false settings 3 4 answers standard in
    (c.fate ≡ exited 0)
    × ((t : Ended × Relay) × (c.tunnel ≡ some t)
        × Delivered talking granting (Connect.request settings target) (72 ∷ []) t)
child-Delivered_example =
    child-Delivered unresolved no_text settings answers schedule 3 works (omega arith) false 3 4
      standard zero_address target (Connect.request settings target) (72 ∷ []) refl refl
      (by_socks4 0 0 0 0 0 0 (72 ∷ []) refl (omega arith)) (omega arith)
