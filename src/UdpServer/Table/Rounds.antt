-- ===== src/UdpServer/Table/Rounds.antt =====
-- What each operation of the server, and each round of its loop, does to its table.
use transproxify.Base.{
  ℕ, ◌≤◌, ◌<◌, ◌≡◌, List, [], ◌∷◌, Option, none, some, length, Outcome, ok, throw,
}
use transproxify.Base.Order.{nat_ord, int_ord, option_ord, pair_ord}
use transproxify.Address.{SockAddr, Hostent}
use transproxify.Udp.Proxy.{Descriptors, UdpProxy, new_udp_proxy, eviction_score}
use transproxify.UdpServer.{Server, Key, construct, key, make_room}
use transproxify.UdpServer.Loop.{
  Arrival, quiet, broken, arrived, Round, Loop, descriptors_of, recv_all,
}
use transproxify.UdpServer.Table.{Table, table, Same, Gains, Loses}
use transproxify.UdpServer.Table.Heard.{mapped}
use transproxify.Base.{◌⊎◌}
use transproxify.Base.Int.{◌≤ℤ◌}

-- At the limit of 256 a proxy goes than which none has a higher score.
abbrev pub Room : ℕ → ℕ → Table → Table → Type 0
Room now n t u =
    ((n < 256) × Same t u)
    ⊎ ((256 ≤ n)
        × (p : UdpProxy) × Loses p t u
        × ((k : Key) (q : UdpProxy) → t k ≡ some q → eviction_score now q ≤ℤ eviction_score now p))

-- The pair gets what its constructor has made, if that has not thrown.
abbrev pub Filled : ℕ → SockAddr → SockAddr → Outcome UdpProxy → Table → Table → Type 0
Filled now client target (throw e) t u = Same t u
Filled now client target (ok p) t u = (p ≡ new_udp_proxy now client target p.upward) × Gains p t u

-- A datagram of a client: nothing changes for a pair that has a proxy; else there is made room, and
-- the constructor is called.
abbrev pub Serves :
    (List ℕ → Option Hostent) → Round → SockAddr → SockAddr → Server → Table → Type 0
Serves gethostbyname r client target s u =
    ((p : UdpProxy) × (table s (key client target) ≡ some p) × Same (table s) u)
    ⊎ ((table s (key client target) ≡ none)
        × (room : Table) × Room r.now (length s.proxies) (table s) room
        × Filled r.now client target
            (construct gethostbyname s.settings.proxy_protocol s.settings r.answers r.now client
              target (make_room r.now s).descriptors).0
            room u)

-- What comes in on the server's own socket.
abbrev pub Arrives : (List ℕ → Option Hostent) → Round → Arrival → Loop → Table → Type 0
Arrives gethostbyname r quiet l u = Same (table l.server) u
Arrives gethostbyname r broken l u = Same (table l.server) u
Arrives gethostbyname r (arrived source destination []) l u = Same (table l.server) u
Arrives gethostbyname r (arrived source none (b ∷ buffer)) l u =
    Serves gethostbyname r source l.target_address l.server u
Arrives gethostbyname r (arrived source (some target) (b ∷ buffer)) l u =
    Serves gethostbyname r source target l.server u

-- What a round does to the table, in its two parts.
abbrev pub Translates : (List ℕ → Option Hostent) → Round → Loop → Loop → Type 0
Translates gethostbyname r l l' =
    (s : Server) × (recv_all gethostbyname r (descriptors_of l.server.socket_to_proxy) l.server
      ≡ ok s)
    × ((k : Key) → table s k ≡ mapped gethostbyname r (table l.server k))
    × Arrives gethostbyname r r.arrival (record l { server = s }) (table l'.server)
