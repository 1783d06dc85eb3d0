-- ===== src/UdpServer.antt =====
-- UdpServer.hpp. The shared pointers to the proxies are numbers: an object goes when neither map
-- holds its number any more. What the kernel answers is an input, as is the time.
pub mod Loop
pub mod Invariant
pub mod Deletion
pub mod Registration
pub mod Eviction
pub mod Creation
pub mod Changed
pub mod Traffic
pub mod Cleaning
pub mod Handed
pub mod Echo
pub mod Table
use transproxify.Base.{
  ℕ, suc, String, List, [], ◌∷◌, ◌++◌, ◌-◌, Bool, true, false, ◌||◌, ◌&&◌, Option, none, some,
  length, leb, ◌^◌, ◌==◌, is_empty, map, if◌then◌else◌, Outcome, ok, throw, ◌>>=◌, ◌>>◌,
}
use transproxify.Base.Int.{ℤ, negsuc, ltb_ℤ, to_short}
use transproxify.Base.Order.{nat_ord, int_ord, option_ord, pair_ord}
use transproxify.Base.Map.{Map, find, emplace, erase}
use transproxify.Address.{SockAddr, Hostent}
use transproxify.Settings.{ProxySettings, ProxyProtocol, direct, http, socks4, socks5}
use transproxify.Udp.{Received, Down, ClientSocket, ToClient, hand_down, handed_down}
use transproxify.Udp.Proxy.{
  Fd, Descriptors, UdpProxy, DirectAnswers, Socks5Answers, eviction_score, timed_out,
  incoming_socket, new_direct_udp_proxy, new_socks5_udp_proxy, check_socket, destroyed,
  send_to_target,
}

-- UDP_PROXY_LIMIT
abbrev pub udp_proxy_limit : ℕ
udp_proxy_limit = 256

-- `std::tuple<unsigned long, short, unsigned long, short>`
abbrev pub Key : Type 0
Key = (ℕ × ℤ) × (ℕ × ℤ)

abbrev pub key : SockAddr → SockAddr → Key
key client target =
    ((client.s_addr, to_short client.sin_port), (target.s_addr, to_short target.sin_port))

abbrev pub key_of : UdpProxy → Key
key_of p = key p.client_address p.target_address

-- The server: its two maps, the objects that exist, by their numbers, the number of the next one,
-- the descriptors of the process, the datagrams sent upwards, each with its socket, and those
-- handed down to clients.
pub record Server : Type 0 where
  pub settings : ProxySettings
  pub proxies : Map Key ℕ
  pub socket_to_proxy : Map Fd ℕ
  pub objects : ℕ → Option UdpProxy
  pub next : ℕ
  pub descriptors : Descriptors
  pub sent : List (Fd × List ℕ)
  pub handed : List ToClient

abbrev pub set_object : ℕ → Option UdpProxy → (ℕ → Option UdpProxy) → ℕ → Option UdpProxy
set_object id p objects i = if i == id then p else objects i

-- INT_MIN
abbrev pub int_min : ℤ
int_min = negsuc (2 ^ 31 - 1)

-- The score of the object with a number; every number in a map has an object.
abbrev pub score_of : ℕ → (ℕ → Option UdpProxy) → ℕ → ℤ
score_of now objects id = elim (objects id) [ none ↦ int_min | some p ↦ eviction_score now p ]

-- The loop of `evict_proxy`, over the score and the victim so far.
abbrev pub better : (ℕ → ℤ) → ℕ → ℤ × Option ℕ → ℤ × Option ℕ
better score_at id best = if ltb_ℤ best.0 (score_at id) then (score_at id, some id) else best

unfoldable pub evict_loop : (ℕ → ℤ) → ℤ × Option ℕ → Map Key ℕ → ℤ × Option ℕ
evict_loop score_at best [] = best
evict_loop score_at best ((k, id) ∷ m) = evict_loop score_at (better score_at id best) m

unfoldable pub victim : ℕ → Server → Option ℕ
unfolding evict_loop
victim now s = (evict_loop (score_of now s.objects) (int_min, none) s.proxies).1

-- Whether a map holds a number.
abbrev pub holds {ℓ} : {K : Type ℓ} → ℕ → Map K ℕ → Bool
holds id [] = false
holds id ((k, i) ∷ m) = i == id || holds id m

-- A shared pointer goes: the object is destroyed if it was the last one.
release : ℕ → Server → Server
release id s = elim (s.objects id) [
  | none ↦ s
  | some p ↦ if holds id s.proxies || holds id s.socket_to_proxy then s else record s {
    objects = set_object id none s.objects;
    descriptors = destroyed p s.descriptors;
  }
]

-- `delete_proxy`, and the end of the pointer that it was given.
unfoldable pub delete_proxy : ℕ → Server → Server
unfolding release
delete_proxy id s = elim (s.objects id) [
  | none ↦ s
  | some p ↦ release id (record s {
    proxies = erase (key_of p) s.proxies;
    socket_to_proxy = erase (incoming_socket p) s.socket_to_proxy;
  })
]

-- `evict_proxy`
unfoldable pub evict_proxy : ℕ → Server → Server
unfolding victim delete_proxy
evict_proxy now s = elim (victim now s) [ none ↦ s | some id ↦ delete_proxy id s ]

-- The body of `clean_proxies` for one entry of the map, if an earlier round has not erased it. Once
-- `delete_proxy` has erased the entry that the iterator stands on, the code goes on from that
-- iterator, which is undefined: `none`.
clean_entry : ℕ → Key → ℕ → ℕ × Server → Option (ℕ × Server)
unfolding delete_proxy
clean_entry now k id (count, s) = elim (find k s.proxies) [
  | none ↦ some (count, s)
  | some _ ↦ elim (s.objects id) [
    | none ↦ none
    | some p ↦
        let s' = delete_proxy id s in
        let deleted : Option (ℕ × Server) = elim (find k s'.proxies) [
          | none ↦ none
          | some _ ↦ some (suc count, s')
        ] in
        if timed_out now p then deleted else some (count, s)
  ]
]

clean_loop : ℕ → Map Key ℕ → ℕ × Server → Option (ℕ × Server)
unfolding clean_entry
clean_loop now [] done = some done
clean_loop now ((k, id) ∷ m) done = elim (clean_entry now k id done) [
  | none ↦ none
  | some done' ↦ clean_loop now m done'
]

-- `clean_proxies`: the count and the server, if the code is defined.
unfoldable pub clean_proxies : ℕ → Server → Option (ℕ × Server)
unfolding clean_loop
clean_proxies now s = clean_loop now s.proxies (0, s)

-- What the kernel answers while a proxy is made.
pub record Answers : Type 0 where
  pub for_direct : DirectAnswers
  pub for_socks5 : Socks5Answers

-- The new proxy is registered in both maps.
unfoldable pub register : UdpProxy → Descriptors → Server → Server
unfolding emplace
register p d s = record s {
  proxies = emplace (key_of p) s.next s.proxies;
  socket_to_proxy = emplace (incoming_socket p) s.next s.socket_to_proxy;
  objects = set_object s.next (some p) s.objects;
  next = suc s.next;
  descriptors = d;
}

registered : Outcome UdpProxy × Descriptors → Server → Outcome ℕ × Server
unfolding register
registered (throw e, d) s = (throw e, record s { descriptors = d })
registered (ok p, d) s = (ok s.next, register p d s)

-- At the limit one proxy is evicted.
unfoldable pub make_room : ℕ → Server → Server
unfolding evict_proxy
make_room now s =
    let evicted = evict_proxy now s in if leb udp_proxy_limit (length s.proxies) then evicted else s

-- What was sent; an exception is caught in `send`, and a message written.
noted : Fd → Outcome (Option (List ℕ)) → Server → Server
noted fd (throw e) s = s
noted fd (ok none) s = s
noted fd (ok (some packet)) s = record s { sent = s.sent ++ ((fd, packet) ∷ []) }

-- `proxy->send_to_target`
unfoldable pub transmit : (List ℕ → Option ℕ) → List ℕ → ℕ → Server → Server
unfolding noted
transmit sendto buffer id s = elim (s.objects id) [
  | none ↦ s
  | some p ↦ noted (incoming_socket p) (send_to_target p sendto buffer) s
]

send_new : (List ℕ → Option ℕ) → List ℕ → Outcome ℕ × Server → Server
unfolding transmit
send_new sendto buffer (throw e, s) = s
send_new sendto buffer (ok id, s) = transmit sendto buffer id s

-- The object after `check_socket`; an exception is caught, and a message written.
abbrev pub refreshed : Outcome ℕ → ℕ → UdpProxy → Server → Server
refreshed (throw e) id p s = s
refreshed (ok time) id p s = record s {
  objects = set_object id (some (record p { last_packet_time = time })) s.objects;
}

-- The datagrams that go to a client are noted.
abbrev pub handing : List ToClient → Server → Server
handing sent_down s = record s { handed = s.handed ++ sent_down }

module _ (gethostbyname : List ℕ → Option Hostent) where
  -- The switch on the protocol of the proxy.
  abbrev pub construct :
      ProxyProtocol
      → ProxySettings
      → Answers
      → ℕ
      → SockAddr
      → SockAddr
      → Descriptors
      → Outcome UdpProxy × Descriptors
  construct direct settings k now client target d =
      new_direct_udp_proxy k.for_direct now client target d
  construct socks5 settings k now client target d =
      new_socks5_udp_proxy gethostbyname settings k.for_socks5 now client target d
  construct http settings k now client target d = (throw "invalid proxy protocol", d)
  construct socks4 settings k now client target d = (throw "invalid proxy protocol", d)

  -- `new_proxy`
  unfoldable pub new_proxy : Answers → ℕ → SockAddr → SockAddr → Server → Outcome ℕ × Server
  unfolding registered
  new_proxy k now client target s =
      let s' = make_room now s in
      registered
        (construct s'.settings.proxy_protocol s'.settings k now client target s'.descriptors) s'

  -- `send`
  unfoldable pub send :
      Answers → (List ℕ → Option ℕ) → ℕ → SockAddr → SockAddr → List ℕ → Server → Server
  unfolding new_proxy transmit send_new
  send k sendto now source destination buffer s = elim (find (key source destination) s.proxies) [
    | none ↦ send_new sendto buffer (new_proxy k now source destination s)
    | some id ↦ transmit sendto buffer id s
  ]

  -- `recv`
  unfoldable pub recv : ClientSocket → Received → ℕ → ℕ → Server → Outcome Server
  recv k r now fd s = elim (find (some fd) s.socket_to_proxy) [
    | none ↦ throw "attempt to use non-proxy socket"
    | some id ↦ elim (s.objects id) [
      | none ↦ ok s
      | some p ↦
          let down = check_socket gethostbyname p fd r in
          let sent_down = handed_down k p.client_address p.target_address r.payload down in
          ok (refreshed (hand_down k now down p.last_packet_time) id p (handing sent_down s))
    ]
  ]
