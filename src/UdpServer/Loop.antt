-- ===== src/UdpServer/Loop.antt =====
-- `UdpServer::run`, over the answers of `poll`.
pub mod Reachable
use transproxify.Base.{
  ℕ, String, List, [], ◌∷◌, Bool, true, false, Option, none, some, is_empty, if◌then◌else◌, Outcome,
  ok, throw, ◌>>=◌,
}
use transproxify.Base.Map.{Map}
use transproxify.Address.{SockAddr, Hostent, zero_address}
use transproxify.Settings.{ProxySettings}
use transproxify.Udp.{Received, ClientSocket}
use transproxify.Udp.Proxy.{Fd, Descriptors, opened}
use transproxify.UdpServer.{Server, Answers, send, recv}

-- What `recvmsg` gives on the server's socket, if `poll` reports it: the source, the destination
-- that a control message tells, and the bytes; or an error.
pub data Arrival : Type 0 where
  quiet broken : Arrival
  arrived : SockAddr → Option SockAddr → List ℕ → Arrival

-- One round: the time, what `poll` reports of each socket and what is received there, the server's
-- socket, and what the kernel answers while the data are sent on.
pub record Round : Type 0 where
  pub now : ℕ
  pub ready : ℕ → Bool
  pub received : ℕ → Received
  pub client_socket : ℕ → ClientSocket
  pub arrival : Arrival
  pub answers : Answers
  pub sendto : List ℕ → Option ℕ

-- The server, and `targetAddress`, which outlives the rounds.
pub record Loop : Type 0 where
  pub server : Server
  pub target_address : SockAddr

-- `fds`: the keys of the map as the round begins.
abbrev pub descriptors_of : Map Fd ℕ → List Fd
descriptors_of [] = []
descriptors_of ((fd, id) ∷ m) = fd ∷ descriptors_of m

module _ (gethostbyname : List ℕ → Option Hostent) where
  -- `poll` ignores the descriptor -1.
  unfoldable pub recv_ready : Round → Fd → Server → Outcome Server
  recv_ready r none s = ok s
  recv_ready r (some fd) s =
      if r.ready fd
      then recv gethostbyname (r.client_socket fd) (r.received fd) r.now fd s
      else ok s

  unfoldable pub recv_all : Round → List Fd → Server → Outcome Server
  unfolding recv_ready
  recv_all r [] s = ok s
  recv_all r (fd ∷ fds) s = recv_ready r fd s >>= recv_all r fds

  -- The datagram on the server's socket. An empty one is taken for an error.
  unfoldable pub arrive : Round → Arrival → Loop → Loop
  arrive r quiet l = l
  arrive r broken l = l
  arrive r (arrived source destination buffer) l =
      let target : SockAddr = elim destination [
        | none ↦ l.target_address
        | some address ↦ address
      ] in
      if is_empty buffer then l else record {
        server = send gethostbyname r.answers r.sendto r.now source target buffer l.server;
        target_address = target;
      }

  -- The body of the loop; `none` is the result -1 of `poll`.
  unfoldable pub round : Option Round → Loop → Outcome Loop
  unfolding recv_all arrive
  round none l = throw "poll error whilst proxying"
  round (some r) l = do
    server ← recv_all r (descriptors_of l.server.socket_to_proxy) l.server
    ok (arrive r r.arrival (record l { server = server }))

  -- The loop, as long as the answers go.
  unfoldable pub rounds : List (Option Round) → Loop → Outcome Loop
  unfolding round
  rounds [] l = ok l
  rounds (r ∷ rs) l = round r l >>= rounds rs

-- What comes before the loop, on the descriptor of the server's socket.
pub record BindAnswers : Type 0 where
  pub bind_socket_fd : Fd
  pub transparent : Bool
  pub origin : Bool
  pub bound : Bool

abbrev pub start : ProxySettings → ℕ → Descriptors → Loop
start settings fd d = record {
  server = record {
    settings = settings;
    proxies = [];
    socket_to_proxy = [];
    objects = λ id. none;
    next = 0;
    descriptors = opened (some fd) d;
    sent = [];
    handed = [];
  };
  target_address = zero_address;
}

-- Up to the loop: the server's socket, opened and bound.
unfoldable pub set_up : BindAnswers → ProxySettings → Descriptors → Outcome Loop
set_up k settings d = elim (k.bind_socket_fd) [
  | none ↦ throw "could not open server socket"
  | some fd ↦
      if k.transparent
      then (if k.origin
          then (if k.bound
              then ok (start settings fd d)
              else throw "could not bind to address and port")
          else throw "could not set IP_RECVORIGDSTADDR")
      else throw "could not set IP_TRANSPARENT"
]

-- `UdpServer::run`, as long as the answers go.
unfoldable pub run :
    (List ℕ → Option Hostent)
    → BindAnswers
    → List (Option Round)
    → ProxySettings
    → Descriptors
    → Outcome Loop
unfolding set_up rounds
run gethostbyname k rs settings d = set_up k settings d >>= rounds gethostbyname rs
