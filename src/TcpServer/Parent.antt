-- ===== src/TcpServer/Parent.antt =====
-- The descriptors of the listening process, and the processes it makes.
use transproxify.Base.{
  ℕ, suc, length, ◌≡◌, List, [], ◌∷◌, Bool, true, false, some, All, Outcome, ok, throw,
}
use transproxify.Udp.Proxy.{Descriptors, opened, closed}
use transproxify.Udp.Descriptors.{Fresh}
use transproxify.TcpServer.{Accepted, refused, unforked, forked, Listener}
use transproxify.TcpServer.Child.{Stands}

-- The kernel gives descriptors that are not open: to `accept` in the parent, which has the
-- descriptors `before`, and to `socket` in the child, which has closed the listening socket.
abbrev pub Honest : Descriptors → ℕ → Accepted → Type 0
Honest before listening refused = Unit
Honest before listening (unforked fd) = before fd ≡ false
Honest before listening (forked fd k) =
    (before fd ≡ false) × Fresh k.upstream_fd (closed (some listening) (opened (some fd) before))

-- The processes that the loop makes.
abbrev pub forks : List Accepted → ℕ
forks [] = 0
forks (refused ∷ accepted) = forks accepted
forks (unforked fd ∷ accepted) = forks accepted
forks (forked fd k ∷ accepted) = suc (forks accepted)

-- The listening process has the descriptors `before`, and has made n processes.
pub record Keeps (before : Descriptors) (listening n : ℕ) (s : Listener) : Type 0 where
  pub same_socket : s.listening_socket_fd ≡ listening
  pub same : (f : ℕ) → s.descriptors f ≡ before f
  pub stand : All (Stands before listening) s.children
  pub count : length s.children ≡ n

-- What `run` comes to. If the address is not free, it throws, with the descriptors as they were; if
-- it is, it does not throw, and has those and the listening socket.
abbrev pub Served : Bool → Descriptors → ℕ → ℕ → Outcome Listener × Descriptors → Type 0
Served false d listening n (o, d') =
    (o ≡ throw "could not bind to address and port") × ((f : ℕ) → d' f ≡ d f)
Served true d listening n (o, d') =
    (s : Listener) × (o ≡ ok s)
    × Keeps (opened (some listening) d) listening n s
    × ((f : ℕ) → d' f ≡ opened (some listening) d f)
