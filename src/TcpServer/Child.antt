-- ===== src/TcpServer/Child.antt =====
-- The descriptors of the process of one connection.
use transproxify.Base.{
  ℕ, ◌≡◌, List, Bool, true, false, Option, none, some, arith, inl, inr, Bool-cases,
}
use transproxify.Address.{SockAddr, Hostent}
use transproxify.Settings.{ProxySettings}
use transproxify.Tcp.{Relay, Ended, running, finished, failing}
use transproxify.Udp.Proxy.{Fd, Descriptors, opened, closed}
use transproxify.Udp.Descriptors.{Fresh, closed-opened}
use transproxify.TcpServer.{
  ChildAnswers, Connection, working, exited, gone, address_or_exit, target_found, after_run,
  end_child, child,
}

-- How a process stands whose parent had the descriptors `before` in front of `accept`, and among
-- them the listening socket: it was not tied to its parent and has exited at once, with all that the
-- fork copied; or it has exited for want of an address, or after its proxy, with neither the
-- listening socket nor any of its own; or it relays, with two sockets of its own. The call that
-- shall reset the connection has found its descriptor open in none.
pub data Stands (before : Descriptors) (listening : ℕ) : Connection → Type 0 where
  orphaned :
      (fd : ℕ) (d : Descriptors)
      → ((f : ℕ) → d f ≡ opened (some fd) before f)
      → Stands before listening (gone d)
  lost :
      (d : Descriptors)
      → ((f : ℕ) → d f ≡ closed (some listening) before f)
      → Stands before listening (gone d)
  done :
      (d : Descriptors) (t : Ended × Relay)
      → ((f : ℕ) → d f ≡ closed (some listening) before f)
      → Stands before listening
          (record { fate = exited 0; descriptors = d; tunnel = some t; reset = false })
  relays :
      (fd : ℕ) (upstream : Fd) (d : Descriptors) (t : Ended × Relay)
      → ((f : ℕ) → d f ≡ opened upstream (opened (some fd) (closed (some listening) before)) f)
      → Stands before listening
          (record { fate = working; descriptors = d; tunnel = some t; reset = false })

pub opened-same :
    (fd : Fd) (d d' : Descriptors) (f : ℕ) → d f ≡ d' f → opened fd d f ≡ opened fd d' f
opened-same none d d' f h = h
opened-same (some g) d d' f h = ground arith

module _ (before now : Descriptors) (listening fd : ℕ)
    (same : (f : ℕ) → now f ≡ opened (some fd) before f) (fresh : before fd ≡ false)
    (held : before listening ≡ true) where
  -- Without the two sockets that are closed.
  without :
      (f : ℕ) → closed (some fd) (closed (some listening) now) f ≡ closed (some listening) before f
  without f = ground (arith, same f, fresh)

  apart :
      (f : ℕ) → closed (some listening) now f ≡ opened (some fd) (closed (some listening) before) f
  apart f = ground (arith, same f, fresh, held)

  over :
      (upstream : Fd)
      → Fresh upstream (closed (some listening) now)
      → (f : ℕ)
      → closed (some fd) (closed upstream (opened upstream (closed (some listening) now))) f
        ≡ closed (some listening) before f
  over upstream free f =
      ground (arith, without f, closed-opened upstream (closed (some listening) now) f free)

  -- The second `close` of the client's socket finds it closed.
  again :
      (upstream : Fd)
      → Fresh upstream (closed (some listening) now)
      → (f : ℕ)
      → closed
          (some fd)
          (closed (some fd) (closed upstream (opened upstream (closed (some listening) now))))
          f
        ≡ closed (some listening) before f
  again upstream free f =
      twice (closed upstream (opened upstream (closed (some listening) now))) (over upstream free f)
    where
      twice :
          (d : Descriptors)
          → closed (some fd) d f ≡ closed (some listening) before f
          → closed (some fd) (closed (some fd) d) f ≡ closed (some listening) before f
      twice d h = ground arith

  reset_lem : (d : Descriptors) → closed (some fd) d fd ≡ false
  reset_lem d = ground arith

  ended-Stands :
      (upstream : Fd) (t : Ended × Relay)
      → Fresh upstream (closed (some listening) now)
      → Stands before listening (end_child fd upstream (closed (some listening) now) t)
  unfolding end_child after_run
  ended-Stands upstream (running, r) free =
      relays fd upstream _ (running, r)
        λ f. opened-same upstream _ (opened (some fd) (closed (some listening) before)) f (apart f)
  ended-Stands upstream (finished, r) free =
      rw (reset_lem (closed upstream (opened upstream (closed (some listening) now))))
        (done _ (finished, r) λ f. again upstream free f)
  ended-Stands upstream (failing e, r) free =
      rw (reset_lem (closed upstream (opened upstream (closed (some listening) now))))
        (done _ (failing e, r) λ f. again upstream free f)

  address-Stands :
      (address : Option SockAddr) (rest : SockAddr → Connection)
      → ((a : SockAddr) → Stands before listening (rest a))
      → Stands before listening (address_or_exit fd address (closed (some listening) now) rest)
  unfolding address_or_exit
  address-Stands none rest h = lost _ without
  address-Stands (some a) rest h = h a

  -- On every path the process of a connection stands as `Stands` tells.
  pub child-Stands :
      (gethostbyname : List ℕ → Option Hostent) (inet_ntop : ℕ → List ℕ) (allow_direct : Bool)
      (settings : ProxySettings) (k : ChildAnswers)
      → Fresh k.upstream_fd (closed (some listening) now)
      → Stands before listening
          (child gethostbyname inet_ntop allow_direct settings listening fd k now)
  unfolding child
  child-Stands gethostbyname inet_ntop allow_direct settings k free = elim (Bool-cases k.tied) [
    | inr e ↦ rw e (orphaned fd now same)
    | inl e ↦ rw e (elim (Bool-cases k.parent_lives) [
      | inr l ↦ rw l (orphaned fd now same)
      | inl l ↦ rw l (
          address-Stands (target_found allow_direct k) _
            λ target. address-Stands k.peer _ λ client. ended-Stands k.upstream_fd _ free)
    ])
  ]
