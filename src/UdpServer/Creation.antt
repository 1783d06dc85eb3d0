-- ===== src/UdpServer/Creation.antt =====
-- `new_proxy` stays within the limit and keeps the invariant, whether the constructor throws or not.
use mathlib.Core.Path.{subst, fun_ext}
use transproxify.Base.{
  ℕ, ◌+◌, ◌^◌, ◌≤◌, ◌<◌, ◌≡◌, ◌≢◌, refl, sym, ap, ◌∙◌, inl, inr, List, [], true, Option, none, some,
  arith, length, leb, Bool-cases, Outcome, ok, throw,
}
use transproxify.Base.Order.{nat_ord, int_ord, option_ord, pair_ord}
use transproxify.Base.Map.{find, find-emplace_self, emplace}
use transproxify.Address.{SockAddr, Hostent}
use transproxify.Settings.{ProxySettings, ProxyProtocol, direct, http, socks4, socks5}
use transproxify.Udp.Proxy.{Fd, Descriptors, UdpProxy, opened}
use transproxify.Udp.Descriptors.{
  Fresh, Makes, new_direct_udp_proxy-Makes, new_socks5_udp_proxy-Makes,
}
use transproxify.Udp.Score.{new-Timely}
use transproxify.UdpServer.{
  Server, Key, key, key_of, Answers, make_room, registered, construct, new_proxy, udp_proxy_limit,
}
use transproxify.UdpServer.Invariant.{IsValid}
use transproxify.UdpServer.Deletion.{
  delete_proxy-IsValid, delete_proxy-object, delete_proxy-find, delete_proxy-sent,
}
use transproxify.UdpServer.Registration.{register-IsValid, either}
use transproxify.UdpServer.Eviction.{AllTimely, evicted}

-- The invariant, with the times.
pub record IsSane (since until : ℕ) (outer : Descriptors) (s : Server) : Type 0 where
  pub valid : IsValid outer s
  pub timely : AllTimely since until s

-- What the kernel gives for new sockets.
abbrev pub Grants : Answers → Descriptors → Type 0
Grants k d =
    Fresh k.for_direct.target_socket_fd d
    × Fresh k.for_socks5.proxy_socket_fd d
    × Fresh k.for_socks5.relay_socket_fd (opened k.for_socks5.proxy_socket_fd d)

-- What becomes of the server: it keeps the invariant, has sent no more, and a new proxy is found
-- under its key; after an exception there is none.
abbrev pub Creates :
    ℕ → ℕ → Descriptors → SockAddr → SockAddr → List (Fd × List ℕ) → Outcome ℕ × Server → Type 0
Creates since until outer client target sent (o, s) =
    IsSane since until outer s × (s.sent ≡ sent) × elim o [
      | throw e ↦ find (key client target) s.proxies ≡ none
      | ok id ↦ find (key client target) s.proxies ≡ some id
    ]

pub not_full : {n : ℕ} → n ≡ 0 → ¬ (leb udp_proxy_limit n ≡ true)
not_full e h = ground arith

module _ (since until : ℕ) (outer : Descriptors) (h : until < since + 2 ^ 31) where
  -- Making room keeps the invariant, and what was not known stays unknown.
  pub make_room-IsSane :
      (s : Server)
      → IsSane since until outer s
      → IsSane since until outer (make_room until s)
        × (length (make_room until s).proxies < udp_proxy_limit)
        × ((k : Key) → find k s.proxies ≡ none → find k (make_room until s).proxies ≡ none)
        × ((make_room until s).sent ≡ s.sent)
  unfolding make_room
  make_room-IsSane s v = elim (Bool-cases (leb udp_proxy_limit (length s.proxies))) [
    | inl full ↦
        let some_proxy : s.proxies ≢ [] = (λ e. not_full (ap length e) full) in
        let (id, p, ob, same) = evicted since until outer s v.valid v.timely h some_proxy in
        let gone = delete_proxy-IsValid outer s v.valid id p ob in
        rw (full, same)
          (
            record {
              valid = gone.0;
              timely = λ i q o. v.timely i q (delete_proxy-object outer s v.valid id p ob i q o);
            },
            omega (arith, gone.1, v.valid.limited),
            delete_proxy-find outer s v.valid id p ob,
            delete_proxy-sent outer s v.valid id p ob,
          )
    | inr room ↦ rw room (v, ground arith, (λ k e. e), refl)
  ]

  pub construct-Makes :
      (gethostbyname : List ℕ → Option Hostent) (protocol : ProxyProtocol)
      (settings : ProxySettings) (k : Answers) (client target : SockAddr) (d : Descriptors)
      → Grants k d
      → Makes until client target d
          (construct gethostbyname protocol settings k until client target d)
  construct-Makes gethostbyname direct settings k client target d g =
      new_direct_udp_proxy-Makes k.for_direct until client target d g.0
  construct-Makes gethostbyname socks5 settings k client target d g =
      new_socks5_udp_proxy-Makes gethostbyname settings k.for_socks5 until client target d g.1 g.2
  construct-Makes gethostbyname http settings k client target d g = λ f. refl
  construct-Makes gethostbyname socks4 settings k client target d g = λ f. refl

  registered-Creates :
      (client target : SockAddr) (s : Server) (made : Outcome UdpProxy × Descriptors)
      → since ≤ until
      → IsSane since until outer s
      → find (key client target) s.proxies ≡ none
      → length s.proxies < udp_proxy_limit
      → Makes until client target s.descriptors made
      → Creates since until outer client target s.sent (registered made s)
  unfolding registered
  registered-Creates client target s (throw e, d) le v unknown room same = (
    record {
      valid =
          subst (λ d. IsValid outer (record s { descriptors = d })) (sym (fun_ext same)) v.valid;
      timely = v.timely;
    },
    refl,
    unknown,
  )
  registered-Creates client target s (ok p, d) le v unknown room (fields, gains) =
      let same : key_of p ≡ key client target = ap key_of fields in
      let unknown' : find (key_of p) s.proxies ≡ none = rw same unknown in
      (
        record {
          valid = register-IsValid outer s v.valid p d unknown' gains room;
          timely = λ i q o. elim (either outer s v.valid p d unknown' gains i q o) [
            | inl (e, is_p) ↦ rw (← is_p, fields) (new-Timely since until client target p.upward le)
            | inr ob ↦ v.timely i q ob
          ];
        },
        refl,
        subst (λ k. find k (emplace (key_of p) s.next s.proxies) ≡ some s.next) same
            (find-emplace_self (key_of p) s.next s.proxies unknown'),
      )

  -- For a client and a target that have no proxy, on a clock that does not go back, in less than
  -- 2 ^ 31 seconds, and with descriptors from the kernel that are not open, `new_proxy` keeps the
  -- invariant with its limit of 256 proxies, and sends nothing. Either the constructor succeeds and
  -- the new proxy is found under its key, or it throws and there is no such proxy; the open
  -- descriptors are accounted for in both cases.
  pub new_proxy-Creates :
      (gethostbyname : List ℕ → Option Hostent) (k : Answers) (client target : SockAddr)
      (s : Server)
      → since ≤ until
      → IsSane since until outer s
      → find (key client target) s.proxies ≡ none
      → Grants k (make_room until s).descriptors
      → Creates since until outer client target s.sent
          (new_proxy gethostbyname k until client target s)
  unfolding new_proxy
  new_proxy-Creates gethostbyname k client target s le v unknown g =
      let (v', room, still, quiet) = make_room-IsSane s v in
      let s' = make_room until s in
      let (sane, unsent, found) =
        registered-Creates client target s' _ le v' (still (key client target) unknown) room (
          construct-Makes gethostbyname s'.settings.proxy_protocol s'.settings k client target
            s'.descriptors g) in
      (sane, unsent ∙ quiet, found)
