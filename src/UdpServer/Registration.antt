-- ===== src/UdpServer/Registration.antt =====
-- A new proxy is registered in both maps, whatever socket the kernel gives it.
use transproxify.Base.{
  some-injective, ℕ, ◌<◌, ◌≡◌, ◌≢◌, sym, ap, ◌∙◌, ◌⊎◌, inl, inr, true, false, none, some, arith,
  length, ◌==◌, ==_iff, Bool-cases, Option-cases,
}
use transproxify.Base.Order.{nat_ord, int_ord, option_ord, pair_ord}
use transproxify.Base.Map.{
  find, Has, Has-find, Has-emplace, find-emplace_self, find-emplace_ne, length-emplace,
}
use transproxify.Udp.Proxy.{Fd, Descriptors, UdpProxy, incoming_socket}
use transproxify.Udp.Descriptors.{Owns, Gains, Holds-incoming}
use transproxify.UdpServer.{Server, Key, key_of, register, udp_proxy_limit}
use transproxify.UdpServer.Invariant.{IsObject, IsValid}
use transproxify.UdpServer.Deletion.{set_object_self, set_object_ne}

module _ (outer : Descriptors) (s : Server) (v : IsValid outer s) (p : UdpProxy) (d : Descriptors)
    (unknown : find (key_of p) s.proxies ≡ none)
    (gains : (f : ℕ) → Gains p.upward s.descriptors d f) where
  abbrev pub s' : Server
  s' = register p d s

  old : (i : ℕ) (q : UdpProxy) → IsObject s i q → i ≢ s.next
  old i q h e = cc (sym h ∙ ap s.objects e ∙ v.fresh s.next (omega arith))

  stays : (i : ℕ) (q : UdpProxy) → IsObject s i q → IsObject s' i q
  unfolding register
  stays i q h = set_object_ne s.next (some p) s.objects i (old i q h) ∙ h

  new : IsObject s' s.next p
  unfolding register
  new = set_object_self s.next (some p) s.objects

  pub either : (i : ℕ) (q : UdpProxy) → IsObject s' i q → ((s.next ≡ i) × (p ≡ q)) ⊎ IsObject s i q
  unfolding register
  either i q h = elim (Bool-cases (i == s.next)) [
    | inl k ↦ inl (sym ((==_iff i s.next).0 k), some-injective (rw k at h))
    | inr k ↦ inr (rw k at h)
  ]

  -- What the new proxy owns was not open.
  not-Owns : (i : ℕ) (q : UdpProxy) (f : ℕ) → IsObject s i q → Owns q f → ¬ Owns p f
  not-Owns i q f h o o' = cc (sym (v.owned i q f h o).0 ∙ ((gains f).2 o').1)

  key_ne : (i : ℕ) (q : UdpProxy) → IsObject s i q → key_of q ≢ key_of p
  key_ne i q h same = cc (sym (v.alive i q h) ∙ ap (λ k. find k s.proxies) same ∙ unknown)

  unheard : (f : ℕ) → incoming_socket p ≡ some f → find (some f) s.socket_to_proxy ≡ none
  unheard f e = elim (Option-cases (find (some f) s.socket_to_proxy)) [
    | inl h ↦ h
    | inr (i, h) ↦
        let (q, ob, fd) = v.watched (some f) i (Has-find (some f) i s.socket_to_proxy h) in
        absurd (not-Owns i q f ob (Holds-incoming q.upward f fd) (Holds-incoming p.upward f e))
  ]

  register-registered :
      (k : Key) (i : ℕ) → Has k i s'.proxies → (q : UdpProxy) × IsObject s' i q × (key_of q ≡ k)
  unfolding register
  register-registered k i has = elim (Has-emplace (key_of p) k s.next i s.proxies has) [
    | inl (same, e) ↦ (p, rw (← e) new, same)
    | inr has' ↦ let (q, ob, same) = v.registered k i has' in (q, stays i q ob, same)
  ]

  register-watched :
      (fd : Fd) (i : ℕ)
      → Has fd i s'.socket_to_proxy
      → (q : UdpProxy) × IsObject s' i q × (incoming_socket q ≡ fd)
  unfolding register
  register-watched fd i has =
      elim (Has-emplace (incoming_socket p) fd s.next i s.socket_to_proxy has) [
        | inl (same, e) ↦ (p, rw (← e) new, same)
        | inr has' ↦ let (q, ob, same) = v.watched fd i has' in (q, stays i q ob, same)
      ]

  register-alive : (i : ℕ) (q : UdpProxy) → IsObject s' i q → find (key_of q) s'.proxies ≡ some i
  unfolding register
  register-alive i q h = elim (either i q h) [
    | inl (e, same) ↦ rw (← same, ← e) (find-emplace_self (key_of p) s.next s.proxies unknown)
    | inr ob ↦
        find-emplace_ne (key_of q) (key_of p) s.next s.proxies (key_ne i q ob) ∙ v.alive i q ob
  ]

  register-heard :
      (i : ℕ) (q : UdpProxy) (f : ℕ)
      → IsObject s' i q
      → incoming_socket q ≡ some f
      → find (some f) s'.socket_to_proxy ≡ some i
  unfolding register
  register-heard i q f h fd = elim (either i q h) [
    | inl (e, same) ↦
        let fd' : incoming_socket p ≡ some f = ap incoming_socket same ∙ fd in
        rw (← e, fd') (find-emplace_self (some f) s.next s.socket_to_proxy (unheard f fd'))
    | inr ob ↦
        find-emplace_ne (some f) (incoming_socket p) s.next s.socket_to_proxy (λ same.
          not-Owns i q f ob (Holds-incoming q.upward f fd) (Holds-incoming p.upward f (sym same)))
        ∙ v.heard i q f ob fd
  ]

  register-owned :
      (i : ℕ) (q : UdpProxy) (f : ℕ) → IsObject s' i q → Owns q f → (d f ≡ true) × (outer f ≡ false)
  register-owned i q f h o = elim (either i q h) [
    | inl (e, same) ↦ let (now, before) = (gains f).2 (rw same o) in (now, ground (arith, v.kept f))
    | inr ob ↦ let (was, inner) = v.owned i q f ob o in ((gains f).1 was, inner)
  ]

  register-accounted :
      (f : ℕ)
      → d f ≡ true
      → (outer f ≡ true) ⊎ ((i : ℕ) × (q : UdpProxy) × IsObject s' i q × Owns q f)
  register-accounted f h = elim ((gains f).0 h) [
    | inl was ↦ elim (v.accounted f was) [
      | inl o ↦ inl o
      | inr (i, q, ob, o) ↦ inr (i, q, stays i q ob, o)
    ]
    | inr o ↦ inr (s.next, p, new, o)
  ]

  register-apart :
      (i j : ℕ) (q r : UdpProxy) (f : ℕ)
      → IsObject s' i q
      → IsObject s' j r
      → Owns q f
      → Owns r f
      → i ≡ j
  register-apart i j q r f h k o o' = elim (either i q h) [
    | inl (e, same) ↦ elim (either j r k) [
      | inl (e', same') ↦ sym e ∙ e'
      | inr ob ↦ absurd (not-Owns j r f ob o' (rw same o))
    ]
    | inr ob ↦ elim (either j r k) [
      | inl (e', same') ↦ absurd (not-Owns i q f ob o (rw same' o'))
      | inr ob' ↦ v.apart i j q r f ob ob' o o'
    ]
  ]

  pub register-IsValid : length s.proxies < udp_proxy_limit → IsValid outer (register p d s)
  unfolding register
  register-IsValid room = record {
    registered = register-registered;
    alive = register-alive;
    watched = register-watched;
    heard = register-heard;
    fresh = λ i h.
        set_object_ne s.next (some p) s.objects i (λ e. omega (arith, e, h))
        ∙ v.fresh i (omega arith);
    limited = omega (arith, length-emplace (key_of p) s.next s.proxies);
    owned = register-owned;
    accounted = register-accounted;
    apart = register-apart;
    kept = λ f o. (gains f).1 (v.kept f o);
  }
