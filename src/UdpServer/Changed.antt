-- ===== src/UdpServer/Changed.antt =====
-- What keeps the invariant of the server: the datagrams noted, and an object with a later time.
use transproxify.Base.{
  some-injective, ℕ, ◌≡◌, refl, sym, ap, ◌∙◌, inl, inr, List, some, ◌==◌, ==_iff, Bool-cases,
}
use transproxify.Base.Order.{nat_ord, int_ord, option_ord, pair_ord}
use transproxify.Base.Map.{find}
use transproxify.Udp.{ToClient}
use transproxify.Udp.Proxy.{Fd, Descriptors, UdpProxy, incoming}
use transproxify.Udp.Score.{Timely}
use transproxify.UdpServer.{Server, key, key_of, set_object}
use transproxify.UdpServer.Invariant.{IsObject}
use transproxify.UdpServer.Deletion.{set_object_ne}
use transproxify.UdpServer.Creation.{IsSane}

module _ (since until : ℕ) (outer : Descriptors) where
  -- The datagrams sent do not matter to it.
  pub sent-IsSane :
      (s : Server) (sent : List (Fd × List ℕ)) (handed : List ToClient)
      → IsSane since until outer s
      → IsSane since until outer (record s { sent = sent; handed = handed })
  sent-IsSane s sent handed v = record {
    valid = record {
      registered = v.valid.registered;
      alive = v.valid.alive;
      watched = v.valid.watched;
      heard = v.valid.heard;
      fresh = v.valid.fresh;
      limited = v.valid.limited;
      owned = v.valid.owned;
      accounted = v.valid.accounted;
      apart = v.valid.apart;
      kept = v.valid.kept;
    };
    timely = v.timely;
  }

  module _ (s : Server) (v : IsSane since until outer s) (id : ℕ) (p p' : UdpProxy)
      (e : IsObject s id p) (same_key : key_of p' ≡ key_of p) (same_upward : p'.upward ≡ p.upward)
      (timely : Timely since until p') where
    abbrev changed : Server
    changed = record s { objects = set_object id (some p') s.objects }

    either :
        (i : ℕ) (q : UdpProxy)
        → IsObject changed i q
        → (r : UdpProxy) × IsObject s i r
          × (key_of q ≡ key_of r)
          × (q.upward ≡ r.upward)
          × Timely since until q
    either i q h = elim (Bool-cases (i == id)) [
      | inl k ↦
          let is_p' : p' ≡ q = some-injective (rw k at h) in
          let is_id : i ≡ id = (==_iff i id).0 k in
          (p, rw is_id e, rw (← is_p') same_key, rw (← is_p') same_upward, rw (← is_p') timely)
      | inr k ↦ let ob : IsObject s i q = rw k at h in (q, ob, refl, refl, v.timely i q ob)
    ]

    still :
        (i : ℕ) (q : UdpProxy)
        → IsObject s i q
        → (r : UdpProxy) × IsObject changed i r × (key_of r ≡ key_of q) × (r.upward ≡ q.upward)
    still i q h = elim (Bool-cases (i == id)) [
      | inl k ↦
          let is_id : i ≡ id = (==_iff i id).0 k in
          let is_p : p ≡ q = some-injective (sym e ∙ ap s.objects (sym is_id) ∙ h) in
          (p', rw k, same_key ∙ ap key_of is_p, same_upward ∙ ap (λ r. r.upward) is_p)
      | inr k ↦ (q, rw k h, refl, refl)
    ]

    pub changed-IsSane : IsSane since until outer changed
    changed-IsSane = record {
      valid = record {
        registered = λ k i has.
            let (q, h, same) = v.valid.registered k i has in
            let (r, h', key, up) = still i q h in (r, h', key ∙ same);
        alive = λ i q h.
            let (r, h', key, up, t) = either i q h in
            ap (λ k. find k s.proxies) key ∙ v.valid.alive i r h';
        watched = λ fd i has.
            let (q, h, same) = v.valid.watched fd i has in
            let (r, h', key, up) = still i q h in (r, h', ap incoming up ∙ same);
        heard = λ i q f h fd.
            let (r, h', key, up, t) = either i q h in
            v.valid.heard i r f h' (ap incoming (sym up) ∙ fd);
        fresh = λ i le.
            set_object_ne id (some p') s.objects i
              (λ eq. cc (sym e ∙ sym (ap s.objects eq) ∙ v.valid.fresh i le))
            ∙ v.valid.fresh i le;
        limited = v.valid.limited;
        owned = λ i q f h o.
            let (r, h', key, up, t) = either i q h in v.valid.owned i r f h' (rw (← up) o);
        accounted = λ f h. elim (v.valid.accounted f h) [
          | inl o ↦ inl o
          | inr (i, q, ob, o) ↦ let (r, h', key, up) = still i q ob in inr (i, r, h', rw up o)
        ];
        apart = λ i j q r f h k o o'.
            let (q', hq, key, up, t) = either i q h in
            let (r', hr, key', up', t') = either j r k in
            v.valid.apart i j q' r' f hq hr (rw (← up) o) (rw (← up') o');
        kept = v.valid.kept;
      };
      timely = λ i q h. (either i q h).4;
    }
