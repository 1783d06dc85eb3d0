-- ===== src/UdpServer/Deletion.antt =====
-- `delete_proxy` takes a proxy out of both maps and closes its descriptors.
use transproxify.Base.{
  some-injective, ℕ, ◌<◌, ◌≡◌, ◌≢◌, refl, sym, ap, ◌∙◌, ◌⊎◌, inl, inr, true, false, ◌||◌, Option,
  none, some, arith, length, ◌==◌, ==_iff, Bool-cases,
}
use mathlib.Core.Path.{subst}
use transproxify.Base.Order.{nat_ord, int_ord, option_ord, pair_ord}
use transproxify.Base.Map.{
  find, erase, Has, Has-erase, find-erase_ne, find-erase-none, length-erase, length-erase_lt,
}
use transproxify.Udp.Proxy.{Fd, Descriptors, UdpProxy, incoming_socket, destroyed}
use transproxify.Udp.Descriptors.{Owns, freed_iff, Holds-incoming}
use transproxify.UdpServer.{Server, Key, key_of, set_object, holds, release, delete_proxy}
use transproxify.UdpServer.Invariant.{IsObject, IsValid, Has-holds}

pub set_object_ne :
    (id : ℕ) (v : Option UdpProxy) (objects : ℕ → Option UdpProxy) (i : ℕ)
    → i ≢ id
    → set_object id v objects i ≡ objects i
set_object_ne id v objects i h = ground (arith, ==_iff i id)

pub set_object_self :
    (id : ℕ) (v : Option UdpProxy) (objects : ℕ → Option UdpProxy) → set_object id v objects id ≡ v
set_object_self id v objects = ground (arith, ==_iff id id)

-- The server after its proxy `p` with the number `id` is gone.
abbrev pub without : ℕ → UdpProxy → Server → Server
without id p s = record s {
  proxies = erase (key_of p) s.proxies;
  socket_to_proxy = erase (incoming_socket p) s.socket_to_proxy;
  objects = set_object id none s.objects;
  descriptors = destroyed p s.descriptors;
}

module _ (outer : Descriptors) (s : Server) (v : IsValid outer s) (id : ℕ) (p : UdpProxy)
    (e : IsObject s id p) where
  -- An object that is left is another one.
  other : (i : ℕ) (q : UdpProxy) → IsObject (without id p s) i q → (i ≢ id) × IsObject s i q
  other i q h = elim (Bool-cases (i == id)) [
    | inl k ↦ absurd (cc (sym (rw k at h)))
    | inr k ↦ (ground (arith, ==_iff i id), rw k at h)
  ]

  stays : (i : ℕ) (q : UdpProxy) → i ≢ id → IsObject s i q → IsObject (without id p s) i q
  stays i q n h = set_object_ne id none s.objects i n ∙ h

  key_ne : (i : ℕ) (q : UdpProxy) → i ≢ id → IsObject s i q → key_of q ≢ key_of p
  key_ne i q n h same =
      n (some-injective (sym (v.alive i q h) ∙ ap (λ k. find k s.proxies) same ∙ v.alive id p e))

  incoming_ne :
      (i : ℕ) (q : UdpProxy) (f : ℕ)
      → i ≢ id
      → IsObject s i q
      → incoming_socket q ≡ some f
      → some f ≢ incoming_socket p
  incoming_ne i q f n h fd same =
      n (
        v.apart i id q p f h e (Holds-incoming q.upward f fd)
          (Holds-incoming p.upward f (sym same)))

  object_unique : (q : UdpProxy) → IsObject s id q → p ≡ q
  object_unique q h = some-injective (sym e ∙ h)

  not-Owns : (i : ℕ) (q : UdpProxy) (f : ℕ) → i ≢ id → IsObject s i q → Owns q f → ¬ Owns p f
  not-Owns i q f n h o o' = n (v.apart i id q p f h e o o')

  without-registered :
      (k : Key) (i : ℕ)
      → Has k i (erase (key_of p) s.proxies)
      → (q : UdpProxy) × IsObject (without id p s) i q × (key_of q ≡ k)
  without-registered k i has =
      let (ne, has') = Has-erase (key_of p) k i s.proxies has in
      let (q, h, same) = v.registered k i has' in
      let n : i ≢ id =
        (λ eq. ne (ap key_of (object_unique q (sym (ap s.objects eq) ∙ h)) ∙ same)) in
      (q, stays i q n h, same)

  without-watched :
      (fd : Fd) (i : ℕ)
      → Has fd i (erase (incoming_socket p) s.socket_to_proxy)
      → (q : UdpProxy) × IsObject (without id p s) i q × (incoming_socket q ≡ fd)
  without-watched fd i has =
      let (ne, has') = Has-erase (incoming_socket p) fd i s.socket_to_proxy has in
      let (q, h, same) = v.watched fd i has' in
      let n : i ≢ id =
        (λ eq. ne (ap incoming_socket (object_unique q (sym (ap s.objects eq) ∙ h)) ∙ same)) in
      (q, stays i q n h, same)

  without-accounted :
      (f : ℕ)
      → destroyed p s.descriptors f ≡ true
      → (outer f ≡ true) ⊎ ((i : ℕ) × (q : UdpProxy) × IsObject (without id p s) i q × Owns q f)
  without-accounted f h =
      let (still, ne) = (freed_iff p.upward s.descriptors f).0 h in
      elim (v.accounted f still) [
        | inl o ↦ inl o
        | inr (i, q, ob, o) ↦
            let n : i ≢ id = (λ eq. ne (rw (object_unique q (sym (ap s.objects eq) ∙ ob)) o)) in
            inr (i, q, stays i q n ob, o)
      ]

  without-IsValid : IsValid outer (without id p s)
  without-IsValid = record {
    registered = without-registered;
    alive = λ i q h.
        let (n, h') = other i q h in
        find-erase_ne (key_of q) (key_of p) s.proxies (key_ne i q n h') ∙ v.alive i q h';
    watched = without-watched;
    heard = λ i q f h fd.
        let (n, h') = other i q h in
        find-erase_ne (some f) (incoming_socket p) s.socket_to_proxy (incoming_ne i q f n h' fd)
        ∙ v.heard i q f h' fd;
    fresh = λ i h. ground (arith, v.fresh i h);
    limited = omega (arith, length-erase (key_of p) s.proxies, v.limited);
    owned = λ i q f h o.
        let (n, h') = other i q h in
        let (open_fd, inner) = v.owned i q f h' o in
        ((freed_iff p.upward s.descriptors f).1 (not-Owns i q f n h' o) ∙ open_fd, inner);
    accounted = without-accounted;
    apart = λ i j q r f h k. v.apart i j q r f (other i q h).1 (other j r k).1;
    kept = λ f o.
        (freed_iff p.upward s.descriptors f).1 (λ o'. cc (v.owned id p f e o').1) ∙ v.kept f o;
  }

  -- Neither map holds the number any more.
  gone :
      holds id (erase (key_of p) s.proxies)
        || holds id (erase (incoming_socket p) s.socket_to_proxy)
      ≡ false
  gone = elim (Bool-cases (holds id (erase (key_of p) s.proxies))) [
    | inl h ↦
        let (k, has) = Has-holds id (erase (key_of p) s.proxies) h in
        let (q, ob, same) = without-registered k id has in absurd ((other id q ob).0 refl)
    | inr h ↦ rw h (elim (Bool-cases (holds id (erase (incoming_socket p) s.socket_to_proxy))) [
      | inl h' ↦
          let (k, has) = Has-holds id (erase (incoming_socket p) s.socket_to_proxy) h' in
          let (q, ob, same) = without-watched k id has in absurd ((other id q ob).0 refl)
      | inr h' ↦ h'
    ])
  ]

  pub delete_proxy-eq : delete_proxy id s ≡ without id p s
  unfolding delete_proxy release
  delete_proxy-eq = rw (e, delete_proxy) (rw (e, release) (rw gone))

  -- Deleting a proxy keeps the invariant and makes room in the map.
  pub delete_proxy-IsValid :
      IsValid outer (delete_proxy id s) × (length (delete_proxy id s).proxies < length s.proxies)
  delete_proxy-IsValid =
      rw delete_proxy-eq (without-IsValid, length-erase_lt (key_of p) id s.proxies (v.alive id p e))

  -- It brings no object and no key.
  pub delete_proxy-object :
      (i : ℕ) (q : UdpProxy) → IsObject (delete_proxy id s) i q → IsObject s i q
  delete_proxy-object i q h = (other i q (subst (λ t. IsObject t i q) delete_proxy-eq h)).1

  pub delete_proxy-find :
      (k : Key) → find k s.proxies ≡ none → find k (delete_proxy id s).proxies ≡ none
  delete_proxy-find k h = rw delete_proxy-eq (find-erase-none k (key_of p) s.proxies h)

  pub delete_proxy-sent : (delete_proxy id s).sent ≡ s.sent
  delete_proxy-sent = ap (λ t. t.sent) delete_proxy-eq
