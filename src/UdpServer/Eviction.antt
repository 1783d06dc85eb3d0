-- ===== src/UdpServer/Eviction.antt =====
-- `evict_proxy` deletes the first proxy with the highest score.
use mathlib.Core.Path.{subst}
use transproxify.Base.{
  ℕ, ◌+◌, ◌^◌, ◌<◌, ◌≡◌, ◌≢◌, refl, sym, ap, ◌⊎◌, inl, inr, [], ◌∷◌, ◌++◌, Option, none, some,
  arith, All, Bool-cases, ltb→lt,
}
use transproxify.Base.Int.{ℤ, ltb_ℤ, ◌≤ℤ◌, ◌<ℤ◌}
use transproxify.Base.Map.{Map, Has}
use transproxify.Base.Order.{nat_ord, int_ord, option_ord, pair_ord}
use transproxify.Udp.Proxy.{Descriptors, UdpProxy, eviction_score}
use transproxify.Udp.Score.{Timely, eviction_score_bound}
use transproxify.UdpServer.Invariant.{IsObject, IsValid}
use transproxify.UdpServer.{
  Key, Server, evict_loop, int_min, score_of, victim, evict_proxy, delete_proxy,
}

module _ (score_at : ℕ → ℤ) where
  abbrev pub Lower : ℤ → Map Key ℕ → Type 0
  Lower score = All (λ e. score_at e.1 <ℤ score)

  abbrev pub NotHigher : ℤ → Map Key ℕ → Type 0
  NotHigher score = All (λ e. score_at e.1 ≤ℤ score)

  -- The best so far stays, or the first with the highest score is found.
  abbrev Picks : ℤ × Option ℕ → Map Key ℕ → ℤ × Option ℕ → Type 0
  Picks best m found =
      ((found ≡ best) × NotHigher best.0 m)
      ⊎ ((before : Map Key ℕ) × (k : Key) × (id : ℕ) × (after : Map Key ℕ) × (m
            ≡ before ++ ((k, id) ∷ after))
          × (found ≡ (score_at id, some id))
          × (best.0 <ℤ score_at id)
          × Lower (score_at id) before
          × NotHigher (score_at id) after)

  evict_loop-Picks :
      (best : ℤ × Option ℕ) (m : Map Key ℕ) → Picks best m (evict_loop score_at best m)
  unfolding evict_loop
  evict_loop-Picks best [] = inl (refl, tt)
  evict_loop-Picks best ((k, id) ∷ m) = elim (Bool-cases (ltb_ℤ best.0 (score_at id))) [
    | inl h ↦
        let up : best.0 <ℤ score_at id = ltb→lt _ _ h in
        rw h (elim (evict_loop-Picks (score_at id, some id) m) [
          | inl (e, rest) ↦ inr ([], k, id, m, refl, e, up, tt, rest)
          | inr (before, k', id', after, e, e', more, lower, rest) ↦ inr (
            (k, id) ∷ before,
            k',
            id',
            after,
            ap (λ l. (k, id) ∷ l) e,
            e',
            omega (arith, up, more),
            (more, lower),
            rest,
          )
        ])
    | inr h ↦
        let down : score_at id ≤ℤ best.0 = ground arith in
        rw h (elim (evict_loop-Picks best m) [
          | inl (e, rest) ↦ inl (e, (down, rest))
          | inr (before, k', id', after, e, e', more, lower, rest) ↦ inr (
            (k, id) ∷ before,
            k',
            id',
            after,
            ap (λ l. (k, id) ∷ l) e,
            e',
            more,
            (omega (arith, down, more), lower),
            rest,
          )
        ])
  ]

-- Every object is timely.
abbrev pub AllTimely : ℕ → ℕ → Server → Type 0
AllTimely since until s = (id : ℕ) (p : UdpProxy) → IsObject s id p → Timely since until p

-- The proxy that goes: the first of those with the highest score.
abbrev pub Evicts : (ℕ → ℤ) → Server → Server → Type 0
Evicts score_at s s' =
    (before : Map Key ℕ) × (k : Key) × (id : ℕ) × (after : Map Key ℕ) × (s.proxies
      ≡ before ++ ((k, id) ∷ after))
    × Lower score_at (score_at id) before
    × NotHigher score_at (score_at id) after
    × (s' ≡ delete_proxy id s)

module _ (since until : ℕ) (outer : Descriptors) (s : Server) (v : IsValid outer s)
    (timely : AllTimely since until s) (h : until < since + 2 ^ 31) where
  score_bound : (k : Key) (id : ℕ) → Has k id s.proxies → int_min <ℤ score_of until s.objects id
  score_bound k id has =
      let (p, ob, same) = v.registered k id has in
      rw (ob, score_of) (omega (arith, eviction_score_bound since until p (timely id p ob) h))

  not-NotHigher :
      (m : Map Key ℕ)
      → m ≢ []
      → ((k : Key) (id : ℕ) → Has k id m → Has k id s.proxies)
      → ¬ NotHigher (score_of until s.objects) int_min m
  not-NotHigher [] ne in_s low = ne refl
  not-NotHigher ((k, id) ∷ m) ne in_s low =
      omega (arith, low.0, score_bound k id (in_s k id (inl (refl, refl))))

  -- In a server that meets the invariant, has a proxy and has run for less than 2 ^ 31 seconds on a
  -- clock that does not go back, `evict_proxy` deletes the first of the proxies with the highest
  -- score: it is higher than the scores of all before it in the map, and those behind it are not
  -- higher.
  pub evict_proxy_lem : s.proxies ≢ [] → Evicts (score_of until s.objects) s (evict_proxy until s)
  unfolding evict_proxy victim
  evict_proxy_lem ne =
      let score_at = score_of until s.objects in
      elim (evict_loop-Picks score_at (int_min, none) s.proxies) [
        | inl (e, low) ↦ absurd (not-NotHigher s.proxies ne (λ k id has. has) low)
        | inr (before, k, id, after, e, found, more, lower, rest) ↦
            (before, k, id, after, e, lower, rest, rw (found, evict_proxy))
      ]

  Has-middle :
      (before : Map Key ℕ) (k : Key) (id : ℕ) (after : Map Key ℕ)
      → Has k id (before ++ ((k, id) ∷ after))
  Has-middle [] k id after = inl (refl, refl)
  Has-middle (e ∷ before) k id after = inr (Has-middle before k id after)

  below :
      (score_at : ℕ → ℤ) (score : ℤ) (k : Key) (i : ℕ) (m : Map Key ℕ)
      → NotHigher score_at score m
      → Has k i m
      → score_at i ≤ℤ score
  below score_at score k i [] low has = elim has [ ]
  below score_at score k i ((k', i') ∷ m) low (inl (_, e)) = rw (← e) (low.0)
  below score_at score k i ((k', i') ∷ m) low (inr has) = below score_at score k i m low.1 has

  highest :
      (score_at : ℕ → ℤ) (before : Map Key ℕ) (k' : Key) (id : ℕ) (after : Map Key ℕ)
      → Lower score_at (score_at id) before
      → NotHigher score_at (score_at id) after
      → (k : Key) (i : ℕ) → Has k i (before ++ ((k', id) ∷ after))
      → score_at i ≤ℤ score_at id
  highest score_at [] k' id after lower rest k i (inl (_, e)) = rw e (omega arith)
  highest score_at [] k' id after lower rest k i (inr has) =
      below score_at (score_at id) k i after rest has
  highest score_at ((j, x) ∷ before) k' id after lower rest k i (inl (_, e)) =
      rw (← e) (omega (arith, lower.0))
  highest score_at ((j, x) ∷ before) k' id after lower rest k i (inr has) =
      highest score_at before k' id after lower.1 rest k i has

  score_is :
      (id : ℕ) (p : UdpProxy)
      → IsObject s id p
      → score_of until s.objects id ≡ eviction_score until p
  score_is id p ob = rw (ob, score_of) refl

  -- It is an object of the server that goes, and none has a higher score.
  pub evicted_highest :
      s.proxies ≢ []
      → (id : ℕ) × (p : UdpProxy) × IsObject s id p
        × (evict_proxy until s ≡ delete_proxy id s)
        × ((k : Key) (i : ℕ) (q : UdpProxy)
            → Has k i s.proxies
            → IsObject s i q
            → eviction_score until q ≤ℤ eviction_score until p)
  evicted_highest ne =
      let (before, k, id, after, e, lower, rest, same) = evict_proxy_lem ne in
      let has : Has k id s.proxies =
        subst (λ m. Has k id m) (sym e) (Has-middle before k id after) in
      let (p, ob, key) = v.registered k id has in
      (
        id,
        p,
        ob,
        same,
        λ k' i q has' ob'.
            subst (λ x. x ≤ℤ eviction_score until p) (score_is i q ob')
              (subst (λ x. score_of until s.objects i ≤ℤ x) (score_is id p ob)
                (highest (score_of until s.objects) before k id after lower rest k' i
                  (subst (λ m. Has k' i m) e has'))),
      )

  pub evicted :
      s.proxies ≢ []
      → (id : ℕ) × (p : UdpProxy) × IsObject s id p × (evict_proxy until s ≡ delete_proxy id s)
  evicted ne = let (id, p, ob, same, most) = evicted_highest ne in (id, p, ob, same)
