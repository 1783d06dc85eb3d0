-- ===== src/UdpServer/Cleaning.antt =====
-- Where `clean_proxies` is defined.
use transproxify.Base.{
  some-injective, ℕ, ◌≡◌, refl, sym, ap, ◌∙◌, ◌⊎◌, inl, inr, [], ◌∷◌, true, false, Option, none,
  some, Bool-cases,
}
use transproxify.Base.Order.{nat_ord, int_ord, option_ord, pair_ord}
use transproxify.Base.Map.{Map, find, Has, Has-find, find-erase_self}
use transproxify.Udp.Proxy.{Descriptors, UdpProxy, timed_out}
use transproxify.UdpServer.{
  Server, Key, key_of, clean_entry, clean_loop, clean_proxies, delete_proxy,
}
use transproxify.UdpServer.Invariant.{IsObject, IsValid}
use transproxify.UdpServer.Deletion.{delete_proxy-eq}

-- Every proxy that is registered in a map has been heard of in time; or one has not.
abbrev InTime : ℕ → Server → Map Key ℕ → Type 0
InTime now s m =
    (k : Key) (id : ℕ) (p : UdpProxy) → Has k id m → IsObject s id p → timed_out now p ≡ false

abbrev Late : ℕ → Server → Type 0
Late now s = (id : ℕ) × (p : UdpProxy) × IsObject s id p × (timed_out now p ≡ true)

-- What `clean_proxies` comes to.
abbrev pub Cleans : ℕ → Server → Option (ℕ × Server) → Type 0
Cleans now s o =
    ((o ≡ some (0, s)) × ((id : ℕ) (p : UdpProxy) → IsObject s id p → timed_out now p ≡ false))
    ⊎ ((o ≡ none) × (id : ℕ) × (p : UdpProxy) × IsObject s id p × (timed_out now p ≡ true))

module _ (now : ℕ) (outer : Descriptors) (s : Server) (v : IsValid outer s) where
  erased :
      (k : Key) (id : ℕ) (p : UdpProxy)
      → IsObject s id p
      → key_of p ≡ k
      → find k (delete_proxy id s).proxies ≡ none
  erased k id p ob same =
      rw (delete_proxy-eq outer s v id p ob, ← same) (find-erase_self (key_of p) s.proxies)

  entry :
      (k : Key) (id : ℕ) (p : UdpProxy)
      → IsObject s id p
      → key_of p ≡ k
      → ((clean_entry now k id (0, s) ≡ some (0, s)) × (timed_out now p ≡ false))
        ⊎ ((clean_entry now k id (0, s) ≡ none) × (timed_out now p ≡ true))
  unfolding clean_entry
  entry k id p ob same =
      let known : find k s.proxies ≡ some id =
        ap (λ j. find j s.proxies) (sym same) ∙ v.alive id p ob in
      elim (Bool-cases (timed_out now p)) [
        | inl late ↦ inr (
          rw (known, clean_entry)
              (rw (ob, clean_entry)
                (rw (late, clean_entry) (rw (erased k id p ob same, clean_entry)))),
          late,
        )
        | inr early ↦
            inl (rw (known, clean_entry) (rw (ob, clean_entry) (rw (early, clean_entry))), early)
      ]

  loop :
      (m : Map Key ℕ)
      → ((k : Key) (id : ℕ) → Has k id m → Has k id s.proxies)
      → ((clean_loop now m (0, s) ≡ some (0, s)) × InTime now s m)
        ⊎ ((clean_loop now m (0, s) ≡ none) × Late now s)
  unfolding clean_loop
  loop [] within = inl (refl, λ k id p has. elim has [ ])
  loop ((k, id) ∷ m) within =
      let (p, ob, same) = v.registered k id (within k id (inl (refl, refl))) in
      elim (entry k id p ob same) [
        | inr (e, late) ↦ inr (rw (e, clean_loop), (id, p, ob, late))
        | inl (e, early) ↦ elim (loop m (λ j i has. within j i (inr has))) [
          | inr (e', late) ↦ inr (rw (e, clean_loop) e', late)
          | inl (e', rest) ↦ inl (
            rw (e, clean_loop) e',
            λ j i q has ob'. elim has [
              | inl (_, is_id) ↦
                  let is_p : p ≡ q = some-injective (sym ob ∙ ap s.objects is_id ∙ ob') in
                  rw (← is_p) early
              | inr has' ↦ rest j i q has' ob'
            ],
          )
        ]
      ]

  -- In a server that meets the invariant, either no registered proxy has timed out, and
  -- `clean_proxies` counts 0 and changes nothing; or one has, and the code is not defined.
  pub clean_proxies_lem : Cleans now s (clean_proxies now s)
  unfolding clean_proxies
  clean_proxies_lem = elim (loop s.proxies (λ k id has. has)) [
    | inl (e, early) ↦ inl (
      e,
      λ id p ob. early (key_of p) id p (Has-find (key_of p) id s.proxies (v.alive id p ob)) ob,
    )
    | inr (e, (id, p, ob, late)) ↦ inr (e, id, p, ob, late)
  ]
