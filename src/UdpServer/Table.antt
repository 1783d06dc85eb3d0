-- ===== src/UdpServer/Table.antt =====
-- The server as a table of translations: what it keeps for each pair of addresses. The numbers of
-- the objects, the order of the maps and the descriptors are forgotten.
pub mod Heard
pub mod Rounds
use transproxify.Base.{
  some-injective, arith, ℕ, ◌+◌, ◌^◌, ◌≤◌, ◌<◌, ◌≡◌, ◌≢◌, refl, sym, ap, ◌∙◌, ◌⊎◌, inl, inr, List,
  [], ◌∷◌, true, false, Option, none, some, Bool-cases, Option-cases, Outcome, ok, throw, ◌==◌,
  ==_iff,
}
use transproxify.Base.Order.{nat_ord, int_ord, option_ord, pair_ord}
use transproxify.Base.Map.{
  Map, find, Has, Has-find, erase, emplace, find-erase_self, find-erase_ne, find-emplace_self,
  find-emplace_ne,
}
use transproxify.Udp.Proxy.{Descriptors, UdpProxy}
use transproxify.UdpServer.{Server, Key, key_of, set_object, register, delete_proxy, refreshed}
use transproxify.UdpServer.Invariant.{IsObject, IsValid}
use transproxify.UdpServer.Deletion.{delete_proxy-eq, without, set_object_self, set_object_ne}

abbrev pub Table : Type 0
Table = Key → Option UdpProxy

object_of : Server → Option ℕ → Option UdpProxy
object_of s none = none
object_of s (some id) = s.objects id

-- The proxy that serves a pair of addresses.
unfoldable pub table : Server → Table
unfolding object_of
table s k = object_of s (find k s.proxies)

-- What may become of a table. All other pairs keep what they have.
abbrev pub Same : Table → Table → Type 0
Same t u = (k : Key) → u k ≡ t k

abbrev pub Gains : UdpProxy → Table → Table → Type 0
Gains p t u =
    (t (key_of p) ≡ none) × (u (key_of p) ≡ some p) × ((k : Key) → k ≢ key_of p → u k ≡ t k)

abbrev pub Loses : UdpProxy → Table → Table → Type 0
Loses p t u =
    (t (key_of p) ≡ some p) × (u (key_of p) ≡ none) × ((k : Key) → k ≢ key_of p → u k ≡ t k)

-- Where the maps agree at a pair, and the objects at what they find there, so do the tables.
agree :
    (s s' : Server) (k : Key)
    → find k s'.proxies ≡ find k s.proxies
    → ((i : ℕ) → find k s.proxies ≡ some i → s'.objects i ≡ s.objects i)
    → table s' k ≡ table s k
unfolding table object_of
agree s s' k e others = elim (Option-cases (find k s.proxies)) [
  | inl h ↦ rw (e, h) refl
  | inr (i, h) ↦ rw (e, h) (others i h)
]

module _ (outer : Descriptors) (s : Server) (v : IsValid outer s) where
  -- The table holds exactly the objects.
  pub table-object : (id : ℕ) (p : UdpProxy) → IsObject s id p → table s (key_of p) ≡ some p
  unfolding table object_of
  table-object id p ob = rw (v.alive id p ob) ob

  pub object-table :
      (k : Key) (p : UdpProxy)
      → table s k ≡ some p
      → (id : ℕ) × IsObject s id p × (find k s.proxies ≡ some id) × (key_of p ≡ k)
  unfolding table object_of
  object-table k p h = elim (Option-cases (find k s.proxies)) [
    | inl e ↦ absurd (cc (rw e at h))
    | inr (id, e) ↦
        let ob : IsObject s id p = rw e at h in
        let (q, ob', same) = v.registered k id (Has-find k id s.proxies e) in
        (id, ob, e, ap key_of (some-injective (sym ob ∙ ob')) ∙ same)
  ]

  -- The object of another pair has another number.
  elsewhere :
      (id i : ℕ) (p : UdpProxy) (k : Key)
      → IsObject s id p
      → k ≢ key_of p
      → find k s.proxies ≡ some i
      → i ≢ id
  elsewhere id i p k ob ne h eq =
      let (q, ob', same) = v.registered k i (Has-find k i s.proxies h) in
      ne (sym same ∙ ap key_of (some-injective (sym ob' ∙ ap s.objects eq ∙ ob)))

  pub delete_proxy-Loses :
      (id : ℕ) (p : UdpProxy) → IsObject s id p → Loses p (table s) (table (delete_proxy id s))
  unfolding table object_of
  delete_proxy-Loses id p ob = rw (delete_proxy-eq outer s v id p ob) (
    table-object id p ob,
    rw (find-erase_self (key_of p) s.proxies) refl,
    λ k ne.
        agree s (without id p s) k (find-erase_ne k (key_of p) s.proxies ne)
          λ i h. set_object_ne id none s.objects i (elsewhere id i p k ob ne h),
  )

  pub register-Gains :
      (p : UdpProxy) (d : Descriptors)
      → find (key_of p) s.proxies ≡ none
      → Gains p (table s) (table (register p d s))
  unfolding table object_of register
  register-Gains p d unknown = (
    rw unknown refl,
    rw (find-emplace_self (key_of p) s.next s.proxies unknown)
        (set_object_self s.next (some p) s.objects),
    λ k ne. agree s (register p d s) k (find-emplace_ne k (key_of p) s.next s.proxies ne) λ i h.
        set_object_ne s.next (some p) s.objects i λ eq.
          let (q, ob, _) = v.registered k i (Has-find k i s.proxies h) in
          cc (sym ob ∙ ap s.objects eq ∙ v.fresh s.next (omega arith)),
  )
