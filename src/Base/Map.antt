-- ===== src/Base/Map.antt =====
-- `std::map`: an association list in the order of its keys.
use Prim.Native.Nat.Ordering.{lt, eq}
use transproxify.Base.{
  suc, ◌≤◌, ◌<◌, ◌≡◌, ◌≢◌, refl, List, [], ◌∷◌, Option, none, some, arith, length, Option-cases,
  ◌⊎◌, inl, inr,
}
use transproxify.Base.Order.{Ord}

abbrev pub Map {ℓ κ} : Type ℓ → Type κ → Type (ℓ ⊔ κ)
Map K V = List (K × V)

module _ {ℓ κ} {K : Type ℓ} {V : Type κ} ⦃o : Ord K⦄ where
  abbrev pub find : K → Map K V → Option V
  find k [] = none
  find k ((j, v) ∷ m) = elim (o.cmp k j) [ eq ↦ some v | _ ↦ find k m ]

  -- A new key goes before the first key that is greater.
  abbrev pub place : K → V → Map K V → Map K V
  place k v [] = (k, v) ∷ []
  place k v ((j, w) ∷ m) = elim (o.cmp k j) [ lt ↦ (k, v) ∷ (j, w) ∷ m | _ ↦ (j, w) ∷ place k v m ]

  -- `emplace` leaves the map as it is if it has the key.
  unfoldable pub emplace : K → V → Map K V → Map K V
  emplace k v m = elim (find k m) [ some w ↦ m | none ↦ place k v m ]

  abbrev pub erase : K → Map K V → Map K V
  erase k [] = []
  erase k ((j, v) ∷ m) = elim (o.cmp k j) [ eq ↦ erase k m | _ ↦ (j, v) ∷ erase k m ]

  find-place_self : (k : K) (v : V) (m : Map K V) → find k m ≡ none → find k (place k v m) ≡ some v
  find-place_self k v [] h = ground (arith, o.cmp_refl k)
  find-place_self k v ((j, w) ∷ m) h = ground (arith, o.cmp_refl k, find-place_self k v m)

  find-place_ne : (i k : K) (v : V) (m : Map K V) → i ≢ k → find i (place k v m) ≡ find i m
  find-place_ne i k v [] h = ground (arith, o.eq_of_cmp i k)
  find-place_ne i k v ((j, w) ∷ m) h = ground (arith, o.eq_of_cmp i k, find-place_ne i k v m h)

  length-place : (k : K) (v : V) (m : Map K V) → length (place k v m) ≡ suc (length m)
  length-place k v [] = refl
  length-place k v ((j, w) ∷ m) = ground (arith, length-place k v m)

  pub find-emplace_self :
      (k : K) (v : V) (m : Map K V) → find k m ≡ none → find k (emplace k v m) ≡ some v
  unfolding emplace
  find-emplace_self k v m h = rw (h, emplace) (find-place_self k v m h)

  pub find-emplace_ne : (i k : K) (v : V) (m : Map K V) → i ≢ k → find i (emplace k v m) ≡ find i m
  unfolding emplace
  find-emplace_ne i k v m h = ground (arith, find-place_ne i k v m h)

  pub emplace_has : (k : K) (v w : V) (m : Map K V) → find k m ≡ some w → emplace k v m ≡ m
  unfolding emplace
  emplace_has k v w m h = rw (h, emplace)

  pub length-emplace : (k : K) (v : V) (m : Map K V) → length (emplace k v m) ≤ suc (length m)
  unfolding emplace
  length-emplace k v m = ground (arith, length-place k v m)

  pub find-erase_self : (k : K) (m : Map K V) → find k (erase k m) ≡ none
  find-erase_self k [] = refl
  find-erase_self k ((j, v) ∷ m) = ground (arith, find-erase_self k m)

  pub find-erase_ne : (i k : K) (m : Map K V) → i ≢ k → find i (erase k m) ≡ find i m
  find-erase_ne i k [] h = refl
  find-erase_ne i k ((j, v) ∷ m) h =
      ground (arith, o.eq_of_cmp k j, o.eq_of_cmp i j, find-erase_ne i k m h)

  pub find-erase-none : (i k : K) (m : Map K V) → find i m ≡ none → find i (erase k m) ≡ none
  find-erase-none i k [] h = refl
  find-erase-none i k ((j, v) ∷ m) h = ground (arith, find-erase-none i k m)

  pub length-erase : (k : K) (m : Map K V) → length (erase k m) ≤ length m
  length-erase k [] = omega arith
  length-erase k ((j, v) ∷ m) = ground (arith, length-erase k m)

  pub length-erase_lt :
      (k : K) (v : V) (m : Map K V) → find k m ≡ some v → length (erase k m) < length m
  length-erase_lt k v [] h = cc
  length-erase_lt k v ((j, w) ∷ m) h = ground (arith, length-erase k m, length-erase_lt k v m)

module _ {K V : Type 0} ⦃o : Ord K⦄ where
  -- An entry of the list.
  abbrev pub Has : K → V → Map K V → Type 0
  Has k v [] = ⊥
  Has k v ((j, w) ∷ m) = ((j ≡ k) × (w ≡ v)) ⊎ Has k v m

  pub Has-find : (k : K) (v : V) (m : Map K V) → find k m ≡ some v → Has k v m
  Has-find k v [] h = cc
  Has-find k v ((j, w) ∷ m) h = ground (arith, o.eq_of_cmp k j, Has-find k v m)

  pub Has-place :
      (k i : K) (v w : V) (m : Map K V) → Has i w (place k v m) → ((k ≡ i) × (v ≡ w)) ⊎ Has i w m
  Has-place k i v w [] h = h
  Has-place k i v w ((j, u) ∷ m) h = ground (arith, Has-place k i v w m)

  pub Has-erase : (k i : K) (v : V) (m : Map K V) → Has i v (erase k m) → (k ≢ i) × Has i v m
  Has-erase k i v [] h = elim h [ ]
  Has-erase k i v ((j, w) ∷ m) h = ground (arith, o.cmp_refl k, Has-erase k i v m)

  pub Has-emplace :
      (k i : K) (v w : V) (m : Map K V) → Has i w (emplace k v m) → ((k ≡ i) × (v ≡ w)) ⊎ Has i w m
  unfolding emplace
  Has-emplace k i v w m h = ground (arith, Has-place k i v w m)

  pub find-Has : (k : K) (v : V) (m : Map K V) → Has k v m → (w : V) × (find k m ≡ some w)
  find-Has k v [] h = elim h [ ]
  find-Has k v ((j, w) ∷ m) h = elim (Option-cases (find k ((j, w) ∷ m))) [
    | inr found ↦ found
    | inl none_found ↦ elim h [
      | inl (same, _) ↦ absurd (ground (arith, o.cmp_refl k))
      | inr later ↦ let (u, e) = find-Has k v m later in absurd (ground arith)
    ]
  ]
