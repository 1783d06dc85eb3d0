-- ===== src/Base/Order.antt =====
-- The orders of the keys of `std::map`: numbers, integers, an optional value, pairs.
use Prim.Native.Nat.{ℕ, compare, Ordering}
use Prim.Native.Nat.Ordering.{lt, eq, gt}
use mathlib.Core.Path.{◌≡◌, refl, ap}
use mathlib.Core.Option.{Option, none, some}
use native.Mathlib.Omega.{arith}
use transproxify.Base.Int.{ℤ, pos, negsuc}

-- A comparison that tells equal keys; `std::map` takes keys for the same if neither is less.
pub record Ord {ℓ} (K : Type ℓ) : Type ℓ where
  pub cmp : K → K → Ordering
  pub cmp_refl : (a : K) → cmp a a ≡ eq
  pub eq_of_cmp : (a b : K) → cmp a b ≡ eq → a ≡ b

pub compare_refl : (a : ℕ) → compare a a ≡ eq
compare_refl a = ground arith

pub eq_of_compare : (a b : ℕ) → compare a b ≡ eq → a ≡ b
eq_of_compare a b h = ground arith

instance unfoldable pub nat_ord : Ord ℕ
nat_ord = record { cmp = compare; cmp_refl = compare_refl; eq_of_cmp = eq_of_compare }

abbrev pub cmp_ℤ : ℤ → ℤ → Ordering
cmp_ℤ (pos a) (pos b) = compare a b
cmp_ℤ (pos a) (negsuc b) = gt
cmp_ℤ (negsuc a) (pos b) = lt
cmp_ℤ (negsuc a) (negsuc b) = compare b a

pub cmp_ℤ_refl : (a : ℤ) → cmp_ℤ a a ≡ eq
cmp_ℤ_refl (pos a) = compare_refl a
cmp_ℤ_refl (negsuc a) = compare_refl a

pub eq_of_cmp_ℤ : (a b : ℤ) → cmp_ℤ a b ≡ eq → a ≡ b
eq_of_cmp_ℤ (pos a) (pos b) h = ap pos (eq_of_compare a b h)
eq_of_cmp_ℤ (pos a) (negsuc b) h = cc
eq_of_cmp_ℤ (negsuc a) (pos b) h = cc
eq_of_cmp_ℤ (negsuc a) (negsuc b) h = ground (arith, eq_of_compare b a h)

instance unfoldable pub int_ord : Ord ℤ
int_ord = record { cmp = cmp_ℤ; cmp_refl = cmp_ℤ_refl; eq_of_cmp = eq_of_cmp_ℤ }

abbrev pub first_of : Ordering → Ordering → Ordering
first_of eq second = second
first_of lt second = lt
first_of gt second = gt

module _ {ℓ κ} {A : Type ℓ} {B : Type κ} ⦃a : Ord A⦄ ⦃b : Ord B⦄ where
  -- `std::tuple` compares its parts in turn.
  abbrev pub lex : A × B → A × B → Ordering
  lex x y = first_of (a.cmp x.0 y.0) (b.cmp x.1 y.1)

  pub lex_refl : (x : A × B) → lex x x ≡ eq
  lex_refl x = simp (a.cmp_refl, b.cmp_refl)

  pub eq_of_lex : (x y : A × B) → lex x y ≡ eq → x ≡ y
  eq_of_lex x y h = ground (arith, a.eq_of_cmp x.0 y.0, b.eq_of_cmp x.1 y.1)

  instance unfoldable pub pair_ord : Ord (A × B)
  pair_ord = record { cmp = lex; cmp_refl = lex_refl; eq_of_cmp = eq_of_lex }

module _ {ℓ} {A : Type ℓ} ⦃a : Ord A⦄ where
  -- `none` stands for the descriptor -1 and comes before every other.
  abbrev pub cmp_option : Option A → Option A → Ordering
  cmp_option none none = eq
  cmp_option none (some y) = lt
  cmp_option (some x) none = gt
  cmp_option (some x) (some y) = a.cmp x y

  pub cmp_option_refl : (x : Option A) → cmp_option x x ≡ eq
  cmp_option_refl none = refl
  cmp_option_refl (some x) = a.cmp_refl x

  pub eq_of_cmp_option : (x y : Option A) → cmp_option x y ≡ eq → x ≡ y
  eq_of_cmp_option none none h = refl
  eq_of_cmp_option none (some y) h = cc
  eq_of_cmp_option (some x) none h = cc
  eq_of_cmp_option (some x) (some y) h = ap some (a.eq_of_cmp x y h)

  instance unfoldable pub option_ord : Ord (Option A)
  option_ord = record { cmp = cmp_option; cmp_refl = cmp_option_refl; eq_of_cmp = eq_of_cmp_option }
