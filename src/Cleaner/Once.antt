-- ===== src/Cleaner/Once.antt =====
-- How often the callback of a cleaner runs.
use transproxify.Base.{
  ℕ, zero, suc, ◌≤◌, ◌≡◌, refl, List, [], ◌∷◌, Bool, true, false, arith, All, ◌≢◌, ◌⊎◌, inl, inr,
  Bool-cases,
}
use transproxify.Cleaner.{
  Cleaner, Operation, copy, release, disable, clean, new_cleaner, step, steps,
}

-- No copy is disabled.
abbrev pub NotDisable : Operation → Type 0
NotDisable copy = Unit
NotDisable release = Unit
NotDisable disable = ⊥
NotDisable clean = Unit

abbrev pub NoDisable : List Operation → Type 0
NoDisable = All NotDisable

-- The callback has not run while the trigger is enabled, runs once at most, and the trigger of no
-- copies is not enabled. If no copy was disabled, a trigger that is not enabled has run.
record IsValid (undisabled : Type 0) (c : Cleaner) : Type 0 where
  pub enabled_fresh : c.trigger.enabled ≡ true → c.trigger.called ≡ 0
  pub once : c.trigger.called ≤ 1
  pub gone : c.copies ≡ 0 → c.trigger.enabled ≡ false
  pub ran : undisabled → c.trigger.enabled ≡ false → c.trigger.called ≡ 1

module _ (undisabled : Type 0) where
  step-IsValid :
      (o : Operation) (n : ℕ) (e : Bool) (k : ℕ)
      → let c : Cleaner = record { copies = n; trigger = record { enabled = e; called = k } } in
        (undisabled → NotDisable o) → IsValid undisabled c → IsValid undisabled (step o c)
  unfolding step
  step-IsValid copy zero e k kept v = v
  step-IsValid copy (suc n) e k kept v = record {
    enabled_fresh = v.enabled_fresh;
    once = v.once;
    gone = λ h. omega (arith, h);
    ran = v.ran;
  }
  step-IsValid release zero e k kept v = v
  step-IsValid release (suc zero) true k kept v = record {
    enabled_fresh = λ h. cc;
    once = omega (arith, v.enabled_fresh refl);
    gone = λ h. refl;
    ran = λ u h. omega (arith, v.enabled_fresh refl);
  }
  step-IsValid release (suc zero) false k kept v = record {
    enabled_fresh = v.enabled_fresh;
    once = v.once;
    gone = λ h. refl;
    ran = v.ran;
  }
  step-IsValid release (suc (suc n)) e k kept v = record {
    enabled_fresh = v.enabled_fresh;
    once = v.once;
    gone = λ h. omega (arith, h);
    ran = v.ran;
  }
  step-IsValid disable zero e k kept v = record {
    enabled_fresh = v.enabled_fresh;
    once = v.once;
    gone = v.gone;
    ran = v.ran;
  }
  step-IsValid disable (suc n) e k kept v = record {
    enabled_fresh = λ h. cc;
    once = v.once;
    gone = λ h. refl;
    ran = λ u h. elim (kept u) [ ];
  }
  step-IsValid clean zero e k kept v = v
  step-IsValid clean (suc n) true k kept v = record {
    enabled_fresh = λ h. cc;
    once = omega (arith, v.enabled_fresh refl);
    gone = λ h. refl;
    ran = λ u h. omega (arith, v.enabled_fresh refl);
  }
  step-IsValid clean (suc n) false k kept v = v

  steps-IsValid :
      (os : List Operation) (c : Cleaner)
      → (undisabled → NoDisable os)
      → IsValid undisabled c
      → IsValid undisabled (steps os c)
  unfolding steps
  steps-IsValid [] c kept v = v
  steps-IsValid (o ∷ os) c kept v =
      steps-IsValid os (step o c) (λ u. (kept u).1)
        (step-IsValid o c.copies c.trigger.enabled c.trigger.called (λ u. (kept u).0) v)

new_cleaner-IsValid : (undisabled : Type 0) → IsValid undisabled new_cleaner
new_cleaner-IsValid undisabled = record {
  enabled_fresh = λ h. refl;
  once = omega arith;
  gone = λ h. cc;
  ran = λ u h. cc;
}

-- If no copy is disabled and all copies are gone, the callback has run exactly once, however the
-- cleaner was copied, cleaned and released.
pub called_once :
    (os : List Operation)
    → NoDisable os
    → (steps os new_cleaner).copies ≡ 0
    → (steps os new_cleaner).trigger.called ≡ 1
called_once os kept gone =
    let v =
      steps-IsValid (NoDisable os) os new_cleaner (λ u. u) (new_cleaner-IsValid (NoDisable os)) in
    v.ran kept (v.gone gone)

-- Whatever is done with the copies of a cleaner, the callback runs at most once; as long as the
-- trigger is enabled, it has not run.
pub called_bound :
    (os : List Operation)
    → ((steps os new_cleaner).trigger.called ≤ 1)
      × ((steps os new_cleaner).trigger.enabled ≢ true
          ⊎ ((steps os new_cleaner).trigger.called ≡ 0))
called_bound os =
    let v = steps-IsValid ⊥ os new_cleaner (λ u. elim u [ ]) (new_cleaner-IsValid ⊥) in
    (
      v.once,
      elim (Bool-cases (steps os new_cleaner).trigger.enabled) [
        | inl e ↦ inr (v.enabled_fresh e)
        | inr e ↦ inl (λ h. cc)
      ],
    )
