-- ===== src/Cleaner.antt =====
-- Cleaner.hpp: a callback that runs when the last copy of the cleaner goes, unless it was disabled.
-- All copies share one trigger; the number of copies is that of its `std::shared_ptr`.
pub mod Once
use transproxify.Base.{ℕ, zero, suc, ◌≤◌, ◌≡◌, refl, List, [], ◌∷◌, Bool, true, false, arith}

-- The trigger: its flag, and how often the callback has run.
pub record Trigger : Type 0 where
  pub enabled : Bool
  pub called : ℕ

-- The copies that are left, and the trigger.
pub record Cleaner : Type 0 where
  pub copies : ℕ
  pub trigger : Trigger

pub data Operation : Type 0 where
  copy release disable clean : Operation

-- `Cleaner(callback)`
abbrev pub new_cleaner : Cleaner
new_cleaner = record { copies = 1; trigger = record { enabled = true; called = 0 } }

-- `Trigger::clean`
trigger_clean : Trigger → Trigger
trigger_clean t = elim (t.enabled) [
  | true ↦ record { enabled = false; called = suc t.called }
  | false ↦ t
]

-- `Trigger::disable`
trigger_disable : Trigger → Trigger
trigger_disable t = record t { enabled = false }

-- One operation on some copy. Where no copy is left, there is nothing to operate on; the destructor
-- of the trigger runs when the last copy goes.
pub step : Operation → Cleaner → Cleaner
unfolding trigger_clean trigger_disable
step o c = elim (c.copies) [
  | zero ↦ c
  | suc others ↦ elim o [
    | copy ↦ record c { copies = suc (suc others) }
    | release ↦ elim others [
      | zero ↦ record { copies = 0; trigger = trigger_clean c.trigger }
      | suc n ↦ record c { copies = suc n }
    ]
    | disable ↦ record c { trigger = trigger_disable c.trigger }
    | clean ↦ record c { trigger = trigger_clean c.trigger }
  ]
]

unfoldable pub steps : List Operation → Cleaner → Cleaner
unfolding step
steps [] c = c
steps (o ∷ os) c = steps os (step o c)
