-- ===== src/Tests/Cleaner.antt =====
-- A cleaner that is copied, cleaned by hand, disabled and released.
use transproxify.Base.{◌≡◌, refl, ◌≢◌, ◌⊎◌, ◌≤◌, List, [], ◌∷◌, true, arith}
use transproxify.Cleaner.{Operation, copy, release, disable, clean, new_cleaner, steps}
use transproxify.Cleaner.Once.{called_once, called_bound}

-- The temporary of an assignment is a copy.
abbrev by_hand : List Operation
by_hand = copy ∷ release ∷ clean ∷ release ∷ []

disabled_first : (steps (disable ∷ release ∷ []) new_cleaner).trigger.called ≡ 0
unfolding steps
disabled_first = refl

called_once_example : (steps by_hand new_cleaner).trigger.called ≡ 1
unfolding steps
called_once_example = called_once by_hand (omega arith) refl

called_bound_example :
    ((steps by_hand new_cleaner).trigger.called ≤ 1)
    × ((steps by_hand new_cleaner).trigger.enabled ≢ true
        ⊎ ((steps by_hand new_cleaner).trigger.called ≡ 0))
called_bound_example = called_bound by_hand
