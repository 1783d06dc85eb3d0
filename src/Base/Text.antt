-- ===== src/Base/Text.antt =====
-- Reading a text up to a character, as the descriptions of protocols do.
use transproxify.Base.Lists.{All}
use transproxify.Base.Tests.{◌==◌, if◌then◌else◌}
use Prim.Native.Nat.{ℕ}
use mathlib.Core.Path.{◌≡◌}
use mathlib.Core.Logic.{◌≢◌}
use mathlib.Core.List.{List, [], ◌∷◌, ◌++◌}
use native.Mathlib.Omega.{arith}

-- The text in front of a character, and the text behind it.
abbrev pub until : ℕ → List ℕ → List ℕ × List ℕ
until b [] = ([], [])
until b (x ∷ xs) =
    let (before, behind) = until b xs in if x == b then ([], xs) else (x ∷ before, behind)

pub until-append :
    (b : ℕ) (xs rest : List ℕ) → All (λ x. x ≢ b) xs → until b (xs ++ (b ∷ rest)) ≡ (xs, rest)
until-append b [] rest h = ground arith
until-append b (x ∷ xs) rest (h, hs) = ground (arith, until-append b xs rest hs)
