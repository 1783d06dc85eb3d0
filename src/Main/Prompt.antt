-- ===== src/Main/Prompt.antt =====
-- The password that is typed.
use mathlib.Core.Path.{subst}
use transproxify.Base.{
  ℕ, zero, suc, ◌≡◌, ◌==◌, ◌≢◌, ◌∙◌, ap, refl, List, [], ◌∷◌, ◌++◌, Bool, true, false, arith,
  length, take, ltb, is_empty, if◌then◌else◌, ◌||◌, none, some, All, inl, inr, Bool-cases,
  append-nil,
}
use transproxify.Socks5.{c_string}
use transproxify.Main.{read_line, prompt}

-- A line as it can be typed: no byte of it ends the line or the text.
abbrev pub IsLine : List ℕ → Type 0
IsLine = All (λ b. (b ≢ b'\n') × (b ≢ 0))

-- Where a line ends: at the end of the input, or at a newline.
abbrev Ends : List ℕ → Type 0
Ends rest = (room : ℕ) → read_line room rest ≡ ([], false)

newline-Ends : (rest : List ℕ) → Ends (b'\n' ∷ rest)
unfolding read_line
newline-Ends rest zero = refl
newline-Ends rest (suc room) = refl

eof-Ends : Ends []
unfolding read_line
eof-Ends room = refl

differs : (a b : ℕ) → a ≢ b → (a == b) ≡ false
differs a b h = ground arith

read_line_lem :
    (room : ℕ) (line rest : List ℕ)
    → IsLine line
    → Ends rest
    → read_line room (line ++ rest) ≡ (take room line, ltb room (length line))
unfolding read_line
read_line_lem zero [] rest h e = e 0
read_line_lem (suc room) [] rest h e = e (suc room) ∙ ap (λ x. ([], x)) (ground arith)
read_line_lem zero (b ∷ bs) rest ((h, z), hs) e = ap (λ x. ([], x)) (ground arith)
read_line_lem (suc room) (b ∷ bs) rest ((h, z), hs) e =
    rw (differs b b'\n' h, read_line_lem room bs rest hs e)
      (ap (λ x. (b ∷ take room bs, x)) (ground arith))

c_string-IsLine : (line : List ℕ) → IsLine line → c_string line ≡ line
c_string-IsLine [] h = refl
c_string-IsLine (b ∷ bs) ((h, z), hs) = rw (differs b 0 z, c_string-IsLine bs hs) refl

take-all : (n : ℕ) (xs : List ℕ) → ltb n (length xs) ≡ false → take n xs ≡ xs
take-all zero [] h = refl
take-all zero (x ∷ xs) h = ground arith
take-all (suc n) [] h = refl
take-all (suc n) (x ∷ xs) h = ap (λ r. x ∷ r) (take-all n xs (ground arith))

taken :
    (line : List ℕ) → IsLine line → ltb 255 (length line) ≡ false → c_string (take 255 line) ≡ line
taken line h e = ap c_string (take-all 255 line e) ∙ c_string-IsLine line h

prompt-Ends :
    (line rest : List ℕ) (echo : Bool)
    → IsLine line
    → Ends rest
    → is_empty (line ++ rest) ≡ false
    → prompt (line ++ rest) echo ≡ (if ltb 255 (length line) then none else some line, true)
unfolding prompt
prompt-Ends line rest echo h e k =
    rw (read_line_lem 255 line rest h e) (elim (Bool-cases (ltb 255 (length line))) [
      | inl l ↦ rw l refl
      | inr l ↦ rw (l, k, taken line h l) refl
    ])

-- Let a typed line have no zero byte. It is the password if it has at most 255 bytes, whatever
-- follows the newline; a longer one is refused. So it is with a line that the input ends with no
-- newline, but that an empty one is refused. In each case the terminal echoes afterwards.
pub prompt_lem :
    (line rest : List ℕ) (echo : Bool)
    → IsLine line
    → (prompt (line ++ (b'\n' ∷ rest)) echo
        ≡ (if ltb 255 (length line) then none else some line, true))
      × (prompt line echo
          ≡ (if is_empty line || ltb 255 (length line) then none else some line, true))
unfolding prompt read_line
prompt_lem line rest echo h = (
  prompt-Ends line (b'\n' ∷ rest) echo h (newline-Ends rest) (full line rest),
  at_end line echo h,
)
  where
    full : (line rest : List ℕ) → is_empty (line ++ (b'\n' ∷ rest)) ≡ false
    full [] rest = refl
    full (b ∷ bs) rest = refl

    at_end :
        (line : List ℕ) (echo : Bool)
        → IsLine line
        → prompt line echo
          ≡ (if is_empty line || ltb 255 (length line) then none else some line, true)
    at_end [] echo h = refl
    at_end (b ∷ bs) echo h =
        subst
          (λ x. prompt x echo ≡ (if ltb 255 (length (b ∷ bs)) then none else some (b ∷ bs), true))
          (append-nil (b ∷ bs)) (prompt-Ends (b ∷ bs) [] echo h eof-Ends refl)
