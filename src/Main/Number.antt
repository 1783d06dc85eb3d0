-- ===== src/Main/Number.antt =====
-- `std::stoi` of the digits that `std::to_string` gives.
use transproxify.Base.{
  ℕ, zero, suc, ◌+◌, ◌-◌, ◌*◌, ◌/◌, ◌%◌, ◌^◌, ◌<◌, ◌≡◌, ◌∙◌, refl, List, [], ◌∷◌, ◌++◌, true, false,
  arith, inl, inr, Bool-cases, ◌==◌, ap,
}
use transproxify.Base.Int.{pos}
use transproxify.Http.{is_digit, to_string, digits_loop}
use transproxify.Main.{number, value, starts_with_digit, in_range, stoi}

-- A text that begins with a digit has no sign and no space in front.
stoi-digits :
    (text : List ℕ) → starts_with_digit text ≡ true → stoi text ≡ in_range false (value 0 text)
unfolding stoi
stoi-digits [] h = ground arith
stoi-digits (b ∷ bs) h = ground arith

-- The byte of the last digit is read back.
value-step :
    (m n : ℕ) (text : List ℕ)
    → 10 * m + n % 10 ≡ n
    → (is_digit (n % 10 + 48) ≡ true) × (value m ((n % 10 + 48) ∷ text) ≡ value n text)
value-step m n text e = (digit, rw digit (ap (λ x. value x text) sum))
  where
    digit : is_digit (n % 10 + 48) ≡ true
    digit = ground arith

    sum : 10 * m + (n % 10 + 48 - 48) ≡ n
    sum = omega (arith, e)

value-digits :
    (fuel n : ℕ) (text : List ℕ)
    → n < fuel
    → (starts_with_digit (digits_loop fuel n text) ≡ true)
      × (value 0 (digits_loop fuel n text) ≡ value n text)
unfolding digits_loop
value-digits zero n text h = absurd (omega arith)
value-digits (suc fuel) n text h = elim (Bool-cases (n / 10 == 0)) [
  | inl e ↦ rw e (value-step 0 n text (ground arith))
  | inr e ↦
      let r = value-digits fuel (n / 10) ((n % 10 + 48) ∷ text) (ground arith) in
      rw e (r.0, r.1 ∙ (value-step (n / 10) n text (omega arith)).1)
]

-- A text behind the digits that does not go on with a digit is not read.
value-rest : (n : ℕ) (rest : List ℕ) → starts_with_digit rest ≡ false → value n rest ≡ n
value-rest n [] h = refl
value-rest n (b ∷ bs) h = rw h refl

digits-append :
    (fuel n : ℕ) (text rest : List ℕ)
    → digits_loop fuel n text ++ rest ≡ digits_loop fuel n (text ++ rest)
unfolding digits_loop
digits-append zero n text rest = refl
digits-append (suc fuel) n text rest = elim (Bool-cases (n / 10 == 0)) [
  | inl e ↦ rw e refl
  | inr e ↦ rw e (digits-append fuel (n / 10) ((n % 10 + 48) ∷ text) rest)
]

-- `std::stoi` reads a number below 2 ^ 31 back that `std::to_string` has written, whatever follows
-- it, if that does not begin with a digit.
pub stoi-to_string :
    (n : ℕ) (rest : List ℕ)
    → n < 2 ^ 31
    → starts_with_digit rest ≡ false
    → stoi (to_string n ++ rest) ≡ number (pos n)
unfolding to_string
stoi-to_string n rest h k =
    let r = value-digits (suc n) n rest (omega arith) in
    rw (digits-append (suc n) n [] rest) (
      stoi-digits (digits_loop (suc n) n rest) r.0
      ∙ (ap (in_range false) (r.1 ∙ value-rest n rest k) ∙ ground arith))
