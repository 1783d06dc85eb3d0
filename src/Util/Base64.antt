-- ===== src/Util/Base64.antt =====
-- `base64encode` against a decoder written after RFC 4648.
use native.Mathlib.Decide.{dec_lt}
use transproxify.Base.{
  ◌≢◌, All, ℕ, zero, suc, ◌+◌, ◌-◌, ◌*◌, ◌/◌, ◌%◌, ◌<◌, ◌≡◌, refl, ◌∙◌, List, [], ◌∷◌, Bool, true,
  false, ◌&&◌, not, arith, bit_and, length, AreBytes, leb, ◌==◌, if◌then◌else◌,
}
use transproxify.Util.{base64encode, base64_value}

-- The number that a character of the alphabet stands for.
abbrev pub sextet : ℕ → ℕ
sextet c =
    if leb b'A' c && leb c b'Z'
    then c - b'A'
    else if leb b'a' c && leb c b'z'
    then c - b'a' + 26
    else if leb b'0' c && leb c b'9'
    then c - b'0' + 52
    else if c == b'+'
    then 62
    else 63

-- Four characters stand for three bytes; padding is read at the end only.
pub base64decode : List ℕ → List ℕ
base64decode (w ∷ x ∷ y ∷ z ∷ rest) =
    let first = sextet w * 4 + sextet x / 16 in
    let second = sextet x % 16 * 16 + sextet y / 4 in
    let third = sextet y % 4 * 64 + sextet z in
    let more = base64decode rest in
    if y == b'='
    then first ∷ []
    else if z == b'='
    then first ∷ second ∷ []
    else first ∷ second ∷ third ∷ more
base64decode _ = []

-- A test of all numbers under a bound, and its use.
passes : (ℕ → Bool) → ℕ → Bool
passes test zero = true
passes test (suc bound) = if test bound then passes test bound else false

passes_at : (test : ℕ → Bool) (bound k : ℕ) → k < bound → passes test bound ≡ true → test k ≡ true
unfolding passes
passes_at test zero k below h = elim below [ ]
passes_at test (suc bound) k below h = elim (dec_lt k bound) [
  | yes lower ↦ passes_at test bound k lower (ground arith)
  | no top ↦ let last : bound ≡ k = omega arith in rw (← last) (ground arith)
]

-- The masks and shifts of the source are division and remainder on a byte.
masks : ℕ → Bool
masks x =
    (bit_and x 0b11111100 / 4 == x / 4)
    && (bit_and x 0b00000011 == x % 4)
    && (bit_and x 0b11110000 / 16 == x / 16)
    && (bit_and x 0b00001111 == x % 16)
    && (bit_and x 0b11000000 / 64 == x / 64)
    && (bit_and x 0b00111111 == x % 64)

masks_table : passes masks 256 ≡ true
unfolding passes masks
masks_table = refl

masks_eq :
    (x : ℕ)
    → x < 256
    → (bit_and x 0b11111100 / 4 ≡ x / 4)
      × (bit_and x 0b00000011 ≡ x % 4)
      × (bit_and x 0b11110000 / 16 ≡ x / 16)
      × (bit_and x 0b00001111 ≡ x % 16)
      × (bit_and x 0b11000000 / 64 ≡ x / 64)
      × (bit_and x 0b00111111 ≡ x % 64)
unfolding masks
masks_eq x h = ground (arith, passes_at masks 256 x h masks_table)

reads_back : ℕ → Bool
reads_back k = (sextet (base64_value k) == k) && not (base64_value k == b'=')

reads_back_table : passes reads_back 64 ≡ true
unfolding passes reads_back base64_value
reads_back_table = refl

sextet-base64_value :
    (k : ℕ) → k < 64 → (sextet (base64_value k) ≡ k) × ((base64_value k == b'=') ≡ false)
unfolding reads_back
sextet-base64_value k h = ground (arith, passes_at reads_back 64 k h reads_back_table)

base64decode-full :
    (p q r s : ℕ) (rest : List ℕ)
    → p < 64
    → q < 64
    → r < 64
    → s < 64
    → base64decode (base64_value p ∷ base64_value q ∷ base64_value r ∷ base64_value s ∷ rest)
      ≡ (p * 4 + q / 16) ∷ (q % 16 * 16 + r / 4) ∷ (r % 4 * 64 + s) ∷ base64decode rest
unfolding base64decode
base64decode-full p q r s rest hp hq hr hs =
    let (p', _) = sextet-base64_value p hp in
    let (q', _) = sextet-base64_value q hq in
    let (r', pad_r) = sextet-base64_value r hr in
    let (s', pad_s) = sextet-base64_value s hs in rw (pad_r, pad_s, p', q', r', s')

base64decode-one :
    (p q : ℕ)
    → p < 64
    → q < 64
    → base64decode (base64_value p ∷ base64_value q ∷ b'=' ∷ b'=' ∷ []) ≡ (p * 4 + q / 16) ∷ []
unfolding base64decode
base64decode-one p q hp hq = rw ((sextet-base64_value p hp).0, (sextet-base64_value q hq).0)

base64decode-two :
    (p q r : ℕ)
    → p < 64
    → q < 64
    → r < 64
    → base64decode (base64_value p ∷ base64_value q ∷ base64_value r ∷ b'=' ∷ [])
      ≡ (p * 4 + q / 16) ∷ (q % 16 * 16 + r / 4) ∷ []
unfolding base64decode
base64decode-two p q r hp hq hr =
    let (r', pad_r) = sextet-base64_value r hr in
    rw (pad_r, (sextet-base64_value p hp).0, (sextet-base64_value q hq).0, r')

-- Decoding after RFC 4648 gives every list of bytes back from its encoding.
pub base64decode-base64encode :
    (plain : List ℕ) → AreBytes plain → base64decode (base64encode plain) ≡ plain
unfolding base64encode base64decode
base64decode-base64encode [] h = refl
base64decode-base64encode (a ∷ []) h =
    let (a1, a2, _, _, _, _) = masks_eq a h.0 in
    rw (a1, a2) (base64decode-one (a / 4) (a % 4 * 16) (omega arith) (omega arith) ∙ ground arith)
base64decode-base64encode (a ∷ b ∷ []) h =
    let (a1, a2, _, _, _, _) = masks_eq a h.0 in
    let (_, _, b1, b2, _, _) = masks_eq b h.1.0 in
    rw (a1, a2, b1, b2)
      (base64decode-two (a / 4) (a % 4 * 16 + b / 16) (b % 16 * 4) (omega arith) (omega arith)
          (omega arith)
        ∙ ground arith)
base64decode-base64encode (a ∷ b ∷ c ∷ rest) h =
    let (a1, a2, _, _, _, _) = masks_eq a h.0 in
    let (_, _, b1, b2, _, _) = masks_eq b h.1.0 in
    let (_, _, _, _, c1, c2) = masks_eq c h.1.1.0 in
    rw (a1, a2, b1, b2, c1, c2)
      (base64decode-full (a / 4) (a % 4 * 16 + b / 16) (b % 16 * 4 + c / 64) (c % 64)
          (base64encode rest) (omega arith) (omega arith) (omega arith) (omega arith)
        ∙ ground (arith, base64decode-base64encode rest h.1.1.1))

-- Every started group of three bytes becomes four characters.
pub length-base64encode :
    (plain : List ℕ) → length (base64encode plain) ≡ (length plain + 2) / 3 * 4
unfolding base64encode
length-base64encode [] = refl
length-base64encode (a ∷ []) = refl
length-base64encode (a ∷ b ∷ []) = refl
length-base64encode (a ∷ b ∷ c ∷ rest) = omega (arith, length-base64encode rest)

no_newline : ℕ → Bool
no_newline k = not (base64_value k == b'\n')

no_newline_table : passes no_newline 64 ≡ true
unfolding passes no_newline base64_value
no_newline_table = refl

base64_value_ne : (k : ℕ) → k < 64 → base64_value k ≢ b'\n'
unfolding no_newline
base64_value_ne k h e = ground (arith, passes_at no_newline 64 k h no_newline_table)

pad : ◌≢◌ {A = ℕ} b'=' b'\n'
pad e = omega arith

-- No line of the encoding ends before its end.
pub base64encode-All : (plain : List ℕ) → AreBytes plain → All (λ c. c ≢ b'\n') (base64encode plain)
unfolding base64encode
base64encode-All [] h = tt
base64encode-All (a ∷ []) h =
    let (a1, a2, _, _, _, _) = masks_eq a h.0 in
    rw (a1, a2)
      (
        base64_value_ne (a / 4) (omega arith),
        (base64_value_ne (a % 4 * 16) (omega arith), (pad, (pad, tt))),
      )
base64encode-All (a ∷ b ∷ []) h =
    let (a1, a2, _, _, _, _) = masks_eq a h.0 in
    let (_, _, b1, b2, _, _) = masks_eq b h.1.0 in
    rw (a1, a2, b1, b2)
      (
        base64_value_ne (a / 4) (omega arith),
        (
          base64_value_ne (a % 4 * 16 + b / 16) (omega arith),
          (base64_value_ne (b % 16 * 4) (omega arith), (pad, tt)),
        ),
      )
base64encode-All (a ∷ b ∷ c ∷ rest) h =
    let (a1, a2, _, _, _, _) = masks_eq a h.0 in
    let (_, _, b1, b2, _, _) = masks_eq b h.1.0 in
    let (_, _, _, _, c1, c2) = masks_eq c h.1.1.0 in
    rw (a1, a2, b1, b2, c1, c2)
      (
        base64_value_ne (a / 4) (omega arith),
        (
          base64_value_ne (a % 4 * 16 + b / 16) (omega arith),
          (
            base64_value_ne (b % 16 * 4 + c / 64) (omega arith),
            (base64_value_ne (c % 64) (omega arith), base64encode-All rest h.1.1.1),
          ),
        ),
      )
