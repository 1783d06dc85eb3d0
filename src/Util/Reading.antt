-- ===== src/Util/Reading.antt =====
-- `read_exactly` does not depend on how the bytes arrive.
use transproxify.Base.{
  ℕ, zero, suc, ◌+◌, ◌-◌, ◌≤◌, ◌≡◌, refl, sym, ap, ◌∙◌, List, [], ◌∷◌, ◌++◌, Bool, arith, length,
  take, drop, take-append-drop, append_assoc, append-nil, leb, if◌then◌else◌,
}
use transproxify.Wire.{Inbound, eof, broken, chunk, Got, failed, got, rechunk, bytes, ends}
use transproxify.Util.{read_loop, read_exactly}

suc_sub : (n m : ℕ) → suc n - suc m ≡ n - m
suc_sub n m = omega arith

sub_zero : (n : ℕ) → n - 0 ≡ n
sub_zero n = omega arith

pub bytes-rechunk : (bs : List ℕ) (i : Inbound) → bytes (rechunk bs i) ≡ bs ++ bytes i
bytes-rechunk [] i = refl
bytes-rechunk (b ∷ bs) i = refl

pub ends-rechunk : (bs : List ℕ) (i : Inbound) → ends (rechunk bs i) ≡ ends i
ends-rechunk [] i = refl
ends-rechunk (b ∷ bs) i = refl

module _ {ℓ} {A : Type ℓ} where
  take-split :
      (n : ℕ) (xs ys : List A)
      → take n (xs ++ ys) ≡ take n xs ++ take (n - length (take n xs)) (drop n xs ++ ys)
  take-split zero xs ys = refl
  take-split (suc n) [] ys = rw (sub_zero (suc n))
  take-split (suc n) (x ∷ xs) ys =
      rw (suc_sub n (length (take n xs))) (ap (λ r. x ∷ r) (take-split n xs ys))

  drop-split :
      (n : ℕ) (xs ys : List A) → drop n (xs ++ ys) ≡ drop (n - length (take n xs)) (drop n xs ++ ys)
  drop-split zero xs ys = refl
  drop-split (suc n) [] ys = rw (sub_zero (suc n))
  drop-split (suc n) (x ∷ xs) ys = rw (suc_sub n (length (take n xs))) (drop-split n xs ys)

  length-split :
      (n : ℕ) (xs ys : List A)
      → (length (xs ++ ys) ≡ length (take n xs) + length (drop n xs ++ ys))
        × (length (take n xs) ≤ n)
  length-split zero xs ys = omega arith
  length-split (suc n) [] ys = omega arith
  length-split (suc n) (x ∷ xs) ys = omega (arith, length-split n xs ys)

-- What a read of n bytes returns, told by the bytes to come and the way the stream ends.
abbrev pub expected : ℕ → List ℕ → List ℕ → Bool → Got
expected n buffer xs e =
    if leb n (length xs)
    then got (buffer ++ take n xs)
    else if e
    then got (buffer ++ xs)
    else failed

expected-split :
    (n : ℕ) (buffer : List ℕ) (b : ℕ) (bs xs : List ℕ) (e : Bool)
    → expected (n - length (take n bs)) (buffer ++ (b ∷ take n bs)) (drop n bs ++ xs) e
      ≡ expected (suc n) buffer (b ∷ (bs ++ xs)) e
expected-split n buffer b bs xs e = ground (
  arith,
  length-split n bs xs,
  take-split n bs xs,
  append_assoc buffer (b ∷ take n bs) (take (n - length (take n bs)) (drop n bs ++ xs)),
  append_assoc buffer (b ∷ take n bs) (drop n bs ++ xs),
  take-append-drop n bs,
  append_assoc (take n bs) (drop n bs) xs,
)

expected-zero : (buffer xs : List ℕ) (e : Bool) → expected 0 buffer xs e ≡ got buffer
expected-zero buffer xs e = ground (arith, append-nil buffer)

read_loop-eq :
    (fuel left : ℕ) (buffer : List ℕ) (i : Inbound)
    → left ≤ fuel
    → ((read_loop fuel left buffer i).0 ≡ expected left buffer (bytes i) (ends i))
      × (bytes (read_loop fuel left buffer i).1 ≡ drop left (bytes i))
      × (ends (read_loop fuel left buffer i).1 ≡ ends i)
unfolding read_loop
read_loop-eq zero zero buffer i h = (sym (expected-zero buffer (bytes i) (ends i)), refl, refl)
read_loop-eq zero (suc left) buffer i h = elim h [ ]
read_loop-eq (suc fuel) zero buffer i h =
    (sym (expected-zero buffer (bytes i) (ends i)), refl, refl)
read_loop-eq (suc fuel) (suc left) buffer eof h = (ground (arith, append-nil buffer), refl, refl)
read_loop-eq (suc fuel) (suc left) buffer broken h = (ground arith, refl, refl)
read_loop-eq (suc fuel) (suc left) buffer (chunk b bs i) h =
    let i' = rechunk (drop left bs) i in
    let ih =
      read_loop-eq fuel (left - length (take left bs)) (buffer ++ (b ∷ take left bs)) i'
        (omega arith) in
    let come = bytes-rechunk (drop left bs) i in
    let last = ends-rechunk (drop left bs) i in
    (
      ih.0 ∙ rw (come, last) (expected-split left buffer b bs (bytes i) (ends i)),
      ih.1 ∙ rw come (sym (drop-split left bs (bytes i))),
      ih.2 ∙ last,
    )

-- Whatever the chunks are, `read_exactly` returns the first n bytes that arrive; it returns fewer
-- only if the stream ends before them, and fails only if it breaks before them. The bytes behind
-- the first n, and the way the stream ends, stay for the next read.
pub read_exactly_lem :
    (n : ℕ) (i : Inbound)
    → ((read_exactly n i).0 ≡ expected n [] (bytes i) (ends i))
      × (bytes (read_exactly n i).1 ≡ drop n (bytes i))
      × (ends (read_exactly n i).1 ≡ ends i)
unfolding read_exactly
read_exactly_lem n i = read_loop-eq n n [] i (omega arith)
