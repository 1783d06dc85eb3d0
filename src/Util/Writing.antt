-- ===== src/Util/Writing.antt =====
-- `write_exactly` sends all bytes or a proper prefix, and `build_packet` appends within the buffer.
use transproxify.Base.{
  ℕ, zero, suc, ◌+◌, ◌<◌, ◌≡◌, refl, sym, ◌⊎◌, inl, inr, List, [], ◌∷◌, ◌++◌, Bool, true, false,
  none, some, arith, length, take, drop, take-append-drop, append_assoc, leb, ◌≢◌, append-nil,
  length-append, if◌then◌else◌,
}
use transproxify.Wire.{Inbound, Answer, refuse, accept, Socket, Willing}
use transproxify.Util.{write_loop, write_exactly, build_packet, size_mod}

-- The result is true and all of `buf` has been sent behind `before`, or false and a proper prefix.
abbrev pub Wrote : (buf before : List ℕ) → Bool × Socket → Type 0
Wrote buf before (done, s) =
    ((done ≡ true) × (s.sent ≡ before ++ buf))
    ⊎ ((p : List ℕ) × (q : List ℕ) × (buf ≡ p ++ q)
        × (q ≢ [])
        × (done ≡ false)
        × (s.sent ≡ before ++ p))

drop-length : (xs : List ℕ) → drop (length xs) xs ≡ []
drop-length [] = refl
drop-length (x ∷ xs) = drop-length xs

drop-length-take : (k : ℕ) (xs : List ℕ) → drop (length (take k xs)) xs ≡ drop k xs
drop-length-take zero xs = refl
drop-length-take (suc k) [] = refl
drop-length-take (suc k) (x ∷ xs) = drop-length-take k xs

-- A part of the bytes is written, then the rest.
Wrote-after :
    (k : ℕ) (bs before : List ℕ) (r : Bool × Socket)
    → Wrote (drop k bs) (before ++ take k bs) r
    → Wrote bs before r
Wrote-after k bs before (done, s) (inl (e, w)) =
    inl (e, ground (arith, append_assoc before (take k bs) (drop k bs), take-append-drop k bs))
Wrote-after k bs before (done, s) (inr (p, q, e, rest, f, w)) = inr (
  take k bs ++ p,
  q,
  ground (arith, append_assoc (take k bs) p q, take-append-drop k bs),
  rest,
  f,
  ground (arith, append_assoc before (take k bs) p),
)

write_loop-Wrote :
    (fuel : ℕ) (bs : List ℕ) (i : Inbound) (answers : List Answer) (sent : List ℕ)
    → length answers < fuel
    → let s : Socket = record { inbound = i; answers = answers; sent = sent } in
      Wrote bs sent (write_loop fuel bs s)
unfolding write_loop
write_loop-Wrote fuel [] i answers sent h = inl (refl, sym (append-nil sent))
write_loop-Wrote zero (b ∷ bs) i answers sent h = elim h [ ]
write_loop-Wrote (suc fuel) (b ∷ bs) i [] sent h =
    rw (drop-length bs, write_loop) (inl (refl, refl))
write_loop-Wrote (suc fuel) (b ∷ bs) i (refuse ∷ rest) sent h =
    inr ([], b ∷ bs, refl, (λ e. cc), refl, sym (append-nil sent))
write_loop-Wrote (suc fuel) (b ∷ bs) i (accept k ∷ rest) sent h =
    rw (drop-length-take k (b ∷ bs), write_loop)
      (Wrote-after k (b ∷ bs) sent
        (write_loop fuel (drop k (b ∷ bs))
          (record { inbound = i; answers = rest; sent = sent ++ take k (b ∷ bs) }))
        (write_loop-Wrote fuel (drop k (b ∷ bs)) i rest (sent ++ take k (b ∷ bs)) (omega arith)))

-- Where the kernel refuses no write, `write_exactly` succeeds; nothing else of the socket changes.
write_loop-Willing :
    (fuel : ℕ) (bs : List ℕ) (i : Inbound) (answers : List Answer) (sent : List ℕ)
    → length answers < fuel
    → let s : Socket = record { inbound = i; answers = answers; sent = sent } in
      ((write_loop fuel bs s).1.inbound ≡ i)
      × (Willing answers
          → ((write_loop fuel bs s).0 ≡ true) × Willing (write_loop fuel bs s).1.answers)
unfolding write_loop
write_loop-Willing fuel [] i answers sent h = (refl, λ w. (refl, w))
write_loop-Willing zero (b ∷ bs) i answers sent h = elim h [ ]
write_loop-Willing (suc fuel) (b ∷ bs) i [] sent h =
    rw (drop-length bs, write_loop) (refl, λ w. (refl, tt))
write_loop-Willing (suc fuel) (b ∷ bs) i (refuse ∷ rest) sent h = (refl, λ w. elim w [ ])
write_loop-Willing (suc fuel) (b ∷ bs) i (accept k ∷ rest) sent h =
    write_loop-Willing fuel (drop (length (take k (b ∷ bs))) (b ∷ bs)) i rest
      (sent ++ take k (b ∷ bs)) (omega arith)

-- `write_exactly` returns with all of the buffer sent, or fails with a proper prefix of it sent;
-- it takes nothing from the inbound bytes.
pub write_exactly_lem :
    (buf : List ℕ) (s : Socket)
    → Wrote buf s.sent (write_exactly buf s) × ((write_exactly buf s).1.inbound ≡ s.inbound)
unfolding write_exactly
write_exactly_lem buf s =
    let n = suc (length s.answers) in
    (
      write_loop-Wrote n buf s.inbound s.answers s.sent (omega arith),
      (write_loop-Willing n buf s.inbound s.answers s.sent (omega arith)).0,
    )

-- It succeeds where the kernel refuses no write.
pub write_exactly-Willing :
    (buf : List ℕ) (s : Socket)
    → Willing s.answers
    → ((write_exactly buf s).0 ≡ true) × Willing (write_exactly buf s).1.answers
unfolding write_exactly
write_exactly-Willing buf s =
    (write_loop-Willing (suc (length s.answers)) buf s.inbound s.answers s.sent (omega arith)).1

-- A packet grows by exactly the bytes given, if they fit into the buffer; else nothing is built.
pub build_packet_lem :
    (max_length : ℕ) (packet buf : List ℕ)
    → length packet + length buf < size_mod
    → build_packet max_length packet buf
      ≡ (if leb (length (packet ++ buf)) max_length then some (packet ++ buf) else none)
unfolding build_packet
build_packet_lem max_length packet buf h = ground (arith, length-append packet buf)
