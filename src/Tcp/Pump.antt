-- ===== src/Tcp/Pump.antt =====
-- One block of the relay: a read and the write of what was read.
use transproxify.Base.{
  ℕ, ◌<◌, ◌≤◌, ◌≡◌, refl, sym, ap, ◌∙◌, String, List, [], ◌∷◌, ◌++◌, Bool, true, false, arith, inl,
  inr, length, take, drop, take-append-drop, append_assoc, Outcome, ok, throw, length-append,
  length-drop,
}
use transproxify.Wire.{Inbound, eof, broken, chunk, Socket, Answer, bytes, pending, read, rechunk}
use transproxify.Util.{write_exactly}
use transproxify.Util.Reading.{bytes-rechunk}
use transproxify.Util.Writing.{Wrote, write_exactly_lem}
use transproxify.Tcp.{Pumped, pump, passed_on}

-- What is left of the bytes after one block: `lost` were read but not written.
abbrev pub Flow : List ℕ → Socket → Socket → Socket → Socket → Type 0
Flow lost from to from' to' = to'.sent ++ (lost ++ pending from') ≡ to.sent ++ pending from

-- What the outcome of a block tells of the socket read from, and of the bytes lost.
abbrev pub Read : Outcome Bool → List ℕ → Socket → Socket → Type 0
Read (throw e) lost from from' = Unit
Read (ok true) lost from from' = (lost ≡ []) × (length (pending from') < length (pending from))
Read (ok false) lost from from' = (lost ≡ []) × (pending from' ≡ [])

-- All that one block does.
abbrev pub Pumps : Socket → Socket → Pumped → Type 0
Pumps from to p =
    ((lost : List ℕ) × Flow lost from to p.from p.to × Read p.still_open lost from p.from)
    × (p.from.sent ≡ from.sent)
    × (p.to.inbound ≡ to.inbound)

drop-≤ : (n : ℕ) (bs : List ℕ) → length (drop n bs) ≤ length bs
drop-≤ n bs = omega (arith, length-drop n bs)

joined :
    {done' : List ℕ} (done xs ys : List ℕ) {all : List ℕ}
    → done' ≡ done ++ xs
    → xs ++ ys ≡ all
    → done' ++ ys ≡ done ++ all
joined done xs ys h k = ap (λ u. u ++ ys) h ∙ append_assoc done xs ys ∙ ap (λ u. done ++ u) k

fewer : {b : ℕ} (bs ys : List ℕ) {all : List ℕ} → (b ∷ bs) ++ ys ≡ all → length ys < length all
fewer bs ys h = omega (arith, ap length h, length-append bs ys)

passed_on-Pumps :
    (write_error : String) (from from' to : Socket) (b : ℕ) (bs : List ℕ) (r : Bool × Socket)
    → (b ∷ bs) ++ pending from' ≡ pending from
    → from'.sent ≡ from.sent
    → Wrote (b ∷ bs) to.sent r
    → r.1.inbound ≡ to.inbound
    → Pumps from to (passed_on write_error from' r)
unfolding passed_on
passed_on-Pumps write_error from from' to b bs (true, to') come same (inl (e, w)) kept = (
  ([], joined to.sent (b ∷ bs) (pending from') w come, (refl, fewer bs (pending from') come)),
  same,
  kept,
)
passed_on-Pumps write_error from from' to b bs (false, to') come same (inl (e, w)) kept = cc
passed_on-Pumps write_error from from' to b bs (true, to') come same (inr (p, q, e, rest, f, w))
      kept =
    cc
passed_on-Pumps write_error from from' to b bs (false, to') come same (inr (p, q, e, rest, f, w))
      kept =
    (
      (
        q,
        joined to.sent p (q ++ pending from') w
            (sym (append_assoc p q (pending from')) ∙ ap (λ u. u ++ pending from') (sym e) ∙ come),
        tt,
      ),
      same,
      kept,
    )

pump-chunk :
    (read_error write_error : String) (b : ℕ) (bs : List ℕ) (i : Inbound) (answers : List Answer)
    (sent : List ℕ) (to : Socket)
    → let from : Socket = record { inbound = chunk b bs i; answers = answers; sent = sent } in
      Pumps from to (pump read_error write_error from to)
unfolding pump read
pump-chunk read_error write_error b bs i answers sent to =
    let n : ℕ = 65535 in
    let w = write_exactly_lem (b ∷ take n bs) to in
    let come = bytes-rechunk (drop n bs) i in
    passed_on-Pumps write_error (record { inbound = chunk b bs i; answers = answers; sent = sent })
      (record { inbound = rechunk (drop n bs) i; answers = answers; sent = sent }) to b (take n bs)
      (write_exactly (b ∷ take n bs) to)
      (ap (λ u. (b ∷ take n bs) ++ u) come
        ∙ sym (append_assoc (b ∷ take n bs) (drop n bs) (bytes i))
        ∙ ap (λ u. b ∷ (u ++ bytes i)) (take-append-drop n bs))
      refl w.0 w.1

pub pump-Pumps :
    (read_error write_error : String) (i : Inbound) (answers : List Answer) (sent : List ℕ)
    (to : Socket)
    → let from : Socket = record { inbound = i; answers = answers; sent = sent } in
      Pumps from to (pump read_error write_error from to)
unfolding pump read
pump-Pumps read_error write_error eof answers sent to = (([], refl, (refl, refl)), refl, refl)
pump-Pumps read_error write_error broken answers sent to = (([], refl, tt), refl, refl)
pump-Pumps read_error write_error (chunk b bs i) answers sent to =
    pump-chunk read_error write_error b bs i answers sent to
