-- ===== src/Upstream/Refines.antt =====
-- The exchange seen from outside: what it does is a function of the bytes that arrive, whatever
-- the chunks they arrive in and however the writes are accepted.
use mathlib.Core.Path.{subst, fun_ext}
use transproxify.Base.{
  ℕ, ◌≡◌, refl, sym, ap, ◌∙◌, inl, inr, String, List, [], ◌++◌, Bool, true, false, arith, length,
  take, drop, leb, if◌then◌else◌, Outcome, ok, throw, append-nil, append_assoc, length-take,
}
use transproxify.Wire.{Socket, bytes, ends, pending, Willing}
use transproxify.Util.{write_exactly}
use transproxify.Util.Reading.{read_exactly_lem, expected}
use transproxify.Util.Writing.{Wrote, write_exactly_lem, write_exactly-Willing}
use transproxify.Upstream.{M, pure, fail, resume, ◌>>=◌, require, receive, received, send}

-- From the bytes to come: the outcome, the bytes left unread, and the bytes sent.
pub record Transcript (A : Type 0) : Type 0 where
  pub outcome : Outcome A
  pub rest : List ℕ
  pub sent : List ℕ

-- The result of `m` is the one that `f` tells, and its writes are those of `f`.
pub record Shows {A : Type 0} (before : List ℕ) (r : Outcome A × Socket) (t : Transcript A)
    : Type 0 where
  pub outcome : r.0 ≡ t.outcome
  pub rest : pending r.1 ≡ t.rest
  pub sent : r.1.sent ≡ before ++ t.sent
  pub willing : Willing r.1.answers

-- On every socket that refuses no write; and the way the stream ends stays as it is.
pub record Refines {A : Type 0} (m : M A) (f : List ℕ → Transcript A) : Type 0 where
  pub shows : (s : Socket) → Willing s.answers → Shows s.sent (m s) (f (pending s))
  pub ending : (s : Socket) → ends (m s).1.inbound ≡ ends s.inbound

abbrev pub pure_t : {A : Type 0} → A → List ℕ → Transcript A
pure_t a p = record { outcome = ok a; rest = p; sent = [] }

abbrev pub fail_t : {A : Type 0} → String → List ℕ → Transcript A
fail_t e p = record { outcome = throw e; rest = p; sent = [] }

abbrev pub require_t : Bool → String → List ℕ → Transcript (Unit {0})
require_t true e p = pure_t tt p
require_t false e p = fail_t e p

abbrev pub receive_t : ℕ → String → List ℕ → Transcript (List ℕ)
receive_t n e p = record {
  outcome = if leb n (length p) then ok (take n p) else throw e;
  rest = drop n p;
  sent = [];
}

abbrev pub send_t : List ℕ → List ℕ → Transcript (Unit {0})
send_t buffer p = record { outcome = ok tt; rest = p; sent = buffer }

abbrev after_t : {B : Type 0} → List ℕ → Transcript B → Transcript B
after_t first t = record t { sent = first ++ t.sent }

abbrev resume_t :
    {A B : Type 0} → Outcome A → List ℕ → List ℕ → (A → List ℕ → Transcript B) → Transcript B
resume_t (ok a) rest sent g = after_t sent (g a rest)
resume_t (throw e) rest sent g = record { outcome = throw e; rest = rest; sent = sent }

abbrev pub bind_t :
    {A B : Type 0} → (List ℕ → Transcript A) → (A → List ℕ → Transcript B) → List ℕ → Transcript B
bind_t f g p = let t = f p in resume_t t.outcome t.rest t.sent g

resume-sent :
    {A B : Type 0} (o : Outcome A) (rest sent : List ℕ) (g : A → List ℕ → Transcript B)
    → sent ≡ []
    → ((a : A) (p : List ℕ) → (g a p).sent ≡ [])
    → (resume_t o rest sent g).sent ≡ []
resume-sent (ok a) rest sent g e h = rw e (h a rest)
resume-sent (throw m) rest sent g e h = e

-- Parts that send nothing send nothing together.
pub bind_t-sent :
    {A B : Type 0} (f : List ℕ → Transcript A) (g : A → List ℕ → Transcript B) (p : List ℕ)
    → (f p).sent ≡ []
    → ((a : A) (p : List ℕ) → (g a p).sent ≡ [])
    → (bind_t f g p).sent ≡ []
bind_t-sent f g p e h = resume-sent (f p).outcome (f p).rest (f p).sent g e h

module _ {A : Type 0} where
  pub pure-Refines : (a : A) → Refines (pure a) (pure_t a)
  pure-Refines a = record {
    shows =
        λ s w. record { outcome = refl; rest = refl; sent = sym (append-nil s.sent); willing = w };
    ending = λ s. refl;
  }

  pub fail-Refines : (e : String) → Refines {A = A} (fail e) (fail_t e)
  fail-Refines e = record {
    shows =
        λ s w. record { outcome = refl; rest = refl; sent = sym (append-nil s.sent); willing = w };
    ending = λ s. refl;
  }

pub require-Refines : (b : Bool) (e : String) → Refines (require b e) (require_t b e)
require-Refines true e = pure-Refines tt
require-Refines false e = fail-Refines e

module _ {A B : Type 0} where
  resume-Shows :
      (before : List ℕ) (r : Outcome A × Socket) (o : Outcome A) (rest sent : List ℕ) (k : A → M B)
      (g : A → List ℕ → Transcript B)
      → Shows before r (record { outcome = o; rest = rest; sent = sent })
      → ((a : A) → Refines (k a) (g a))
      → Shows before (resume r k) (resume_t o rest sent g)
  resume-Shows before (ok a, s) (ok b) rest sent k g h later =
      let v = (later a).shows s h.willing in
      let e : a ≡ b = ground (arith, h.outcome) in
      record {
        outcome = rw (← e, ← h.rest) v.outcome;
        rest = rw (← e, ← h.rest) v.rest;
        sent =
            rw (← e, ← h.rest)
              (v.sent ∙ rw h.sent (append_assoc before sent (g a (pending s)).sent));
        willing = v.willing;
      }
  resume-Shows before (throw e, s) (throw e') rest sent k g h later = record {
    outcome = ground (arith, h.outcome);
    rest = h.rest;
    sent = h.sent;
    willing = h.willing;
  }
  resume-Shows before (throw e, s) (ok b) rest sent k g h later = absurd (cc h.outcome)
  resume-Shows before (ok a, s) (throw e) rest sent k g h later = absurd (cc h.outcome)

  resume-ending :
      (ended : Bool) (r : Outcome A × Socket) (k : A → M B) (g : A → List ℕ → Transcript B)
      → ends r.1.inbound ≡ ended
      → ((a : A) → Refines (k a) (g a))
      → ends (resume r k).1.inbound ≡ ended
  resume-ending ended (ok a, s) k g h later = (later a).ending s ∙ h
  resume-ending ended (throw e, s) k g h later = h

  pub bind-Refines :
      {m : M A} {f : List ℕ → Transcript A} {k : A → M B} {g : A → List ℕ → Transcript B}
      → Refines m f
      → ((a : A) → Refines (k a) (g a))
      → Refines (m >>= k) (bind_t f g)
  bind-Refines {m} {f} {k} {g} h later = record {
    shows = λ s w.
        let t = f (pending s) in
        resume-Shows s.sent (m s) t.outcome t.rest t.sent k g (h.shows s w) later;
    ending = λ s. resume-ending (ends s.inbound) (m s) k g (h.ending s) later;
  }

received-expected :
    (n : ℕ) (e : String) (xs : List ℕ) (ended : Bool)
    → received (expected n [] xs ended) n e
      ≡ (if leb n (length xs) then ok (take n xs) else throw e)
unfolding received
received-expected n e xs ended = ground (arith, length-take n xs)

pub receive-Refines : (n : ℕ) (e : String) → Refines (receive n e) (receive_t n e)
unfolding receive
receive-Refines n e = record {
  shows = λ s w.
      let (r, i, _) = read_exactly_lem n s.inbound in
      record {
        outcome = rw r (received-expected n e (pending s) (ends s.inbound));
        rest = i;
        sent = sym (append-nil s.sent);
        willing = w;
      };
  ending = λ s. (read_exactly_lem n s.inbound).2;
}

Wrote-sent :
    (buffer before : List ℕ) (r : Bool × Socket)
    → Wrote buffer before r
    → r.0 ≡ true
    → r.1.sent ≡ before ++ buffer
Wrote-sent buffer before (done, s) (inl (_, sent)) h = sent
Wrote-sent buffer before (done, s) (inr (_, _, _, _, undone, _)) h = absurd (cc undone)

pub send-Refines : (buffer : List ℕ) (e : String) → Refines (send buffer e) (send_t buffer)
unfolding send
send-Refines buffer e = record {
  shows = λ s w.
      let (wrote, i) = write_exactly_lem buffer s in
      let (done, w') = write_exactly-Willing buffer s w in
      record {
        outcome = rw done;
        rest = ap bytes i;
        sent = Wrote-sent buffer s.sent (write_exactly buffer s) wrote done;
        willing = w';
      };
  ending = λ s. ap ends (write_exactly_lem buffer s).1;
}

module _ {A : Type 0} where
  pub if-Refines :
      {m n : M A} {f g : List ℕ → Transcript A} (b : Bool)
      → Refines m f
      → Refines n g
      → Refines (if b then m else n) (if b then f else g)
  if-Refines true h k = h
  if-Refines false h k = k

  -- The transcript may be told in another way.
  pub Refines-ext :
      {m : M A} {f g : List ℕ → Transcript A}
      → Refines m f
      → ((p : List ℕ) → f p ≡ g p)
      → Refines m g
  Refines-ext {m} h e = subst (Refines m) (fun_ext e) h
