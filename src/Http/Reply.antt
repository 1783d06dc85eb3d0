-- ===== src/Http/Reply.antt =====
-- The reply as a function of the bytes that the proxy sends.
use transproxify.Base.{
  ℕ, zero, suc, ◌<◌, ◌≡◌, refl, sym, ap, ◌∙◌, inl, inr, List, [], ◌∷◌, ◌++◌, Bool, true, false,
  Option, none, some, String, arith, length, ◌==◌, if◌then◌else◌, Bool-cases, ok, throw, append-nil,
}
use transproxify.Wire.{
  Inbound, Answer, eof, broken, chunk, Socket, pending, bytes, ends, Willing, rechunk,
}
use transproxify.Util.Reading.{bytes-rechunk, ends-rechunk}
use transproxify.Upstream.Refines.{
  Transcript, Shows, Refines, pure_t, fail_t, bind_t, pure-Refines, fail-Refines, bind-Refines,
  if-Refines, Refines-ext,
}
use transproxify.Socks5.{c_string}
use transproxify.Socks5.Greeting.{answer}
use transproxify.Http.{
  char_loop, next_char, line_loop, status_code, drain_loop, drain, answered, get_http_proxy_status,
}

abbrev lost : String
lost = "upstream proxy connection lost before tunnelling"

-- The next character that is no carriage return.
abbrev char_t : List ℕ → Transcript ℕ
char_t [] = answer (throw lost) [] []
char_t (c ∷ rest) = let more = char_t rest in if c == b'\r' then more else answer (ok c) rest []

char_loop-Shows :
    (fuel : ℕ) (i : Inbound) (answers : List Answer) (sent : List ℕ)
    → length (bytes i) < fuel
    → Willing answers
    → Shows sent
        (char_loop fuel (record { inbound = i; answers = answers; sent = sent }))
        (char_t (bytes i))
unfolding char_loop
char_loop-Shows zero i answers sent h w = elim h [ ]
char_loop-Shows (suc fuel) eof answers sent h w = record {
  outcome = refl;
  rest = refl;
  sent = sym (append-nil sent);
  willing = w;
}
char_loop-Shows (suc fuel) broken answers sent h w = record {
  outcome = refl;
  rest = refl;
  sent = sym (append-nil sent);
  willing = w;
}
char_loop-Shows (suc fuel) (chunk b bs i) answers sent h w =
    let come = bytes-rechunk bs i in
    elim (Bool-cases (b == b'\r')) [
      | inl k ↦
          rw (k, char_loop, ← come)
            (char_loop-Shows fuel (rechunk bs i) answers sent (omega (arith, ap length come)) w)
      | inr k ↦
          rw (k, char_loop)
            (record { outcome = refl; rest = come; sent = sym (append-nil sent); willing = w })
    ]

char_loop-ends :
    (fuel : ℕ) (i : Inbound) (answers : List Answer) (sent : List ℕ)
    → let s : Socket = record { inbound = i; answers = answers; sent = sent } in
      ends (char_loop fuel s).1.inbound ≡ ends i
unfolding char_loop
char_loop-ends zero i answers sent = refl
char_loop-ends (suc fuel) eof answers sent = refl
char_loop-ends (suc fuel) broken answers sent = refl
char_loop-ends (suc fuel) (chunk b bs i) answers sent = elim (Bool-cases (b == b'\r')) [
  | inl k ↦ rw (k, char_loop) (char_loop-ends fuel (rechunk bs i) answers sent ∙ ends-rechunk bs i)
  | inr k ↦ rw (k, char_loop) (ends-rechunk bs i)
]

char-Refines : Refines next_char char_t
unfolding next_char
char-Refines = record {
  shows =
      λ s w. char_loop-Shows (suc (length (pending s))) s.inbound s.answers s.sent (omega arith) w;
  ending = λ s. char_loop-ends (suc (length (pending s))) s.inbound s.answers s.sent;
}

-- The text up to the next line feed, which fits into the room that is left.
abbrev pub line_reply : ℕ → List ℕ → List ℕ → Transcript (List ℕ)
line_reply zero line p = answer (throw "upstream proxy response too large") p []
line_reply (suc room) line [] = answer (throw lost) [] []
line_reply (suc room) line (c ∷ p) =
    let skip = line_reply (suc room) line p in
    let more = line_reply room (line ++ c ∷ []) p in
    if c == b'\r' then skip else if c == b'\n' then answer (ok line) p [] else more

-- The bytes up to and with an empty line; the flag tells that a line begins here.
abbrev pub drain_reply : Bool → List ℕ → Transcript (Unit {0})
drain_reply newline [] = answer (throw lost) [] []
drain_reply newline (c ∷ p) =
    let skip = drain_reply newline p in
    let begin = drain_reply true p in
    let within = drain_reply false p in
    if c == b'\r'
    then skip
    else if c == b'\n'
    then (if newline then answer (ok tt) p [] else begin)
    else within

line-eq :
    (room : ℕ) (line p : List ℕ)
    → bind_t char_t (λ c. if c == b'\n' then pure_t line else line_reply room (line ++ c ∷ [])) p
      ≡ line_reply (suc room) line p
line-eq room line [] = refl
line-eq room line (c ∷ p) = elim (Bool-cases (c == b'\r')) [
  | inl k ↦ rw k (line-eq room line p)
  | inr k ↦ rw k (elim (Bool-cases (c == b'\n')) [ inl j ↦ rw j | inr j ↦ rw j ])
]

line-Refines : (room : ℕ) (line : List ℕ) → Refines (line_loop room line) (line_reply room line)
unfolding line_loop
line-Refines zero line = fail-Refines _
line-Refines (suc room) line =
    Refines-ext
      (bind-Refines char-Refines
        λ c. if-Refines (c == b'\n') (pure-Refines line) (line-Refines room (line ++ c ∷ [])))
      (line-eq room line)

abbrev drain_t : ℕ → Bool → List ℕ → Transcript (Unit {0})
drain_t zero newline = fail_t lost
drain_t (suc fuel) newline = bind_t char_t λ c.
    if c == b'\n' then (if newline then pure_t tt else drain_t fuel true) else drain_t fuel false

drain_loop-Refines :
    (fuel : ℕ) (newline : Bool) → Refines (drain_loop fuel newline) (drain_t fuel newline)
unfolding drain_loop
drain_loop-Refines zero newline = fail-Refines _
drain_loop-Refines (suc fuel) newline = bind-Refines char-Refines λ c.
    if-Refines (c == b'\n') (if-Refines newline (pure-Refines tt) (drain_loop-Refines fuel true))
      (drain_loop-Refines fuel false)

-- Enough fuel is given.
drain_t-eq :
    (fuel : ℕ) (newline : Bool) (p : List ℕ)
    → length p < fuel
    → drain_t fuel newline p ≡ drain_reply newline p
drain_t-eq zero newline p h = elim h [ ]
drain_t-eq (suc fuel) newline [] h = refl
drain_t-eq (suc fuel) newline (c ∷ p) h = elim (Bool-cases (c == b'\r')) [
  | inl k ↦ rw k (drain_t-eq (suc fuel) newline p (omega arith))
  | inr k ↦ rw k (elim (Bool-cases (c == b'\n')) [
    | inl j ↦ rw j (elim (Bool-cases newline) [
      | inl n ↦ rw n
      | inr n ↦ rw n (drain_t-eq fuel true p (omega arith))
    ])
    | inr j ↦ rw j (drain_t-eq fuel false p (omega arith))
  ])
]

drain-Refines : Refines drain (drain_reply true)
unfolding drain
drain-Refines = record {
  shows = λ s w.
      let n = suc (length (pending s)) in
      rw (← drain_t-eq n true (pending s) (omega arith)) ((drain_loop-Refines n true).shows s w);
  ending = λ s. (drain_loop-Refines (suc (length (pending s))) true).ending s;
}

-- The status line, then the rest of the reply up to its empty line.
abbrev pub code_reply : Option ℕ → List ℕ → Transcript ℕ
code_reply none p = answer (throw "upstream proxy protocol mismatch") p []
code_reply (some code) p = bind_t (drain_reply true) (λ _. pure_t code) p

abbrev pub status_reply : List ℕ → Transcript ℕ
status_reply = bind_t (line_reply 256 []) (λ line. code_reply (status_code (c_string line)))

answered-Refines : (code : Option ℕ) → Refines (answered code) (code_reply code)
unfolding answered
answered-Refines none = fail-Refines _
answered-Refines (some code) = bind-Refines drain-Refines λ _. pure-Refines code

pub status-Refines : Refines get_http_proxy_status status_reply
unfolding get_http_proxy_status
status-Refines = bind-Refines (line-Refines 256 []) λ line. answered-Refines _

-- If the kernel refuses no write, then the reading of the reply does what `status_reply` tells of
-- the bytes to come, whatever the chunks they arrive in: the status code or the error, and the
-- bytes left unread.
pub get_http_proxy_status_lem :
    (s : Socket)
    → Willing s.answers
    → Shows s.sent (get_http_proxy_status s) (status_reply (pending s))
get_http_proxy_status_lem s w = status-Refines.shows s w
