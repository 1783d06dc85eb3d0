-- ===== src/Wire.antt =====
-- A stream socket as the code sees it through `read` and `write`. What the kernel answers is an
-- input: the chunks that arrive, and how much of each write is accepted. Any series of short reads
-- and short writes is such a value.
use transproxify.Base.{ℕ, zero, suc, List, [], ◌∷◌, ◌++◌, Bool, true, false, take, drop}

-- What the peer still sends: chunks of at least one byte, then the end of the stream or an error.
pub data Inbound : Type 0 where
  eof broken : Inbound
  chunk : ℕ → List ℕ → Inbound → Inbound

-- How the kernel answers one `write`: an error, or at most so many bytes accepted.
pub data Answer : Type 0 where
  refuse : Answer
  accept : ℕ → Answer

-- When the answers are used up, the kernel accepts each write whole.
pub record Socket : Type 0 where
  pub inbound : Inbound
  pub answers : List Answer
  pub sent : List ℕ

-- What `read` or `read_exactly` returns: -1, or the bytes put into the buffer.
pub data Got : Type 0 where
  failed : Got
  got : List ℕ → Got

abbrev pub rechunk : List ℕ → Inbound → Inbound
rechunk [] i = i
rechunk (b ∷ bs) i = chunk b bs i

-- `read` takes at most n bytes of the first chunk.
unfoldable pub read : ℕ → Inbound → Got × Inbound
read zero i = (got [], i)
read (suc n) eof = (got [], eof)
read (suc n) broken = (failed, broken)
read (suc n) (chunk b bs i) = (got (b ∷ take n bs), rechunk (drop n bs) i)

-- All bytes that will still arrive.
abbrev pub bytes : Inbound → List ℕ
bytes eof = []
bytes broken = []
bytes (chunk b bs i) = b ∷ (bs ++ bytes i)

-- Whether the stream ends with an end of file.
abbrev pub ends : Inbound → Bool
ends eof = true
ends broken = false
ends (chunk b bs i) = ends i

abbrev pub pending : Socket → List ℕ
pending s = bytes s.inbound

-- The kernel refuses no write.
abbrev pub Willing : List Answer → Type 0
Willing [] = Unit {0}
Willing (refuse ∷ rest) = ⊥
Willing (accept k ∷ rest) = Willing rest
