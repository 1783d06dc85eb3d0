-- ===== src/Tests/Util.antt =====
-- Util.hpp on concrete bytes.
use transproxify.Base.{◌≡◌, refl, [], ◌∷◌, false, codes, arith}
use transproxify.Wire.{
  Inbound, eof, broken, chunk, Socket, refuse, accept, got, failed, bytes, ends,
}
use transproxify.Util.{read_exactly, write_exactly, base64encode}
use transproxify.Util.Reading.{expected, read_exactly_lem}
use transproxify.Util.Writing.{Wrote, write_exactly_lem}
use transproxify.Util.Base64.{base64decode, base64decode-base64encode}

-- Five bytes in three chunks, then an error.
abbrev chunks : Inbound
chunks = chunk 1 (2 ∷ []) (chunk 3 [] (chunk 4 (5 ∷ []) broken))

read_across : read_exactly 4 chunks ≡ (got (1 ∷ 2 ∷ 3 ∷ 4 ∷ []), chunk 5 [] broken)
unfolding read_exactly
read_across = refl

read_broken : read_exactly 6 chunks ≡ (failed, broken)
unfolding read_exactly
read_broken = refl

read_exactly_lem_example :
    ((read_exactly 4 chunks).0 ≡ expected 4 [] (1 ∷ 2 ∷ 3 ∷ 4 ∷ 5 ∷ []) false)
    × (bytes (read_exactly 4 chunks).1 ≡ 5 ∷ [])
    × (ends (read_exactly 4 chunks).1 ≡ false)
read_exactly_lem_example = read_exactly_lem 4 chunks

-- A short write, and an error at the second call.
abbrev stalling : Socket
stalling = record { inbound = eof; answers = accept 2 ∷ refuse ∷ []; sent = 9 ∷ [] }

write_stalls :
    write_exactly (1 ∷ 2 ∷ 3 ∷ []) stalling
    ≡ (false, record { inbound = eof; answers = []; sent = 9 ∷ 1 ∷ 2 ∷ [] })
unfolding write_exactly
write_stalls = refl

write_exactly_lem_example :
    Wrote (1 ∷ 2 ∷ 3 ∷ []) (9 ∷ []) (write_exactly (1 ∷ 2 ∷ 3 ∷ []) stalling)
    × ((write_exactly (1 ∷ 2 ∷ 3 ∷ []) stalling).1.inbound ≡ eof)
write_exactly_lem_example = write_exactly_lem (1 ∷ 2 ∷ 3 ∷ []) stalling

base64_padded : base64encode (codes "Ma") ≡ codes "TWE="
unfolding base64encode
base64_padded = refl

base64decode-base64encode_example :
    base64decode (base64encode (codes "user:pass")) ≡ codes "user:pass"
base64decode-base64encode_example = base64decode-base64encode (codes "user:pass") (omega arith)
