-- ===== src/Util.antt =====
-- Util.hpp: exact reads and writes, packets, base64.
pub mod Reading
pub mod Writing
pub mod Base64
use transproxify.Base.{
  ℕ, zero, suc, ◌+◌, ◌-◌, ◌*◌, ◌/◌, ◌%◌, ◌^◌, List, [], ◌∷◌, ◌++◌, Bool, true, false, Option, none,
  some, bit_and, length, take, drop, get_or, codes, ltb, if◌then◌else◌,
}
use transproxify.Wire.{Inbound, Answer, refuse, accept, Socket, Got, failed, got, read}

-- The loop of `read_exactly`: `left` is count - i, `buffer` the bytes read so far. Each round but
-- the last reads a byte at least, so that `left` rounds are enough.
read_loop : ℕ → ℕ → List ℕ → Inbound → Got × Inbound
unfolding read
read_loop zero left buffer i = (got buffer, i)
read_loop (suc fuel) zero buffer i = (got buffer, i)
read_loop (suc fuel) (suc left) buffer i =
    let (r, i') = read (suc left) i in
    elim r [
      | failed ↦ (failed, i')
      | got [] ↦ (got buffer, i')
      | got (b ∷ bs) ↦ read_loop fuel (left - length bs) (buffer ++ b ∷ bs) i'
    ]

unfoldable pub read_exactly : ℕ → Inbound → Got × Inbound
unfolding read_loop
read_exactly count i = read_loop count count [] i

-- size_t has 64 bits.
abbrev pub size_mod : ℕ
size_mod = 2 ^ 64

-- The packet so far stands for the buffer and its length. `none` is the result -1.
unfoldable pub build_packet : ℕ → List ℕ → List ℕ → Option (List ℕ)
build_packet max_length packet buf =
    if ltb max_length ((length packet + length buf) % size_mod) then none else some (packet ++ buf)

-- One `write`: -1, or the number of bytes accepted; these are sent.
unfoldable pub write : List ℕ → Socket → Option ℕ × Socket
write buf s = elim s.answers [
  | [] ↦ (some (length buf), record s { sent = s.sent ++ buf })
  | refuse ∷ rest ↦ (none, record s { answers = rest })
  | accept k ∷ rest ↦
      (some (length (take k buf)), record s { answers = rest; sent = s.sent ++ take k buf })
]

-- The loop of `write_exactly` over the bytes that are left. Each round uses up one answer.
write_loop : ℕ → List ℕ → Socket → Bool × Socket
unfolding write
write_loop fuel [] s = (true, s)
write_loop zero (b ∷ bs) s = (false, s)
write_loop (suc fuel) (b ∷ bs) s =
    let (r, s') = write (b ∷ bs) s in
    elim r [ none ↦ (false, s') | some n ↦ write_loop fuel (drop n (b ∷ bs)) s' ]

-- False is the result -1.
unfoldable pub write_exactly : List ℕ → Socket → Bool × Socket
unfolding write_loop
write_exactly buf s = write_loop (suc (length s.answers)) buf s

abbrev base64_values : List ℕ
base64_values = codes "ABCDEFGHIJKLMNOPQRSTUVWXYZabcdefghijklmnopqrstuvwxyz0123456789+/"

base64_value : ℕ → ℕ
base64_value k = get_or base64_values k 0

-- The loop over three bytes at a time, and the switch on the bytes left over.
unfoldable pub base64encode : List ℕ → List ℕ
unfolding base64_value
base64encode (a ∷ b ∷ c ∷ rest) =
    base64_value (bit_and a 0b11111100 / 4)
    ∷ base64_value (bit_and a 0b00000011 * 16 + bit_and b 0b11110000 / 16)
    ∷ base64_value (bit_and b 0b00001111 * 4 + bit_and c 0b11000000 / 64)
    ∷ base64_value (bit_and c 0b00111111)
    ∷ base64encode rest
base64encode [] = []
base64encode (a ∷ []) =
    base64_value (bit_and a 0b11111100 / 4)
    ∷ base64_value (bit_and a 0b00000011 * 16)
    ∷ b'='
    ∷ b'='
    ∷ []
base64encode (a ∷ b ∷ []) =
    base64_value (bit_and a 0b11111100 / 4)
    ∷ base64_value (bit_and a 0b00000011 * 16 + bit_and b 0b11110000 / 16)
    ∷ base64_value (bit_and b 0b00001111 * 4)
    ∷ b'='
    ∷ []
