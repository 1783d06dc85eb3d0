-- ===== src/Address.antt =====
-- `struct sockaddr_in`, its byte order, and what the resolver returns. The words are held as a
-- little-endian machine reads them from memory, so that network order is the order of their bytes.
use transproxify.Base.{ℕ, ◌+◌, ◌*◌, ◌/◌, ◌%◌, List, [], ◌∷◌, Bool, ◌&&◌, ◌==◌, take, drop}

pub record SockAddr : Type 0 where
  pub sin_family : ℕ
  pub sin_port : ℕ
  pub s_addr : ℕ
  pub sin_zero : ℕ

-- `= {}`
abbrev pub zero_address : SockAddr
zero_address = record { sin_family = 0; sin_port = 0; s_addr = 0; sin_zero = 0 }

abbrev pub af_inet : ℕ
af_inet = 2

-- `std::memcmp` of two whole structures finds no difference.
abbrev pub same_address : SockAddr → SockAddr → Bool
same_address a b =
    a.sin_family == b.sin_family
    && a.sin_port == b.sin_port
    && a.s_addr == b.s_addr
    && a.sin_zero == b.sin_zero

-- The memory of a uint16_t and of a uint32_t.
abbrev pub bytes16 : ℕ → List ℕ
bytes16 w = w % 256 ∷ w / 256 % 256 ∷ []

abbrev pub bytes32 : ℕ → List ℕ
bytes32 w = w % 256 ∷ w / 256 % 256 ∷ w / 65536 % 256 ∷ w / 16777216 % 256 ∷ []

-- The word read from bytes in memory; bytes that are missing are zero.
abbrev pub word : List ℕ → ℕ
word [] = 0
word (b ∷ bs) = b + 256 * word bs

-- The other byte order of a uint16_t: `htons` and `ntohs`.
unfoldable pub htons : ℕ → ℕ
htons w = w % 256 * 256 + w / 256 % 256

-- `struct hostent`; `h_length` is the length of `h_addr`.
pub record Hostent : Type 0 where
  pub h_addrtype : ℕ
  pub h_addr : List ℕ

-- `h_length` bytes copied to `&address.sin_addr.s_addr`, which `sin_zero` follows in memory.
abbrev pub copy_host : Hostent → SockAddr → SockAddr
copy_host server address = record address {
  s_addr = word (take 4 server.h_addr);
  sin_zero = word (take 8 (drop 4 server.h_addr));
}
