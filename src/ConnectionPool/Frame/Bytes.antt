-- ===== src/ConnectionPool/Frame/Bytes.antt =====
-- Frames as they are written: the specification of the stream.
use pinpoint_c_agent.Base.{
  ℕ, ◌+◌, ◌-◌, ◌/◌, ◌%◌, ◌^◌, ◌≤◌, ◌<◌, ◌≡◌, List, [], ◌∷◌, ◌++◌, arith, length,
}
use pinpoint_c_agent.ConnectionPool.Frame.{ntohl, header_size, in_msg_buf_size}

-- The four bytes of a uint32_t in network order.
abbrev pub htonl : ℕ → List ℕ
htonl n = n / 2 ^ 24 % 256 ∷ n / 2 ^ 16 % 256 ∷ n / 2 ^ 8 % 256 ∷ n % 256 ∷ []

pub ntohl-htonl : (n : ℕ) (rest : List ℕ) → n < 2 ^ 32 → ntohl (htonl n ++ rest) ≡ n
unfolding ntohl
ntohl-htonl n rest h = omega arith

pub record Message : Type 0 where
  pub kind : ℕ
  pub body : List ℕ

abbrev pub frame : Message → List ℕ
frame m = htonl m.kind ++ (htonl (length m.body) ++ m.body)

-- A message that the peer accepts.
pub record IsMessage (m : Message) : Type 0 where
  pub kind : m.kind < 2 ^ 32
  pub short : length m.body ≤ in_msg_buf_size - header_size

abbrev pub encode : List Message → List ℕ
encode [] = []
encode (m ∷ ms) = frame m ++ encode ms

abbrev pub AllMessages : List Message → Type 0
AllMessages [] = Unit
AllMessages (m ∷ ms) = IsMessage m × AllMessages ms

pub length-frame : (m : Message) → length (frame m) ≡ header_size + length m.body
length-frame m = omega arith
