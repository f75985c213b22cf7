-- ===== src/ConnectionPool/Connect.antt =====
-- TransLayer.cpp and sockets.h: opening a connection. What the operating system does is the
-- interface `Sockets`, on a state of the kernel; texts are lists of bytes.
use pinpoint_c_agent.Base.{
  ℕ, zero, suc, ◌-◌, Bool, not, ◌&&◌, ◌||◌, List, [], ◌∷◌, Option, none, some, leb, ◌==◌,
  if◌then◌else◌, ℤ, pos, negsuc, eqb_ℤ, ltb_ℤ, sub_ℕ, length, take, drop,
}
use pinpoint_c_agent.ConnectionPool.Send.{SendResult}
use pinpoint_c_agent.ConnectionPool.Receive.{RecvResult}

-- errno on Linux.
abbrev pub eintr : ℕ
eintr = 4

abbrev pub eagain : ℕ
eagain = 11

abbrev pub ealready : ℕ
ealready = 114

abbrev pub einprogress : ℕ
einprogress = 115

-- (EWOULDBLOCK is EAGAIN.)
unfoldable pub nonblock_error : ℕ → Bool
nonblock_error code = code == eagain || code == eintr || code == einprogress

-- What connect(2) returns: 0, or -1 with an errno.
pub data ConnectResult : Type 0 where
  connected : ConnectResult
  refused : ℕ → ConnectResult

-- What select(2) returns: -1, 0, or the sets of a descriptor that is ready.
pub data SelectResult : Type 0 where
  select_failed timed_out : SelectResult
  ready : (readable writable failed : Bool) → SelectResult

-- The calls that the library makes. An address is what getaddrinfo made of a host and a port, and a
-- descriptor of socket(2) is -1 on an error. select(2) gets the descriptor, whether it is in the
-- set for writing, and the two fields of its time limit.
pub record Sockets (K : Type 0) : Type 0 where
  pub time : K → ℕ × K
  pub getaddrinfo : List ℕ → List ℕ → K → Option (List ℕ) × K
  pub socket : K → ℤ × K
  pub connect : ℤ → ℕ → K → ConnectResult × K
  pub socket_unix : K → ℤ × K
  pub connect_unix : ℤ → List ℕ → K → ConnectResult × K
  pub close : ℤ → K → K
  pub select : ℤ → Bool → ℕ → ℤ → K → SelectResult × K
  pub send : ℤ → List ℕ → K → SendResult × K
  pub recv : ℤ → ℕ → K → RecvResult × K

abbrev pub invalid_socket : ℤ
invalid_socket = negsuc 0

-- std::toupper in the C locale.
unfoldable pub to_upper : ℕ → ℕ
to_upper c = if leb b'a' c && leb c b'z' then c - 32 else c

-- Zero where `s2`, up to its end and without regard to case, is a prefix of `s1`.
unfoldable pub strcasecmp_ : List ℕ → List ℕ → ℤ
unfolding to_upper
strcasecmp_ s1 [] = pos 0
strcasecmp_ [] (c ∷ s2) = negsuc 0
strcasecmp_ (a ∷ s1) (c ∷ s2) = if to_upper a == to_upper c then strcasecmp_ s1 s2 else sub_ℕ a c

abbrev pub unix_socket : List ℕ
unix_socket = b'u' ∷ b'n' ∷ b'i' ∷ b'x' ∷ b':' ∷ []

abbrev pub tcp_socket : List ℕ
tcp_socket = b't' ∷ b'c' ∷ b'p' ∷ b':' ∷ []

abbrev pub byte_at : List ℕ → ℕ → ℕ
byte_at [] i = 0
byte_at (c ∷ cs) zero = c
byte_at (c ∷ cs) (suc i) = byte_at cs i

-- The search for the last ':' from the offset on downwards; it gives up at offset 0, and looks
-- there only if it begins there.
unfoldable pub colon_before : ℕ → List ℕ → Option ℕ
colon_before zero remote = if byte_at remote 0 == b':' then some 0 else none
colon_before (suc zero) remote = if byte_at remote 1 == b':' then some 1 else none
colon_before (suc (suc offset)) remote =
    let rest = colon_before (suc offset) remote in
    if byte_at remote (suc (suc offset)) == b':' then some (suc (suc offset)) else rest

module _ {K : Type 0} (sys : Sockets K) where
  -- The addresses in turn; a socket whose connection fails is closed.
  unfoldable pub connect_loop : List ℕ → ℤ → K → ℤ × K
  connect_loop [] sfd k = (sfd, k)
  connect_loop (a ∷ rest) sfd k =
      let (fd, k₁) = sys.socket k in
      let (answer, k₂) = sys.connect fd a k₁ in
      let skipped = connect_loop rest fd k₁ in
      let next = connect_loop rest invalid_socket (sys.close fd k₂) in
      if eqb_ℤ fd (negsuc 0) then skipped else elim answer [
        | connected ↦ (fd, k₂)
        | refused code ↦ if nonblock_error code then (fd, k₂) else next
      ]

  abbrev pub connect_addresses : Option (List ℕ) × K → ℤ × K
  connect_addresses (none, k) = (negsuc 0, k)
  connect_addresses (some addresses, k) = connect_loop addresses invalid_socket k

  -- (Of the empty text the code reads the byte before it; it has no ':' here.)
  abbrev pub connect_host : Option ℕ → List ℕ → K → ℤ × K
  connect_host none remote k = (negsuc 0, k)
  connect_host (some offset) remote k =
      connect_addresses (sys.getaddrinfo (take offset remote) (drop (suc offset) remote) k)

  unfoldable pub connect_stream_remote : List ℕ → K → ℤ × K
  connect_stream_remote remote k = connect_host (colon_before (length remote - 1) remote) remote k

  -- ERR_NETWORK of connect_unix_remote.
  abbrev pub close_positive : ℤ → K → K
  close_positive fd k = if ltb_ℤ (pos 0) fd then sys.close fd k else k

  -- A path has 107 bytes at most.
  unfoldable pub connect_unix_remote : List ℕ → K → ℤ × K
  connect_unix_remote remote k =
      let (fd, k₁) = sys.socket_unix k in
      let (answer, k₂) = sys.connect_unix fd (take 107 remote) k₁ in
      if ltb_ℤ fd (pos 0) then (negsuc 0, close_positive fd k₁) else elim answer [
        | connected ↦ (fd, k₂)
        | refused code ↦
            if not (code == ealready) || not (code == einprogress)
            then (negsuc 0, close_positive fd k₂)
            else (fd, k₂)
      ]
