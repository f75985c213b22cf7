-- ===== src/ConnectionPool/Frame.antt =====
-- TransLayer::HandleMsgStream: frames in the bytes that the collector agent sends. A frame is a
-- header of two uint32_t in network order, the type and the length of the body, and the body. The
-- callbacks of the routes act on a state of their own.
pub mod Bytes
pub mod Stream
pub mod Stops
use pinpoint_c_agent.Base.{
  ℕ, zero, suc, ◌+◌, ◌-◌, ◌*◌, ◌^◌, Bool, true, false, not, List, [], ◌∷◌, Option, none, some, ltb,
  if◌then◌else◌, ℤ, pos, negsuc, eqb_ℤ, length, take, drop,
}

abbrev pub in_msg_buf_size : ℕ
in_msg_buf_size = 4096

-- sizeof(Header).
abbrev pub header_size : ℕ
header_size = 8

-- ntohl of the four bytes at the front. (The code reads it where there are eight.)
unfoldable pub ntohl : List ℕ → ℕ
ntohl (a ∷ b ∷ c ∷ d ∷ rest) = a * 2 ^ 24 + b * 2 ^ 16 + c * 2 ^ 8 + d
ntohl bytes = 0

module _ {S : Type 0} (route : ℕ → Option (List ℕ → S → ℤ × S)) where
  -- The callback of a message: whether the stream goes on, and the state.
  abbrev pub call : Option (List ℕ → S → ℤ × S) → List ℕ → S → Bool × S
  call none body s = (true, s)
  call (some handler) body s = let (ret, s') = handler body s in (not (eqb_ℤ ret (negsuc 0)), s')

  -- The loop at `offset`, where `rest` is what the buffer holds from there on, with fuel; `none`
  -- means that the fuel ran out, and -1 is a fatal error.
  unfoldable pub msg_loop : ℕ → ℕ → List ℕ → S → Option (ℤ × S)
  msg_loop zero offset rest s = none
  msg_loop (suc fuel) offset rest s =
      let body_len = ntohl (drop 4 rest) in
      let frame_size = header_size + body_len in
      let (goes_on, s') = call (route (ntohl rest)) (take body_len (drop header_size rest)) s in
      let next = msg_loop fuel (offset + frame_size) (drop frame_size rest) s' in
      if ltb (length rest) header_size
      then some (pos offset, s)
      else (if ltb (in_msg_buf_size - header_size) body_len
          then some (negsuc 0, s)
          else (if ltb (length rest) frame_size
              then some (pos offset, s)
              else (if goes_on then next else some (negsuc 0, s'))))

  -- Each frame takes at least its header, so the length is enough fuel.
  unfoldable pub handle_msg_stream : List ℕ → S → Option (ℤ × S)
  handle_msg_stream buf s = msg_loop (suc (length buf)) 0 buf s
