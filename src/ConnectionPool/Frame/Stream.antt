-- ===== src/ConnectionPool/Frame/Stream.antt =====
-- TransLayer::HandleMsgStream against the frames as they are written.
use pinpoint_c_agent.Base.{
  ℕ, zero, suc, ◌+◌, ◌-◌, ◌≤◌, ◌<◌, ◌≡◌, sym, ap, ◌∙◌, ◌⊎◌, inl, inr, Bool, true, List, [], ◌∷◌,
  ◌++◌, Option, some, ℤ, pos, negsuc, ltb, if◌then◌else◌, arith, length, length-append, take, drop,
  take-append_length, drop-append_length, append_assoc, Bool-cases, lt→ltb, le→ltb_false,
}
use pinpoint_c_agent.ConnectionPool.Frame.{
  ntohl, header_size, in_msg_buf_size, call, msg_loop, handle_msg_stream,
}
use pinpoint_c_agent.ConnectionPool.Frame.Bytes.{
  htonl, ntohl-htonl, Message, frame, IsMessage, encode, AllMessages, length-frame,
}

-- Bytes that are less than a frame: no header, or a header with a valid length and a part of the
-- body.
abbrev pub IsIncomplete : List ℕ → Type 0
IsIncomplete rest =
    (length rest < header_size)
    ⊎ ((ntohl (drop 4 rest) ≤ in_msg_buf_size - header_size)
        × (length rest < header_size + ntohl (drop 4 rest)))

abbrev pub body_len : List ℕ → ℕ
body_len rest = ntohl (drop 4 rest)

module _ {S : Type 0} (route : ℕ → Option (List ℕ → S → ℤ × S)) where
  abbrev pub call_of : Message → S → Bool × S
  call_of m s = call route (route m.kind) m.body s

  -- The callbacks of the messages, in order.
  abbrev pub handled : List Message → S → S
  handled [] s = s
  handled (m ∷ ms) s = handled ms (call_of m s).1

  -- No callback of the messages returns -1.
  abbrev pub AllAccepted : List Message → S → Type 0
  AllAccepted [] s = Unit
  AllAccepted (m ∷ ms) s = ((call_of m s).0 ≡ true) × AllAccepted ms (call_of m s).1

  abbrev pub called : List ℕ → S → Bool × S
  called rest s = call route (route (ntohl rest)) (take (body_len rest) (drop header_size rest)) s

  -- The loop at a frame that is complete.
  pub msg_loop_complete :
      (fuel offset : ℕ) (rest : List ℕ) (s : S)
      → header_size ≤ length rest
      → body_len rest ≤ in_msg_buf_size - header_size
      → header_size + body_len rest ≤ length rest
      → msg_loop route (suc fuel) offset rest s ≡ (
          if (called rest s).0
          then msg_loop route fuel
              (offset + (header_size + body_len rest))
              (drop (header_size + body_len rest) rest)
              (called rest s).1
          else some (negsuc 0, (called rest s).1))
  unfolding msg_loop
  msg_loop_complete fuel offset rest s h k l =
      rw (le→ltb_false _ _ h, le→ltb_false _ _ k, le→ltb_false _ _ l)

  -- The loop at less than a frame.
  pub msg_loop_incomplete :
      (fuel offset : ℕ) (rest : List ℕ) (s : S)
      → IsIncomplete rest
      → msg_loop route (suc fuel) offset rest s ≡ some (pos offset, s)
  unfolding msg_loop
  msg_loop_incomplete fuel offset rest s (inl h) = rw (lt→ltb _ _ h)
  msg_loop_incomplete fuel offset rest s (inr (k, l)) =
      elim (Bool-cases (ltb (length rest) header_size)) [
        | inl e ↦ rw e
        | inr e ↦ rw (e, le→ltb_false _ _ k, lt→ltb _ _ l)
      ]

  msg_loop-frame :
      (fuel offset : ℕ) (m : Message) (rest : List ℕ) (s : S)
      → IsMessage m
      → (call_of m s).0 ≡ true
      → msg_loop route (suc fuel) offset (frame m ++ rest) s
        ≡ msg_loop route fuel (offset + length (frame m)) rest (call_of m s).1
  msg_loop-frame fuel offset m rest s v go =
      let bytes = frame m ++ rest in
      let kind : ntohl bytes ≡ m.kind =
        ntohl-htonl m.kind (htonl (length m.body) ++ (m.body ++ rest)) v.kind in
      let len : body_len bytes ≡ length m.body =
        ntohl-htonl (length m.body) (m.body ++ rest) (omega (arith, v.short)) in
      let body : take (body_len bytes) (drop header_size bytes) ≡ m.body =
        take-append_length (body_len bytes) m.body rest (sym len) in
      let behind : drop (header_size + body_len bytes) bytes ≡ rest =
        drop-append_length (header_size + body_len bytes) (frame m) rest
          (omega (arith, length-frame m, len)) in
      let same : called bytes s ≡ call_of m s =
        ap (λ k. call route (route k) (take (body_len bytes) (drop header_size bytes)) s) kind
        ∙ ap (λ b. call route (route m.kind) b s) body in
      let size : header_size + body_len bytes ≡ length (frame m) =
        omega (arith, length-frame m, len) in
      let whole : header_size + body_len bytes ≤ length bytes =
        omega (arith, size, length-append (frame m) rest) in
      msg_loop_complete fuel offset bytes s (omega arith) (omega (arith, len, v.short)) whole
      ∙ rw (same, go, behind, size)

  msg_loop-encode :
      (fuel offset : ℕ) (ms : List Message) (tail : List ℕ) (s : S)
      → AllMessages ms
      → AllAccepted ms s
      → IsIncomplete tail
      → length (encode ms ++ tail) < fuel
      → msg_loop route fuel offset (encode ms ++ tail) s
        ≡ some (pos (offset + length (encode ms)), handled ms s)
  msg_loop-encode zero offset ms tail s v a t h = elim h [ ]
  msg_loop-encode (suc fuel) offset [] tail s v a t h =
      msg_loop_incomplete fuel offset tail s t ∙ ap (λ n. some (pos n, s)) (omega arith)
  msg_loop-encode (suc fuel) offset (m ∷ ms) tail s v a t h =
      let e = append_assoc (frame m) (encode ms) tail in
      let rest = encode ms ++ tail in
      let fits : length rest < fuel =
        omega (arith, ap length e, length-append (frame m) rest, length-frame m) in
      let total : offset + length (frame m) + length (encode ms)
          ≡ offset + length (frame m ++ encode ms) =
        omega (arith, length-append (frame m) (encode ms)) in
      ap (λ b. msg_loop route (suc fuel) offset b s) e
      ∙ (msg_loop-frame fuel offset m rest s v.0 a.0
          ∙ (msg_loop-encode fuel (offset + length (frame m)) ms tail (call_of m s).1 v.1 a.1 t fits
              ∙ ap (λ n. some (pos n, handled ms (call_of m s).1)) total))

  -- On frames one behind the other with less than a frame behind them, when each type fits 32 bits,
  -- each body fits the buffer and no callback returns -1: the callbacks of exactly these messages
  -- run, in order, and the offset returned is where the incomplete frame begins.
  pub handle_msg_stream-encode :
      (ms : List Message) (tail : List ℕ) (s : S)
      → AllMessages ms
      → AllAccepted ms s
      → IsIncomplete tail
      → handle_msg_stream route (encode ms ++ tail) s
        ≡ some (pos (length (encode ms)), handled ms s)
  unfolding handle_msg_stream
  handle_msg_stream-encode ms tail s v a t =
      msg_loop-encode (suc (length (encode ms ++ tail))) 0 ms tail s v a t (omega arith)
      ∙ ap (λ n. some (pos n, handled ms s)) (omega arith)
