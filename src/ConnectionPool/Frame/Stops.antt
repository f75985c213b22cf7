-- ===== src/ConnectionPool/Frame/Stops.antt =====
-- TransLayer::HandleMsgStream on any bytes: it ends, and leaves less than a frame.
use pinpoint_c_agent.Base.{
  ℕ, zero, suc, ◌+◌, ◌-◌, ◌≤◌, ◌<◌, ◌≡◌, refl, ap, ◌∙◌, ◌⊎◌, inl, inr, subst, List, Option, some, ℤ,
  pos, negsuc, if◌then◌else◌, arith, length, length-drop, drop, Bool-cases, le_or_lt, lt→ltb,
  le→ltb_false, drop-drop,
}
use pinpoint_c_agent.ConnectionPool.Frame.{
  header_size, in_msg_buf_size, msg_loop, handle_msg_stream,
}
use pinpoint_c_agent.ConnectionPool.Frame.Stream.{
  IsIncomplete, body_len, called, msg_loop_complete, msg_loop_incomplete,
}

module _ {S : Type 0} (route : ℕ → Option (List ℕ → S → ℤ × S)) where
  -- How the loop ends at `offset`.
  abbrev pub Stops : ℕ → List ℕ → ℤ → Type 0
  Stops offset rest ret =
      (ret ≡ negsuc 0)
      ⊎ ((n : ℕ) × (ret ≡ pos (offset + n)) × (n ≤ length rest) × IsIncomplete (drop n rest))

  abbrev Ends : ℕ → ℕ → List ℕ → S → Type 0
  Ends fuel offset rest s =
      (r : ℤ × S) × (msg_loop route fuel offset rest s ≡ some r) × Stops offset rest r.0

  Stops-drop :
      (offset k : ℕ) (rest : List ℕ) (ret : ℤ)
      → k ≤ length rest
      → Stops (offset + k) (drop k rest) ret
      → Stops offset rest ret
  Stops-drop offset k rest ret h (inl e) = inl e
  Stops-drop offset k rest ret h (inr (n, e, l, t)) = inr (
    k + n,
    e ∙ ap pos (omega arith),
    omega (arith, length-drop k rest),
    subst IsIncomplete (drop-drop k n rest) t,
  )

  msg_loop_oversize :
      (fuel offset : ℕ) (rest : List ℕ) (s : S)
      → header_size ≤ length rest
      → in_msg_buf_size - header_size < body_len rest
      → msg_loop route (suc fuel) offset rest s ≡ some (negsuc 0, s)
  unfolding msg_loop
  msg_loop_oversize fuel offset rest s h k = rw (le→ltb_false _ _ h, lt→ltb _ _ k)

  Ends-incomplete :
      (fuel offset : ℕ) (rest : List ℕ) (s : S) → IsIncomplete rest → Ends (suc fuel) offset rest s
  Ends-incomplete fuel offset rest s t = (
    (pos offset, s),
    msg_loop_incomplete route fuel offset rest s t,
    inr (0, ap pos (omega arith), omega arith, t),
  )

  msg_loop-Ends_complete :
      (fuel offset : ℕ) (rest : List ℕ) (s : S)
      → header_size ≤ length rest
      → body_len rest ≤ in_msg_buf_size - header_size
      → header_size + body_len rest ≤ length rest
      → ((o : ℕ) (b : List ℕ) (s' : S) → length b < fuel → Ends fuel o b s')
      → length rest < suc fuel
      → Ends (suc fuel) offset rest s
  msg_loop-Ends_complete fuel offset rest s h k l again f =
      let size = header_size + body_len rest in
      let run = msg_loop_complete route fuel offset rest s h k l in
      let s' = (called route rest s).1 in
      elim (Bool-cases (called route rest s).0) [
        | inl go ↦
            let fits : length (drop size rest) < fuel = omega (arith, length-drop size rest) in
            let (r, e, w) = again (offset + size) (drop size rest) s' fits in
            (
              r,
              run
                  ∙ (ap
                        (λ b.
                          if b
                          then msg_loop route fuel (offset + size) (drop size rest) s'
                          else some (negsuc 0, s'))
                        go
                      ∙ e),
              Stops-drop offset size rest r.0 l w,
            )
        | inr stop ↦ ((negsuc 0, s'), run ∙ rw stop, inl refl)
      ]

  msg_loop-Ends :
      (fuel offset : ℕ) (rest : List ℕ) (s : S) → length rest < fuel → Ends fuel offset rest s
  msg_loop-Ends zero offset rest s f = elim f [ ]
  msg_loop-Ends (suc fuel) offset rest s f = elim (le_or_lt header_size (length rest)) [
    | inr h ↦ Ends-incomplete fuel offset rest s (inl h)
    | inl h ↦ elim (le_or_lt (body_len rest) (in_msg_buf_size - header_size)) [
      | inr k ↦ ((negsuc 0, s), msg_loop_oversize fuel offset rest s h k, inl refl)
      | inl k ↦ elim (le_or_lt (header_size + body_len rest) (length rest)) [
        | inr l ↦ Ends-incomplete fuel offset rest s (inr (k, l))
        | inl l ↦
            msg_loop-Ends_complete fuel offset rest s h k l
              (λ o b s' g. msg_loop-Ends fuel o b s' g) f
      ]
    ]
  ]

  IsIncomplete-short : (rest : List ℕ) → IsIncomplete rest → length rest < in_msg_buf_size
  IsIncomplete-short rest (inl h) = omega arith
  IsIncomplete-short rest (inr (k, l)) = omega arith

  -- On any bytes the loop ends, and either it is a fatal error, or what is behind the offset that it
  -- returns is less than a frame and shorter than the receive buffer.
  pub handle_msg_stream-Stops :
      (buf : List ℕ) (s : S)
      → (r : ℤ × S) × (handle_msg_stream route buf s ≡ some r)
        × ((r.0 ≡ negsuc 0)
            ⊎ ((n : ℕ) × (r.0 ≡ pos n)
                × (n ≤ length buf)
                × IsIncomplete (drop n buf)
                × (length (drop n buf) < in_msg_buf_size)))
  unfolding handle_msg_stream
  handle_msg_stream-Stops buf s =
      let (r, e, w) = msg_loop-Ends (suc (length buf)) 0 buf s (omega arith) in
      (
        r,
        e,
        elim w [
          | inl fatal ↦ inl fatal
          | inr (n, ret, fits, t) ↦
              inr (n, ret ∙ ap pos (omega arith), fits, t, IsIncomplete-short (drop n buf) t)
        ],
      )
