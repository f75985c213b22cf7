-- ===== src/ConnectionPool/Receive/Quiet.antt =====
-- Receiving changes nothing of the kernel that a call of recv(2) leaves as it is.
use pinpoint_c_agent.Base.{
  ℕ, zero, suc, ◌-◌, ◌≡◌, refl, sym, ap, ◌∙◌, inl, inr, Bool-cases, List, ◌++◌, Option, none, some,
  ltb, ℤ, pos, negsuc, length, some-injective,
}
use pinpoint_c_agent.ConnectionPool.Frame.{in_msg_buf_size, handle_msg_stream}
use pinpoint_c_agent.ConnectionPool.Receive.{
  RecvResult, received, closed, would_block, broken, Receiver, stream_answer, recv_answer,
  recv_byte_stream,
}

module _ {S K A : Type 0} (route : ℕ → Option (List ℕ → S → ℤ × S)) (recv : ℕ → K → RecvResult × K)
    (seen : K → A) (law : (room : ℕ) (k : K) → seen (recv room k).1 ≡ seen k) where
  -- What is received changes nothing that `seen` sees.
  abbrev pub Stays : K → Option (ℤ × Receiver S K) → Type 0
  Stays k o = (r : ℤ × Receiver S K) → o ≡ some r → seen r.1.kernel ≡ seen k

  Stays-some : (k : K) (r : ℤ × Receiver S K) → seen r.1.kernel ≡ seen k → Stays k (some r)
  Stays-some k r e r' f = ap (λ t. seen t.1.kernel) (sym (some-injective f)) ∙ e

  stream_answer-Stays :
      (o : Option (ℤ × S)) (buf : List ℕ) (k k₀ : K) (c : Receiver S K)
      (again : Receiver S K → Option (ℤ × Receiver S K))
      → seen k ≡ seen k₀
      → ((c' : Receiver S K) → c'.kernel ≡ k → Stays k₀ (again c'))
      → Stays k₀ (stream_answer route recv o buf k c again)
  stream_answer-Stays none buf k k₀ c again e step = λ r f. cc
  stream_answer-Stays (some (negsuc n, s)) buf k k₀ c again e step = Stays-some k₀ _ e
  stream_answer-Stays (some (pos offset, s)) buf k k₀ c again e step =
      elim (Bool-cases (ltb offset (length buf))) [
        | inl part ↦ rw part (step _ refl)
        | inr all ↦ rw all (step _ refl)
      ]

  recv_answer-Stays :
      (a : RecvResult × K) (k₀ : K) (c : Receiver S K)
      (again : Receiver S K → Option (ℤ × Receiver S K))
      → seen a.1 ≡ seen k₀
      → ((c' : Receiver S K) → c'.kernel ≡ a.1 → Stays k₀ (again c'))
      → Stays k₀ (recv_answer route recv a c again)
  recv_answer-Stays (received bytes, k) k₀ c again e step =
      stream_answer-Stays (handle_msg_stream route (c.in_buf ++ bytes) c.handlers)
        (c.in_buf ++ bytes) k k₀ c again e step
  recv_answer-Stays (closed, k) k₀ c again e step = Stays-some k₀ _ e
  recv_answer-Stays (would_block, k) k₀ c again e step = Stays-some k₀ _ e
  recv_answer-Stays (broken, k) k₀ c again e step = Stays-some k₀ _ e

  pub recv_byte_stream-Stays :
      (fuel : ℕ) (c : Receiver S K) (k₀ : K)
      → seen c.kernel ≡ seen k₀
      → Stays k₀ (recv_byte_stream route recv fuel c)
  unfolding recv_byte_stream
  recv_byte_stream-Stays zero c k₀ e = λ r f. cc
  recv_byte_stream-Stays (suc fuel) c k₀ e =
      elim (Bool-cases (ltb (length c.in_buf) in_msg_buf_size)) [
        | inr full ↦ rw full (Stays-some k₀ _ e)
        | inl room ↦ rw room (
            recv_answer-Stays (recv (in_msg_buf_size - length c.in_buf) c.kernel) k₀ c
              (recv_byte_stream route recv fuel) (law _ c.kernel ∙ e)
              (λ c' f. recv_byte_stream-Stays fuel c' k₀ (ap seen f ∙ (law _ c.kernel ∙ e))))
      ]
