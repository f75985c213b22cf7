-- ===== src/ConnectionPool/Send/Write.antt =====
-- _do_write_data against what send(2) promises.
use pinpoint_c_agent.Base.{
  ℕ, zero, suc, ◌+◌, ◌≤◌, ◌<◌, ◌≡◌, refl, sym, ap, ◌∙◌, ◌⊎◌, inl, inr, true, false, List, ◌++◌,
  some, ℤ, pos, negsuc, arith, length, length-drop, take, drop, append_assoc, append-nil, le_or_lt,
  subst, pos_part, lt→ltb, le→ltb_false, take_all, take_add,
}
use pinpoint_c_agent.ConnectionPool.Send.{
  SendResult, wrote, closed, would_block, broken, Peer, write_answer, write_loop, do_write_data,
  write_pipe, or_broken,
}
use pinpoint_c_agent.Cache.Chunk.Pipe.{Sends}

-- What send(2) does with the bytes that it is handed: it takes a prefix and says how long it is,
-- at least one byte of what is not empty, or it takes nothing. `out` is all that it took.
pub record Kernel {K : Type 0} (send : List ℕ → K → SendResult × K) (out : K → List ℕ)
    : Type 0 where
  pub took :
      (bytes : List ℕ) (k : K) (n : ℕ)
      → (send bytes k).0 ≡ wrote n
      → (0 < n) × (n ≤ length bytes) × (out (send bytes k).1 ≡ out k ++ take n bytes)
  pub refused :
      (bytes : List ℕ) (k : K) → (send bytes k).0 ≡ would_block → out (send bytes k).1 ≡ out k

module _ {K : Type 0} (send : List ℕ → K → SendResult × K) (out : K → List ℕ) where
  -- A call of _do_write_data: all went out and S_WRITING is off, or a prefix went out and S_WRITING is on, or
  -- it failed with -1.
  abbrev pub Written : List ℕ → List ℕ → ℤ × Peer K → Type 0
  Written sent data_ r =
      ((r.0 ≡ pos (length data_)) × (out r.1.kernel ≡ sent ++ data_) × (r.1.writing ≡ false))
      ⊎ (((n : ℕ) × (r.0 ≡ pos n)
            × (n < length data_)
            × (out r.1.kernel ≡ sent ++ take n data_)
            × (r.1.writing ≡ true))
          ⊎ (r.0 ≡ negsuc 0))

  abbrev Ends : ℕ → List ℕ → ℕ → Peer K → List ℕ → Type 0
  Ends fuel data_ ofs p sent =
      (r : ℤ × Peer K) × (write_loop send fuel data_ ofs p ≡ some r) × Written sent data_ r

  write_loop_answer :
      (fuel : ℕ) (data_ : List ℕ) (ofs : ℕ) (p : Peer K) (sent : List ℕ) (a : SendResult × K)
      → Kernel send out
      → send (drop ofs data_) p.kernel ≡ a
      → ofs < length data_
      → out p.kernel ≡ sent ++ take ofs data_
      → length data_ < ofs + suc fuel
      → ((ofs' : ℕ) (p' : Peer K)
          → ofs' ≤ length data_
          → out p'.kernel ≡ sent ++ take ofs' data_
          → length data_ < ofs' + fuel
          → Ends fuel data_ ofs' p' sent)
      → (r : ℤ × Peer K) × (write_answer send a ofs p (write_loop send fuel data_) ≡ some r)
        × Written sent data_ r
  write_loop_answer fuel data_ ofs p sent (wrote n, k) law e h o f again =
      let (some_, fits, went) = law.took (drop ofs data_) p.kernel n (ap (λ q. q.0) e) in
      again (ofs + n) (record p { kernel = k }) (omega (arith, length-drop ofs data_))
        ((ap (λ q. out q.1) (sym e) ∙ went)
          ∙ (ap (λ q. q ++ take n (drop ofs data_)) o
              ∙ (append_assoc sent (take ofs data_) (take n (drop ofs data_))
                  ∙ ap (◌++◌ sent) (sym (take_add ofs n data_)))))
        (omega arith)
  write_loop_answer fuel data_ ofs p sent (closed, k) law e h o f again = (_, refl, inr (inr refl))
  write_loop_answer fuel data_ ofs p sent (would_block, k) law e h o f again = (
    _,
    refl,
    inr (
        inl (
          ofs,
          refl,
          h,
          ap (λ q. out q.1) (sym e) ∙ (law.refused (drop ofs data_) p.kernel (ap (λ q. q.0) e) ∙ o),
          refl,
        )),
  )
  write_loop_answer fuel data_ ofs p sent (broken, k) law e h o f again = (_, refl, inr (inr refl))

  write_loop_next :
      (fuel : ℕ) (data_ : List ℕ) (ofs : ℕ) (p : Peer K)
      → ofs < length data_
      → write_loop send (suc fuel) data_ ofs p
        ≡ write_answer send (send (drop ofs data_) p.kernel) ofs p (write_loop send fuel data_)
  unfolding write_loop
  write_loop_next fuel data_ ofs p h = rw (lt→ltb _ _ h)

  write_loop_done :
      (fuel : ℕ) (data_ : List ℕ) (ofs : ℕ) (p : Peer K)
      → length data_ ≤ ofs
      → write_loop send (suc fuel) data_ ofs p
        ≡ some (pos (length data_), record p { writing = false })
  unfolding write_loop
  write_loop_done fuel data_ ofs p h = rw (le→ltb_false _ _ h)

  write_loop-Ends :
      (fuel : ℕ) (data_ : List ℕ) (ofs : ℕ) (p : Peer K) (sent : List ℕ)
      → Kernel send out
      → ofs ≤ length data_
      → out p.kernel ≡ sent ++ take ofs data_
      → length data_ < ofs + fuel
      → Ends fuel data_ ofs p sent
  write_loop-Ends zero data_ ofs p sent law h o f = absurd (omega arith)
  write_loop-Ends (suc fuel) data_ ofs p sent law h o f = elim (le_or_lt (length data_) ofs) [
    | inr e ↦
        let (r, run, w) =
          write_loop_answer fuel data_ ofs p sent _ law refl e o f
            (λ ofs' p' h' o' f'. write_loop-Ends fuel data_ ofs' p' sent law h' o' f') in
        (r, write_loop_next fuel data_ ofs p e ∙ run, w)
    | inl e ↦ (
      _,
      write_loop_done fuel data_ ofs p e,
      inl (refl, o ∙ ap (◌++◌ sent) (take_all ofs data_ e), refl),
    )
  ]

  pub do_write_data-Written :
      (data_ : List ℕ) (p : Peer K)
      → Kernel send out
      → (r : ℤ × Peer K) × (do_write_data send data_ p ≡ some r) × Written (out p.kernel) data_ r
  unfolding do_write_data
  do_write_data-Written data_ p law =
      write_loop-Ends (suc (length data_)) data_ 0 p (out p.kernel) law (omega arith)
        (sym (append-nil (out p.kernel))) (omega arith)

  Written-took :
      (bytes : List ℕ) (sent : List ℕ) (n : ℕ) (r : ℤ × Peer K)
      → Written sent bytes r
      → r.0 ≡ pos n
      → (n ≤ length bytes) × (out r.1.kernel ≡ sent ++ take n bytes)
  Written-took bytes sent n r (inl (ret, o, w)) e =
      let n_is : n ≡ length bytes = ap pos_part (sym e ∙ ret) in
      (omega arith, o ∙ ap (◌++◌ sent) (sym (take_all n bytes (omega arith))))
  Written-took bytes sent n r (inr (inl (m, ret, h, o, w))) e =
      let n_is : m ≡ n = ap pos_part (sym ret ∙ e) in
      (omega arith, o ∙ ap (λ i. sent ++ take i bytes) n_is)
  Written-took bytes sent n r (inr (inr ret)) e = cc (sym e ∙ ret)

  pub write_pipe-Written :
      (data_ : List ℕ) (p : Peer K)
      → Kernel send out
      → Written (out p.kernel) data_ (write_pipe send data_ p)
  write_pipe-Written data_ p law =
      let (r, run, w) = do_write_data-Written data_ p law in
      subst (Written (out p.kernel) data_) (sym (ap (or_broken send p) run)) w

  -- _do_write_data is a pipe as a drain wants it.
  pub write_pipe-Sends : Kernel send out → Sends (write_pipe send) (λ p. out p.kernel)
  write_pipe-Sends law = record {
    took = λ bytes p n e.
        Written-took bytes (out p.kernel) n (write_pipe send bytes p)
          (write_pipe-Written bytes p law) e;
  }
