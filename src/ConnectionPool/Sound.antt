-- ===== src/ConnectionPool/Sound.antt =====
-- When a connection is sound, and that opening and resetting it keep it so.
use pinpoint_c_agent.Base.{
  ℕ, ◌+◌, ◌≤◌, ◌<◌, ◌≡◌, refl, sym, ap, ◌∙◌, subst, ◌⊎◌, inl, inr, Bool, true, false, Bool-cases,
  List, [], ◌∷◌, if◌then◌else◌, ltb, ℤ, pos, negsuc, eqb_ℤ, eqb_ℤ_iff, length, drop, arith,
}
use pinpoint_c_agent.Cache.Chunk.Flow.{reset_chunks}
use pinpoint_c_agent.Cache.Chunk.Valid.{pending, IsValid}
use pinpoint_c_agent.Cache.Chunk.Reset.{reset_chunks-pending}
use pinpoint_c_agent.Cache.Chunk.Capacity.{empty_chunks-IsValid}
use pinpoint_c_agent.ConnectionPool.Frame.{in_msg_buf_size}
use pinpoint_c_agent.ConnectionPool.Connect.{
  Sockets, invalid_socket, strcasecmp_, unix_socket, tcp_socket, connect_stream_remote,
  connect_unix_remote,
}
use pinpoint_c_agent.ConnectionPool.Trans.{
  TransLayer, World, chunk_max_size, chunk_hold_size, reconnect_time_sec, new_trans_layer,
  connect_done, connect_now, connect_remote, reset_remote,
}
use pinpoint_c_agent.ConnectionPool.Events.{err_network}

-- The send queue is well formed, the receive buffer is not full, and where there is no descriptor
-- there is nothing of an older connection in it.
pub record IsSound {S : Type 0} (t : TransLayer S) : Type 0 where
  pub queue : IsValid t.chunks
  pub room : length t.in_buf < in_msg_buf_size
  pub fresh : t.c_fd ≡ invalid_socket → t.in_buf ≡ []

-- A connection is tried, or it is not: the last try then stays where it was.
pub record Tries {S : Type 0} (t : TransLayer S) (t' : TransLayer S) : Type 0 where
  pub same_host : t'.co_host ≡ t.co_host
  pub same_queue : t'.chunks ≡ t.chunks
  pub same_in_buf : t'.in_buf ≡ t.in_buf
  pub spaced :
      (t'.last_connect_time ≡ t.last_connect_time) × (t'.c_fd ≡ t.c_fd)
      ⊎ (t.last_connect_time + reconnect_time_sec ≤ t'.last_connect_time)

module _ {S : Type 0} where
  pub new_trans_layer-IsSound : (host : List ℕ) → IsSound (new_trans_layer {S = S} host)
  unfolding new_trans_layer
  new_trans_layer-IsSound host = record {
    queue = empty_chunks-IsValid chunk_max_size chunk_hold_size;
    room = omega arith;
    fresh = λ e. refl;
  }

-- The clock does not go back.
abbrev pub Forward : {K : Type 0} → Sockets K → Type 0
Forward {K} sys = (k : K) → (sys.time k).0 ≤ (sys.time (sys.time k).1).0

module _ {S K : Type 0} (sys : Sockets K) where
  connect_now-Tries :
      (t : TransLayer S) (last : ℕ) (k : K)
      → t.last_connect_time + reconnect_time_sec ≤ last
      → Tries t (connect_now sys (record t { last_connect_time = last }) k).1
  connect_now-Tries t last k h =
      by_prefix (eqb_ℤ (strcasecmp_ t.co_host unix_socket) (pos 0))
        (eqb_ℤ (strcasecmp_ t.co_host tcp_socket) (pos 0))
    where
      t₁ : TransLayer S
      t₁ = record t { last_connect_time = last }

      rest : List ℕ
      rest = drop 4 t.co_host

      by_prefix :
          (b b' : Bool)
          → Tries t
              (if b
                then connect_done sys (connect_unix_remote sys rest k) t₁
                else (if b'
                    then connect_done sys (connect_stream_remote sys rest k) t₁
                    else (negsuc 0, t₁, k))).1
      by_prefix true b' = record {
        same_host = refl;
        same_queue = refl;
        same_in_buf = refl;
        spaced = inr h;
      }
      by_prefix false true = record {
        same_host = refl;
        same_queue = refl;
        same_in_buf = refl;
        spaced = inr h;
      }
      by_prefix false false = record {
        same_host = refl;
        same_queue = refl;
        same_in_buf = refl;
        spaced = inr h;
      }

  -- On a clock that does not go back: connect_remote keeps the host, the send queue and the receive
  -- buffer, and either tries nothing and keeps the descriptor and the time of the last try, or the
  -- time of the last try moves on by 5 seconds at least.
  pub connect_remote-Tries :
      (t : TransLayer S) (k : K) → Forward sys → Tries t (connect_remote sys t k).1
  unfolding connect_remote
  connect_remote-Tries t k forward = by_host t.co_host
    where
      now : ℕ
      now = (sys.time k).0

      k₁ : K
      k₁ = (sys.time k).1

      again : ℕ
      again = (sys.time k₁).0

      k₂ : K
      k₂ = (sys.time k₁).1

      t₁ : TransLayer S
      t₁ = record t { last_connect_time = again }

      waits : Tries t t
      waits = record {
        same_host = refl;
        same_queue = refl;
        same_in_buf = refl;
        spaced = inl (refl, refl);
      }

      by_time :
          (b : Bool)
          → ltb now (t.last_connect_time + reconnect_time_sec) ≡ b
          → Tries t (if b then (negsuc 0, t, k₁) else connect_now sys t₁ k₂).1
      by_time true e = waits
      by_time false e = connect_now-Tries t again k₂ (ground (arith, e, forward k))

      by_host :
          (host : List ℕ)
          → Tries t
              (elim host as (λ h. ℤ × TransLayer S × K) [
                | [] ↦ (negsuc 0, t, k)
                | c ∷ rest ↦
                    if ltb now (t.last_connect_time + reconnect_time_sec)
                    then (negsuc 0, t, k₁)
                    else connect_now sys t₁ k₂
              ]).1
      by_host [] = waits
      by_host (c ∷ rest) = by_time (ltb now (t.last_connect_time + reconnect_time_sec)) refl

  pub connect_remote-IsSound :
      (t : TransLayer S) (k : K)
      → Forward sys
      → IsValid t.chunks
      → t.in_buf ≡ []
      → IsSound (connect_remote sys t k).1
  connect_remote-IsSound t k forward v e =
      let tries = connect_remote-Tries t k forward in
      let empty = tries.same_in_buf ∙ e in
      record {
        queue = subst IsValid (sym tries.same_queue) v;
        room = omega (arith, ap length empty);
        fresh = λ _. empty;
      }

  -- What a reset leaves.
  pub record Reset (t t' : TransLayer S) : Type 0 where
    pub queue : t'.chunks ≡ reset_chunks t.chunks
    pub in_buf : t'.in_buf ≡ []
    pub closed : t'.c_fd ≡ invalid_socket
    pub last : t'.last_connect_time ≡ t.last_connect_time

  pub reset_remote-Reset : (t : TransLayer S) (w : World S K) → Reset t (reset_remote sys t w).0
  unfolding reset_remote
  reset_remote-Reset t w = elim (Bool-cases (eqb_ℤ t.c_fd invalid_socket)) [
    | inl offline ↦ rw offline (record {
      queue = refl;
      in_buf = refl;
      closed = (eqb_ℤ_iff t.c_fd invalid_socket).0 offline;
      last = refl;
    })
    | inr online ↦ rw online (record { queue = refl; in_buf = refl; closed = refl; last = refl })
  ]

  -- Nothing is left of what was queued or received.
  pub record IsDropped (r : ℤ × TransLayer S × World S K) : Type 0 where
    pub ret : r.0 ≡ negsuc 0
    pub queue : pending r.1.chunks ≡ []
    pub in_buf : r.1.in_buf ≡ []

  pub Reset-IsSound : (t t' : TransLayer S) → IsValid t.chunks → Reset t t' → IsSound t'
  Reset-IsSound t t' v x = record {
    queue = subst IsValid (sym x.queue) (reset_chunks-pending t.chunks v).0;
    room = omega (arith, ap length x.in_buf);
    fresh = λ _. x.in_buf;
  }

  pub Reset-pending : (t t' : TransLayer S) → IsValid t.chunks → Reset t t' → pending t'.chunks ≡ []
  Reset-pending t t' v x = ap pending x.queue ∙ (reset_chunks-pending t.chunks v).1

  -- ERR_NETWORK leaves a sound connection with nothing queued.
  pub err_network-IsDropped :
      (t : TransLayer S) (w : World S K)
      → Forward sys
      → IsValid t.chunks
      → IsSound (err_network sys t w).1 × IsDropped (err_network sys t w)
  unfolding err_network
  err_network-IsDropped t w forward v =
      let (t₁, w₁) = reset_remote sys t w in
      let x = reset_remote-Reset t w in
      let sound = Reset-IsSound t t₁ v x in
      let tries = connect_remote-Tries t₁ w₁.kernel forward in
      (
        connect_remote-IsSound t₁ w₁.kernel forward sound.queue x.in_buf,
        record {
          ret = refl;
          queue = ap pending tries.same_queue ∙ Reset-pending t t₁ v x;
          in_buf = tries.same_in_buf ∙ x.in_buf;
        },
      )
