-- ===== src/ConnectionPool/Network.antt =====
-- What the library relies on in the calls of the system, and that opening a connection sends
-- nothing.
use pinpoint_c_agent.Base.{
  ◌==◌, ℕ, suc, ◌+◌, ◌-◌, ◌<◌, ◌≡◌, refl, ◌∙◌, inl, inr, Bool, true, false, not, ◌||◌, Bool-cases,
  List, [], ◌∷◌, Option, none, some, if◌then◌else◌, ltb, ℤ, pos, negsuc, eqb_ℤ, ltb_ℤ, length, take,
  drop,
}
use pinpoint_c_agent.ConnectionPool.Send.Write.{Kernel}
use pinpoint_c_agent.ConnectionPool.Receive.Bounded.{Source}
use pinpoint_c_agent.ConnectionPool.Connect.{
  Sockets, ConnectResult, connected, refused, nonblock_error, ealready, einprogress, invalid_socket,
  strcasecmp_, unix_socket, tcp_socket, colon_before, connect_loop, connect_addresses, connect_host,
  connect_stream_remote, close_positive, connect_unix_remote,
}
use pinpoint_c_agent.ConnectionPool.Trans.{
  TransLayer, connect_done, connect_now, connect_remote, reconnect_time_sec,
}

-- The calls, but for send(2), that leave what `seen` sees of the kernel as it is.
pub record Still {K A : Type 0} (sys : Sockets K) (seen : K → A) : Type 0 where
  pub time : (k : K) → seen (sys.time k).1 ≡ seen k
  pub getaddrinfo : (host port : List ℕ) (k : K) → seen (sys.getaddrinfo host port k).1 ≡ seen k
  pub socket : (k : K) → seen (sys.socket k).1 ≡ seen k
  pub connect : (fd : ℤ) (a : ℕ) (k : K) → seen (sys.connect fd a k).1 ≡ seen k
  pub socket_unix : (k : K) → seen (sys.socket_unix k).1 ≡ seen k
  pub connect_unix : (fd : ℤ) (path : List ℕ) (k : K) → seen (sys.connect_unix fd path k).1 ≡ seen k
  pub close : (fd : ℤ) (k : K) → seen (sys.close fd k) ≡ seen k
  pub select :
      (fd : ℤ) (writing : Bool) (s : ℕ) (us : ℤ) (k : K)
      → seen (sys.select fd writing s us k).1 ≡ seen k
  pub recv : (fd : ℤ) (room : ℕ) (k : K) → seen (sys.recv fd room k).1 ≡ seen k

-- `out` is what went out through a descriptor so far, and `waiting` how many bytes wait in it, fewer
-- than `limit`.
pub record Network {K : Type 0} (sys : Sockets K) (out : ℤ → K → List ℕ) (waiting : ℤ → K → ℕ)
    (limit : ℕ) : Type 0 where
  pub sends : (fd : ℤ) → Kernel (sys.send fd) (out fd)
  pub receives : (fd : ℤ) → Source (sys.recv fd) (waiting fd)
  pub few : (fd : ℤ) (k : K) → waiting fd k < limit
  pub still : (fd : ℤ) → Still sys (out fd)

module _ {K A : Type 0} (sys : Sockets K) (seen : K → A) where
  if-Still :
      (b : Bool) (x y : ℤ × K) (k : K)
      → seen x.1 ≡ seen k
      → seen y.1 ≡ seen k
      → seen (if b then x else y).1 ≡ seen k
  if-Still true x y k e f = e
  if-Still false x y k e f = f

  connect_loop-Still :
      (addresses : List ℕ) (fd : ℤ) (k : K)
      → Still sys seen
      → seen (connect_loop sys addresses fd k).1 ≡ seen k
  unfolding connect_loop
  connect_loop-Still [] fd k law = refl
  connect_loop-Still (a ∷ rest) fd k law =
      by_socket (eqb_ℤ sfd (negsuc 0)) (sys.connect sfd a k₁).0
        (connect_loop-Still rest sfd k₁ law ∙ law.socket k)
        (connect_loop-Still rest invalid_socket (sys.close sfd k₂) law ∙ (law.close sfd k₂ ∙ at))
    where
      sfd : ℤ
      sfd = (sys.socket k).0

      k₁ : K
      k₁ = (sys.socket k).1

      k₂ : K
      k₂ = (sys.connect sfd a k₁).1

      at : seen k₂ ≡ seen k
      at = law.connect sfd a k₁ ∙ law.socket k

      by_socket :
          (b : Bool) (answer : ConnectResult)
          → seen (connect_loop sys rest sfd k₁).1 ≡ seen k
          → seen (connect_loop sys rest invalid_socket (sys.close sfd k₂)).1 ≡ seen k
          → seen
              (if b then connect_loop sys rest sfd k₁ else elim answer as (λ a. ℤ × K) [
                | connected ↦ (sfd, k₂)
                | refused code ↦
                    if nonblock_error code
                    then (sfd, k₂)
                    else connect_loop sys rest invalid_socket (sys.close sfd k₂)
              ]).1
            ≡ seen k
      by_socket true answer skipped next = skipped
      by_socket false connected skipped next = at
      by_socket false (refused code) skipped next = if-Still (nonblock_error code) _ _ k at next

  connect_addresses-Still :
      (r : Option (List ℕ) × K) → Still sys seen → seen (connect_addresses sys r).1 ≡ seen r.1
  connect_addresses-Still (none, k) law = refl
  connect_addresses-Still (some addresses, k) law =
      connect_loop-Still addresses invalid_socket k law

  connect_host-Still :
      (o : Option ℕ) (remote : List ℕ) (k : K)
      → Still sys seen
      → seen (connect_host sys o remote k).1 ≡ seen k
  connect_host-Still none remote k law = refl
  connect_host-Still (some offset) remote k law =
      connect_addresses-Still (sys.getaddrinfo (take offset remote) (drop (suc offset) remote) k)
        law
      ∙ law.getaddrinfo (take offset remote) (drop (suc offset) remote) k

  close_positive-Still : (fd : ℤ) (k : K) → Still sys seen → seen (close_positive sys fd k) ≡ seen k
  close_positive-Still fd k law = elim (Bool-cases (ltb_ℤ (pos 0) fd)) [
    | inl open_ ↦ rw open_ (law.close fd k)
    | inr none_ ↦ rw none_ refl
  ]

  connect_unix_remote-Still :
      (remote : List ℕ) (k : K)
      → Still sys seen
      → seen (connect_unix_remote sys remote k).1 ≡ seen k
  unfolding connect_unix_remote
  connect_unix_remote-Still remote k law =
      by_socket (ltb_ℤ fd (pos 0)) (sys.connect_unix fd (take 107 remote) k₁).0
    where
      fd : ℤ
      fd = (sys.socket_unix k).0

      k₁ : K
      k₁ = (sys.socket_unix k).1

      k₂ : K
      k₂ = (sys.connect_unix fd (take 107 remote) k₁).1

      at : seen k₂ ≡ seen k
      at = law.connect_unix fd (take 107 remote) k₁ ∙ law.socket_unix k

      by_socket :
          (b : Bool) (answer : ConnectResult)
          → seen
              (if b then (negsuc 0, close_positive sys fd k₁) else elim answer as (λ a. ℤ × K) [
                | connected ↦ (fd, k₂)
                | refused code ↦
                    if not (code == ealready) || not (code == einprogress)
                    then (negsuc 0, close_positive sys fd k₂)
                    else (fd, k₂)
              ]).1
            ≡ seen k
      by_socket true answer = close_positive-Still fd k₁ law ∙ law.socket_unix k
      by_socket false connected = at
      by_socket false (refused code) =
          if-Still (not (code == ealready) || not (code == einprogress)) _ _ k
            (close_positive-Still fd k₂ law ∙ at) at

module _ {S K A : Type 0} (sys : Sockets K) (seen : K → A) where
  connect_now-Still :
      (t : TransLayer S) (k : K) → Still sys seen → seen (connect_now sys t k).2 ≡ seen k
  unfolding connect_stream_remote
  connect_now-Still t k law =
      by_prefix (eqb_ℤ (strcasecmp_ t.co_host unix_socket) (pos 0))
        (eqb_ℤ (strcasecmp_ t.co_host tcp_socket) (pos 0))
    where
      rest : List ℕ
      rest = drop 4 t.co_host

      by_prefix :
          (b b' : Bool)
          → seen
              (if b
                then connect_done sys (connect_unix_remote sys rest k) t
                else (if b'
                    then connect_done sys (connect_stream_remote sys rest k) t
                    else (negsuc 0, t, k))).2
            ≡ seen k
      by_prefix true b' = connect_unix_remote-Still sys seen rest k law
      by_prefix false true =
          connect_host-Still sys seen (colon_before (length rest - 1) rest) rest k law
      by_prefix false false = refl

  -- What `seen` sees of the kernel does not change where a connection is opened.
  pub connect_remote-Still :
      (t : TransLayer S) (k : K) → Still sys seen → seen (connect_remote sys t k).2 ≡ seen k
  unfolding connect_remote
  connect_remote-Still t k law = by_host t.co_host
    where
      k₁ : K
      k₁ = (sys.time k).1

      k₂ : K
      k₂ = (sys.time k₁).1

      t₁ : TransLayer S
      t₁ = record t { last_connect_time = (sys.time k₁).0 }

      by_time :
          (b : Bool) → seen (if b then (negsuc 0, t, k₁) else connect_now sys t₁ k₂).2 ≡ seen k
      by_time true = law.time k
      by_time false = connect_now-Still t₁ k₂ law ∙ (law.time k₁ ∙ law.time k)

      by_host :
          (host : List ℕ)
          → seen
              (elim host as (λ h. ℤ × TransLayer S × K) [
                | [] ↦ (negsuc 0, t, k)
                | c ∷ rest ↦
                    if ltb (sys.time k).0 (t.last_connect_time + reconnect_time_sec)
                    then (negsuc 0, t, k₁)
                    else connect_now sys t₁ k₂
              ]).2
            ≡ seen k
      by_host [] = refl
      by_host (c ∷ rest) = by_time (ltb (sys.time k).0 (t.last_connect_time + reconnect_time_sec))
