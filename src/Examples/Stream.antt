-- ===== src/Examples/Stream.antt =====
-- The connection on concrete inputs: a frame from the collector agent, and the send queue.
use pinpoint_c_agent.Base.{
  ℕ, ◌≤◌, ◌<◌, ◌≡◌, refl, ap, ◌⊎◌, inl, inr, true, List, [], ◌∷◌, ◌++◌, Option, none, some, arith,
  length, take, drop, Bool-cases, ℤ, pos, negsuc, slice, if◌then◌else◌, ◌==◌, replicate,
}
use pinpoint_c_agent.Cache.Chunk.Buffer.{Chunks, empty_chunks}
use pinpoint_c_agent.Cache.Chunk.Valid.{IsValid, pending}
use pinpoint_c_agent.ConnectionPool.Frame.{in_msg_buf_size, ntohl, msg_loop, handle_msg_stream}
use pinpoint_c_agent.ConnectionPool.Frame.Bytes.{Message, encode, AllMessages}
use pinpoint_c_agent.ConnectionPool.Frame.Stops.{handle_msg_stream-Stops}
use pinpoint_c_agent.ConnectionPool.Frame.Stream.{IsIncomplete, handle_msg_stream-encode}
use pinpoint_c_agent.ConnectionPool.Send.{
  SendResult, wrote, would_block, Peer, send_msg_to_collector,
}
use pinpoint_c_agent.ConnectionPool.Send.Write.{Kernel}
use pinpoint_c_agent.ConnectionPool.Send.Queue.{Flushed, send_msg_to_collector-Flushed}
use pinpoint_c_agent.Base.{ltb, length-replicate, false, sym}
use pinpoint_c_agent.Cache.Chunk.Flow.{check_capacity}
use pinpoint_c_agent.ConnectionPool.Frame.Bytes.{frame}
use pinpoint_c_agent.ConnectionPool.Receive.{
  RecvResult, received, broken, Receiver, recv_byte_stream,
}
use pinpoint_c_agent.ConnectionPool.Receive.Bounded.{Source, Received, recv_byte_stream-Received}
use pinpoint_c_agent.ConnectionPool.Submit.{copy_into_send_buffer}
use pinpoint_c_agent.ConnectionPool.Submit.Framed.{Gives, copy_into_send_buffer-frame}

-- Type 200 is handled: its bodies are collected.
abbrev routes : ℕ → Option (List ℕ → List ℕ → ℤ × List ℕ)
routes kind = if kind == 200 then some (λ body s. (pos 0, s ++ body)) else none

abbrev two_messages : List Message
two_messages = record { kind = 200; body = 1 ∷ 2 ∷ [] } ∷ record { kind = 9; body = 3 ∷ [] } ∷ []

two-AllMessages : AllMessages two_messages
two-AllMessages = (
  record { kind = omega arith; short = omega arith },
  (record { kind = omega arith; short = omega arith }, tt),
)

-- The second message has no callback, and five bytes of a header wait.
handle_msg_stream-encode_example :
    handle_msg_stream routes (encode two_messages ++ (0 ∷ 0 ∷ 0 ∷ 1 ∷ 0 ∷ [])) []
    ≡ some (pos 19, 1 ∷ 2 ∷ [])
handle_msg_stream-encode_example =
    handle_msg_stream-encode routes two_messages (0 ∷ 0 ∷ 0 ∷ 1 ∷ 0 ∷ []) [] two-AllMessages
      (refl, (refl, tt)) (inl (omega arith))

-- A body of more than 4088 bytes is a fatal error.
oversize : handle_msg_stream routes (0 ∷ 0 ∷ 0 ∷ 1 ∷ 0 ∷ 0 ∷ 16 ∷ 0 ∷ []) [] ≡ some (negsuc 0, [])
unfolding handle_msg_stream msg_loop ntohl
oversize = refl

handle_msg_stream-Stops_example :
    (r : ℤ × List ℕ) × (handle_msg_stream routes (1 ∷ 2 ∷ 3 ∷ []) [] ≡ some r)
    × ((r.0 ≡ negsuc 0)
        ⊎ ((n : ℕ) × (r.0 ≡ pos n)
            × (n ≤ 3)
            × IsIncomplete (drop n (1 ∷ 2 ∷ 3 ∷ []))
            × (length {A = ℕ} (drop n (1 ∷ 2 ∷ 3 ∷ [])) < in_msg_buf_size)))
handle_msg_stream-Stops_example = handle_msg_stream-Stops routes (1 ∷ 2 ∷ 3 ∷ []) []

-- A socket that takes one byte at a time, and four in all.
abbrev pub narrow : List ℕ → List ℕ → SendResult × List ℕ
narrow [] k = (would_block, k)
narrow (b ∷ bytes) k = if length k == 4 then (would_block, k) else (wrote 1, k ++ b ∷ [])

narrow_took :
    (bytes : List ℕ) (k : List ℕ) (n : ℕ)
    → (narrow bytes k).0 ≡ wrote n
    → (0 < n) × (n ≤ length bytes) × ((narrow bytes k).1 ≡ k ++ take n bytes)
narrow_took [] k n e = cc
narrow_took (b ∷ bytes) k n e = elim (Bool-cases (length k == 4)) [
  | inl full ↦ absurd (ground arith)
  | inr room ↦
      let one : 1 ≡ n = ground arith in
      (omega arith, omega arith, rw room (ap (λ i. k ++ take i (b ∷ bytes)) one))
]

narrow_refused :
    (bytes : List ℕ) (k : List ℕ) → (narrow bytes k).0 ≡ would_block → (narrow bytes k).1 ≡ k
narrow_refused [] k e = refl
narrow_refused (b ∷ bytes) k e = ground arith

pub narrow-Kernel : Kernel narrow (λ k. k)
narrow-Kernel = record { took = narrow_took; refused = narrow_refused }

abbrev idle : Peer (List ℕ)
idle = record { writing = true; kernel = [] }

abbrev pub waiting_chunks : Chunks
waiting_chunks = record (empty_chunks 10485760 40960) {
  ready_cks =
      record { block_size = 8; l_ofs = 0; r_ofs = 3; buf = 7 ∷ 8 ∷ 9 ∷ replicate 5 0 }
      ∷ record { block_size = 4; l_ofs = 1; r_ofs = 3; buf = 1 ∷ 2 ∷ 3 ∷ 4 ∷ [] }
      ∷ [];
  ck_alloc_size = 36;
}

pub waiting_chunks-IsValid : IsValid waiting_chunks
waiting_chunks-IsValid = record {
  ready = (
    record {
      chunk = record {
        ordered = omega arith;
        within = omega arith;
        sized = refl;
        small = omega arith;
      };
      waiting = omega arith;
    },
    (
      record {
        chunk = record {
          ordered = omega arith;
          within = omega arith;
          sized = refl;
          small = omega arith;
        };
        waiting = omega arith;
      },
      tt,
    ),
  );
  free = tt;
  counted = record { alloc = refl; capacity = refl };
  least_block = refl;
}

send_msg_to_collector-Flushed_example :
    (r : ℤ × Chunks × Peer (List ℕ)) × (send_msg_to_collector narrow 6 waiting_chunks idle ≡ some r)
    × IsValid r.1
    × Flushed narrow (λ k. k) waiting_chunks idle r
unfolding slice
send_msg_to_collector-Flushed_example =
    send_msg_to_collector-Flushed narrow (λ k. k) 6 waiting_chunks idle narrow-Kernel
      waiting_chunks-IsValid (omega arith)

-- A socket with pieces of a stream: an empty list is no more bytes for now.
abbrev pieces : ℕ → List (List ℕ) → RecvResult × List (List ℕ)
pieces room [] = (RecvResult.would_block, [])
pieces room (bytes ∷ rest) =
    if ltb room (length bytes) then (broken, bytes ∷ rest) else (received bytes, rest)

abbrev bytes_of : RecvResult → List ℕ
bytes_of (received bytes) = bytes
bytes_of RecvResult.closed = []
bytes_of RecvResult.would_block = []
bytes_of RecvResult.broken = []

pieces_gave :
    (room : ℕ) (k : List (List ℕ)) (bytes : List ℕ)
    → (pieces room k).0 ≡ received bytes
    → (length bytes ≤ room) × (length (pieces room k).1 < length k)
pieces_gave room [] bytes e = cc
pieces_gave room (b ∷ rest) bytes e = elim (Bool-cases (ltb room (length b))) [
  | inl over ↦ absurd (ground arith)
  | inr fits ↦
      let same : b ≡ bytes = ap bytes_of (rw fits at e) in
      (rw (sym same) (ground arith), rw fits (omega arith))
]

pieces-Source : Source pieces length
pieces-Source = record { gave = pieces_gave }

-- A frame in two pieces.
abbrev two_pieces : Receiver (List ℕ) (List (List ℕ))
two_pieces = record {
  in_buf = [];
  handlers = [];
  kernel = (0 ∷ 0 ∷ 0 ∷ 200 ∷ 0 ∷ []) ∷ (0 ∷ 0 ∷ 2 ∷ 7 ∷ 8 ∷ 0 ∷ []) ∷ [];
}

-- The body goes to its callback, and the byte behind it stays.
reassembled :
    recv_byte_stream routes pieces 3 two_pieces
    ≡ some (pos 0, record { in_buf = 0 ∷ []; handlers = 7 ∷ 8 ∷ []; kernel = [] })
unfolding recv_byte_stream handle_msg_stream msg_loop ntohl
reassembled = refl

recv_byte_stream-Received_example :
    (r : ℤ × Receiver (List ℕ) (List (List ℕ))) × (recv_byte_stream routes pieces 3 two_pieces
      ≡ some r)
    × Received routes pieces length two_pieces r
recv_byte_stream-Received_example =
    recv_byte_stream-Received routes pieces length 3 two_pieces pieces-Source (omega arith)
      (omega arith)

abbrev pub zeroed : ℕ → Option (List ℕ)
zeroed n = some (replicate n 0)

pub zeroed-Gives : Gives zeroed
zeroed-Gives = record {
  sized = λ n block e. cc (length-replicate {A = ℕ} n 0, e);
  given = λ n e. cc;
}

copy_into_send_buffer-frame_example :
    let r = copy_into_send_buffer zeroed zeroed (65 ∷ 66 ∷ []) waiting_chunks false in
    ((check_capacity waiting_chunks 10 ≡ false) × (r ≡ (false, waiting_chunks, false)))
    ⊎ ((check_capacity waiting_chunks 10 ≡ true)
        × (r.0 ≡ true)
        × (r.2 ≡ true)
        × IsValid r.1
        × (pending r.1
            ≡ pending waiting_chunks ++ frame (record { kind = 1; body = 65 ∷ 66 ∷ [] })))
copy_into_send_buffer-frame_example =
    copy_into_send_buffer-frame zeroed zeroed (65 ∷ 66 ∷ []) waiting_chunks false zeroed-Gives
      zeroed-Gives waiting_chunks-IsValid (omega arith)
