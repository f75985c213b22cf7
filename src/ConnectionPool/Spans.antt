-- ===== src/ConnectionPool/Spans.antt =====
-- SpanConnectionPool.h: connections that wait for their next span, the last one given back on top.
-- (Its lock makes each call one step.)
pub mod Sound
use pinpoint_c_agent.Base.{ℕ, List, [], ◌∷◌, ℤ, add32}
use pinpoint_c_agent.ConnectionPool.Trans.{
  TransLayer, new_trans_layer, reg_peer_msg_callback, destroy,
}
use pinpoint_c_agent.ConnectionPool.Connect.{Sockets}

pub record SpanConnectionPool (S : Type 0) : Type 0 where
  pub co_host : List ℕ
  pub con_counter : ℕ
  pub stack : List (TransLayer S)
  pub route_vec : List (ℕ × (List ℕ → S → ℤ × S))

module _ {S : Type 0} where
  unfoldable pub register_all : List (ℕ × (List ℕ → S → ℤ × S)) → TransLayer S → TransLayer S
  register_all [] t = t
  register_all ((type, f) ∷ rest) t = register_all rest (reg_peer_msg_callback type f t)

  unfoldable pub create_connection : SpanConnectionPool S → TransLayer S × SpanConnectionPool S
  create_connection p = (
    register_all p.route_vec (new_trans_layer p.co_host),
    record p { con_counter = add32 p.con_counter 1 },
  )

  unfoldable pub free : TransLayer S → SpanConnectionPool S → SpanConnectionPool S
  free t p = record p { stack = t ∷ p.stack }

  -- The constructor makes one connection.
  unfoldable pub new_span_connection_pool :
      List ℕ → List (ℕ × (List ℕ → S → ℤ × S)) → SpanConnectionPool S
  new_span_connection_pool co_host route_vec =
      let (t, p) =
        create_connection
          (record { co_host = co_host; con_counter = 0; stack = []; route_vec = route_vec }) in
      free t p

  unfoldable pub get : SpanConnectionPool S → TransLayer S × SpanConnectionPool S
  get p = elim p.stack [ [] ↦ create_connection p | t ∷ rest ↦ (t, record p { stack = rest }) ]

-- The end of the pool: the connections that wait are destroyed, the one on top last.
module _ {S K : Type 0} (sys : Sockets K) where
  unfoldable pub destroy_all : List (TransLayer S) → K → K
  destroy_all [] k = k
  destroy_all (t ∷ rest) k = destroy sys t (destroy_all rest k)
