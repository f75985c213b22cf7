-- ===== src/Agent/Runs.antt =====
-- How an action that succeeds goes on.
use pinpoint_c_agent.Base.{ℕ, ◌≡◌, ap, some, Error, ok, err, true}
use pinpoint_c_agent.NodePool.Node.{TraceNode}
use pinpoint_c_agent.NodePool.Pool.{PoolManager, id_of, node_at}
use pinpoint_c_agent.NodePool.Valid.{IsValid}
use pinpoint_c_agent.NodePool.Pop.{is_alive}
use pinpoint_c_agent.NodePool.Append.Linked.{get_used_node_alive}
use pinpoint_c_agent.Agent.{Action, ◌>>>◌, bind_result, node_or_throw, refer, read}

module _ {V A B : Type 0} where
  pub >>>-ok :
      (m : Action V A) (f : A → Action V B) (p q : PoolManager V) (a : A)
      → m p ≡ (ok a, q)
      → (m >>> f) p ≡ f a q
  unfolding ◌>>>◌
  >>>-ok m f p q a e = ap (λ r. bind_result r f) e

  pub >>>-err :
      (m : Action V A) (f : A → Action V B) (p q : PoolManager V) (e : Error)
      → m p ≡ (err e, q)
      → (m >>> f) p ≡ (err e, q)
  unfolding ◌>>>◌
  >>>-err m f p q e r = ap (λ r. bind_result r f) r

module _ {V : Type 0} where
  pub refer_ok :
      (p : PoolManager V) (i : ℕ) → IsValid p → is_alive p i ≡ true → refer (id_of i) p ≡ (ok i, p)
  refer_ok p i v a = ap (λ r. (r, p)) (get_used_node_alive p i v a)

  pub read_ok :
      (p : PoolManager V) (i : ℕ) (n : TraceNode V) → node_at p i ≡ some n → read i p ≡ (ok n, p)
  read_ok p i n e = ap (λ o. node_or_throw o p) e
