-- ===== src/Socket/Share.antt =====
-- socket/txshare.go: the sharing of transactions, as the socket but without faults.
use multipipelinehs.Prelude.{ℕ, Bool, none, some, List, [], ◌∷◌, if◌then◌else◌, get, put}
use multipipelinehs.Types.{NodeId, node_id_discrete, Result, ok, fault, panic, ◌>>=◌}
use multipipelinehs.Config.{Addresses}
use multipipelinehs.Env.{same_node}
use multipipelinehs.Utils.{retry}

pub record TxShare (M : Type 0) : Type 0 where
  pub id : NodeId
  pub addresses : Addresses
  pub nodes : List (NodeId × List M)

module _ {M : Type 0} where
  unfoldable pub new_tx_share : NodeId → Addresses → TxShare M
  new_tx_share id addrs = record { id = id; addresses = addrs; nodes = (id, []) ∷ [] }

  -- `send`, with whether the i-th attempt to dial succeeds.
  unfoldable pub share : TxShare M → NodeId → M → (ℕ → Bool) → Result (TxShare M)
  share s to m dials = elim (get node_id_discrete to s.nodes) [
    | some queue ↦ ok (record s { nodes = put node_id_discrete to (m ∷ queue) s.nodes })
    | none ↦ elim (get node_id_discrete to s.addresses) [
      | none ↦ ok s
      | some _ ↦
          if (retry dials 100).0
          then ok (record s { nodes = put node_id_discrete to (m ∷ []) s.nodes })
          else fault panic
    ]
  ]

  unfoldable pub share_with : TxShare M → Addresses → M → (NodeId → ℕ → Bool) → Result (TxShare M)
  share_with s [] m dials = ok s
  share_with s (a ∷ rest) m dials =
      if same_node a.0 s.id
      then share_with s rest m dials
      else do t ← share s a.0 m (dials a.0); share_with t rest m dials

  unfoldable pub broadcast_tx : TxShare M → M → (NodeId → ℕ → Bool) → Result (TxShare M)
  broadcast_tx s m dials = share_with s s.addresses m dials
