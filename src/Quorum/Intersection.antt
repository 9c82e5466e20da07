-- ===== src/Quorum/Intersection.antt =====
-- The certificates of two collectors of blockchain/quorum.go, and the replicas behind them.
use multipipelinehs.Prelude.{◌*◌, ◌<◌, ◌≡◌, ◌≢◌, some, List, arith, length}
use multipipelinehs.Prelude.Count.{
  IsDistinct, Within, common, common_bound, common-Within, common-IsDistinct,
}
use multipipelinehs.Types.{NodeId, Vote, Qc, node_id_discrete}
use multipipelinehs.Quorum.{Quorum, add}
use multipipelinehs.Quorum.Votes.{IsWellFormed}
use multipipelinehs.Quorum.Build.{add-Certifies}

-- The replicas that signed both certificates.
abbrev pub both : Qc → Qc → List NodeId
both a b = common node_id_discrete b.signers a.signers

pub record Overlap (nodes : List NodeId) (a b : Qc) : Type 0 where
  pub distinct : IsDistinct node_id_discrete (both a b)
  pub in_second : Within node_id_discrete b.signers (both a b)
  pub in_first : Within node_id_discrete a.signers (both a b)
  pub third : length nodes < 3 * length (both a b)

-- If two collectors of the same replicas, each with well-formed ballots, answer votes of views
-- other than 0 with certificates whose signers are among the replicas, then, for whatever blocks,
-- there are distinct replicas, more than a third of all, that signed both certificates.
pub add-Overlap :
    (nodes : List NodeId) (p q : Quorum) (v w : Vote) (a b : Qc)
    → p.total ≡ length nodes
    → q.total ≡ length nodes
    → IsWellFormed p
    → IsWellFormed q
    → v.view ≢ 0
    → w.view ≢ 0
    → (add p v).2 ≡ some a
    → (add q w).2 ≡ some b
    → Within node_id_discrete nodes a.signers
    → Within node_id_discrete nodes b.signers
    → Overlap nodes a b
add-Overlap nodes p q v w a b tp tq wp wq hv hw ea eb ia ib =
    let ca = add-Certifies p v a hv wp ea in
    let cb = add-Certifies q w b hw wq eb in
    let (in_b, in_a) = common-Within node_id_discrete b.signers a.signers in
    record {
      distinct = common-IsDistinct node_id_discrete b.signers a.signers ca.distinct;
      in_second = in_b;
      in_first = in_a;
      third = omega (
        arith,
        ca.enough,
        cb.enough,
        common_bound node_id_discrete a.signers b.signers nodes ca.distinct cb.distinct ia ib,
      );
    }
