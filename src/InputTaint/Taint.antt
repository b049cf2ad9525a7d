-- ===== src/InputTaint/Taint.antt =====
-- src/input_taint.rs: the lattice `Taint`.
use frawk.Prelude.{ℕ, Bool, true, false, arith}
use frawk.Dataflow.{JoinSemiLattice, IsLawful}

pub data Taint : Type 0 where
  tainted okay : Taint

-- `invoke` of `Taint`
unfoldable pub taint_invoke : Taint → Taint → Taint × Bool
taint_invoke Taint.tainted _ = (Taint.tainted, false)
taint_invoke Taint.okay Taint.okay = (Taint.okay, false)
taint_invoke Taint.okay Taint.tainted = (Taint.tainted, true)

rank : Taint → ℕ
rank Taint.tainted = 1
rank Taint.okay = 0

pub taint_invoke-IsLawful : IsLawful Taint.okay taint_invoke
unfolding taint_invoke rank
taint_invoke-IsLawful = record {
  join_idem = λ a. ground arith;
  join_comm = λ a b. ground arith;
  join_assoc = λ a b c. ground arith;
  join_bottom = λ a. ground arith;
  unchanged = λ a b h. ground arith;
  rank = rank;
  height = 1;
  rank-le = λ a. ground arith;
  rank-lt = λ a b h. ground arith;
}

abbrev pub taint : JoinSemiLattice Taint
taint = record { bottom = Taint.okay; invoke = taint_invoke; lawful = taint_invoke-IsLawful }
