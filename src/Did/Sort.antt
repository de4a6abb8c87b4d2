-- ===== src/Did/Sort.antt =====
-- `Vec<Did>::sort(did)`.
use rings_node.Base.{List, Perm, sort_by-perm, sort_by-IsSorted, IsSorted}
use rings_node.Did.{Did, sub, sort}

-- Nothing is lost or made up, and the distances from `did` never fall along the result.
pub sort_lem :
    (dids : List Did) (did : Did)
    → Perm (sort dids did) dids × IsSorted (λ a. sub a did) (sort dids did)
unfolding sort
sort_lem dids did = (sort_by-perm _ dids, sort_by-IsSorted _ dids)
