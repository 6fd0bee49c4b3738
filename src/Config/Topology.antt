-- ===== src/Config/Topology.antt =====
-- internal/config/topology.go: an adjacency matrix becomes a list of edges.
pub mod Laws
use peerkit.Prelude.{
  ℕ, zero, suc, ◌+◌, ◌-◌, Bool, true, false, not, ◌&&◌, ◌||◌, Option, none, some, List, [], ◌∷◌,
  ◌++◌, Text, length, get_elem?, get_or, ltb, ◌==◌, if◌then◌else◌,
}
use peerkit.Int.{ℤ, pos, eqb_ℤ}
use peerkit.Config.Types.{NodeSpec, EdgeSpec, TopologyConfig}

pub data MatrixError : Type 0 where
  matrix_and_edges : MatrixError
  row_count : ℕ → MatrixError
  column_count : ℕ → ℕ → MatrixError
  not_binary diagonal : ℕ → ℕ → MatrixError
  asymmetric : ℕ → ℕ → MatrixError

-- `matrix[i][j]`, within the bounds that are checked first.
unfoldable pub cell : List (List ℤ) → ℕ → ℕ → ℤ
cell matrix i j = get_or (get_or matrix i []) j (pos 0)

-- The first row, from index i on, that has not n columns.
unfoldable pub check_rows : ℕ → ℕ → List (List ℤ) → Option MatrixError
check_rows n i [] = none
check_rows n i (row ∷ rows) =
    let rest = check_rows n (suc i) rows in
    if not (length row == n) then some (column_count i (length row)) else rest

unfoldable pub check_cell : List (List ℤ) → ℕ → ℕ → Option MatrixError
check_cell matrix i j =
    let v = cell matrix i j in
    if not (eqb_ℤ v (pos 0)) && not (eqb_ℤ v (pos 1))
    then some (not_binary i j)
    else (if i == j && not (eqb_ℤ v (pos 0))
        then some (diagonal i j)
        else (if not (eqb_ℤ v (cell matrix j i)) then some (asymmetric i j) else none))

abbrev pub or_else : Option MatrixError → Option MatrixError → Option MatrixError
or_else (some e) rest = some e
or_else none rest = rest

-- The inner loop from j on, for `left` columns, and the outer one from i on, for `left` rows.
unfoldable pub check_columns : List (List ℤ) → ℕ → ℕ → ℕ → Option MatrixError
check_columns matrix i j zero = none
check_columns matrix i j (suc left) =
    or_else (check_cell matrix i j) (check_columns matrix i (suc j) left)

unfoldable pub check_cells : List (List ℤ) → ℕ → ℕ → ℕ → Option MatrixError
check_cells matrix n i zero = none
check_cells matrix n i (suc left) =
    or_else (check_columns matrix i 0 n) (check_cells matrix n (suc i) left)

pub data Normalized (F : Type 0) : Type 0 where
  ok : TopologyConfig F → Normalized F
  err : MatrixError → Normalized F

module _ {F : Type 0} where
  -- `Nodes[i].ID`, in range in the loops.
  unfoldable pub id_at : List (NodeSpec F) → ℕ → Text
  id_at [] i = []
  id_at (n ∷ ns) zero = n.id
  id_at (n ∷ ns) (suc i) = id_at ns i

  -- The inner loop of the last pass, from j on, for `left` columns, and the outer one.
  unfoldable pub row_edges : List (NodeSpec F) → List (List ℤ) → ℕ → ℕ → ℕ → List (EdgeSpec F)
  row_edges nodes matrix i j zero = []
  row_edges nodes matrix i j (suc left) =
      let rest = row_edges nodes matrix i (suc j) left in
      if eqb_ℤ (cell matrix i j) (pos 1)
      then record { source = id_at nodes i; target = id_at nodes j; network = none } ∷ rest
      else rest

  unfoldable pub matrix_edges : List (NodeSpec F) → List (List ℤ) → ℕ → ℕ → ℕ → List (EdgeSpec F)
  matrix_edges nodes matrix n i zero = []
  matrix_edges nodes matrix n i (suc left) =
      row_edges nodes matrix i (i + 1) (n - (i + 1)) ++ matrix_edges nodes matrix n (suc i) left

  checked : TopologyConfig F → Option MatrixError → Normalized F
  checked t (some e) = err e
  checked t none =
      let n = length t.nodes in
      ok (record t { edges = t.edges ++ matrix_edges t.nodes t.matrix n 0 n; matrix = [] })

  unfoldable pub normalize_topology : TopologyConfig F → Normalized F
  unfolding checked
  normalize_topology t =
      let n = length t.nodes in
      if length t.matrix == 0
      then ok t
      else (if ltb 0 (length t.edges)
          then err matrix_and_edges
          else (if not (length t.matrix == n)
              then err (row_count (length t.matrix))
              else checked t (or_else (check_rows n 0 t.matrix) (check_cells t.matrix n 0 n))))
