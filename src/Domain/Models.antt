-- ===== src/Domain/Models.antt =====
-- internal/config/domain.go: the models without preferences, `generateER`, `generateRing`,
-- `generatePath`, `generateComplete` and `generateGrid`. `rows` and `columns` are ints without their
-- bounds.
pub mod Bounds
pub mod Cells
pub mod Lattice
use peerkit.Prelude.{
  ℕ, zero, suc, ◌+◌, ◌-◌, ◌*◌, ◌/◌, ◌%◌, Bool, true, false, not, ◌&&◌, none, List, [], ◌∷◌, ◌++◌,
  ltb, leb, ◌==◌, if◌then◌else◌,
}
use peerkit.Int.{ℤ, pos, leb_ℤ, pos_part}
use peerkit.Float.{FloatOps}
use peerkit.Domain.Rng.{Rng}
use peerkit.Domain.Edge.{GeneratedEdge, canonical_generated_edge}

-- `generatedEdge{a: i, b: j}`.
abbrev pub plain : ℕ → ℕ → GeneratedEdge
plain i j = record { a = i; b = j; delay_baseline = none }

-- The loops from i or j on, for `left` rounds each.
unfoldable pub ring_from : ℕ → ℕ → ℕ → List GeneratedEdge
ring_from n i zero = []
ring_from n i (suc left) = canonical_generated_edge i ((i + 1) % n) ∷ ring_from n (suc i) left

unfoldable pub generate_ring : ℕ → List GeneratedEdge
generate_ring n = ring_from n 0 n

unfoldable pub path_from : ℕ → ℕ → List GeneratedEdge
path_from i zero = []
path_from i (suc left) = plain i (i + 1) ∷ path_from (suc i) left

unfoldable pub generate_path : ℕ → List GeneratedEdge
generate_path n = path_from 0 (n - 1)

unfoldable pub complete_row : ℕ → ℕ → ℕ → List GeneratedEdge
complete_row i j zero = []
complete_row i j (suc left) = plain i j ∷ complete_row i (suc j) left

unfoldable pub complete_from : ℕ → ℕ → ℕ → List GeneratedEdge
complete_from n i zero = []
complete_from n i (suc left) = complete_row i (i + 1) (n - (i + 1)) ++ complete_from n (suc i) left

unfoldable pub generate_complete : ℕ → List GeneratedEdge
generate_complete n = complete_from n 0 n

module _ {F R : Type 0} ⦃fl : FloatOps F⦄ (rng : Rng F R) where
  unfoldable pub er_row : F → ℕ → ℕ → ℕ → R → List GeneratedEdge × R
  er_row p i j zero r = ([], r)
  er_row p i j (suc left) r =
      let (draw, r1) = rng.float64 r in
      let (rest, r2) = er_row p i (suc j) left r1 in
      (if fl.lt draw p then plain i j ∷ rest else rest, r2)

  unfoldable pub er_from : ℕ → F → ℕ → ℕ → R → List GeneratedEdge × R
  er_from n p i zero r = ([], r)
  er_from n p i (suc left) r =
      let (row, r1) = er_row p i (i + 1) (n - (i + 1)) r in
      let (rest, r2) = er_from n p (suc i) left r1 in (row ++ rest, r2)

  unfoldable pub generate_er : ℕ → F → R → List GeneratedEdge × R
  generate_er n p r = er_from n p 0 n r

pub data DomainError : Type 0 where
  explicit_topology counts_disagree node_count zero_padding : DomainError
  p_and_average_degree average_degree no_p p_range : DomainError
  m_not_positive m_too_large : DomainError
  k_range no_beta beta_range ring_size : DomainError
  grid_size grid_columns grid_rows grid_product : DomainError
  unsupported_model : DomainError
  performance : DomainError

pub data Result {ℓ} (A : Type ℓ) : Type ℓ where
  ok : A → Result A
  err : DomainError → Result A

-- The edges from one cell to the next column and to the next row.
unfoldable pub grid_cell : ℕ → ℕ → ℕ → ℕ → List GeneratedEdge
grid_cell rows columns row column =
    let current = row * columns + column in
    (if ltb (column + 1) columns then plain current (current + 1) ∷ [] else [])
    ++ (if ltb (row + 1) rows then plain current (current + columns) ∷ [] else [])

unfoldable pub grid_row : ℕ → ℕ → ℕ → ℕ → ℕ → List GeneratedEdge
grid_row rows columns row column zero = []
grid_row rows columns row column (suc left) =
    grid_cell rows columns row column ++ grid_row rows columns row (suc column) left

unfoldable pub grid_from : ℕ → ℕ → ℕ → ℕ → List GeneratedEdge
grid_from rows columns row zero = []
grid_from rows columns row (suc left) =
    grid_row rows columns row 0 columns ++ grid_from rows columns (suc row) left

grid_checked : ℕ → ℕ → ℕ → Result (List GeneratedEdge)
grid_checked n rows columns =
    if not (rows * columns == n) then err grid_product else ok (grid_from rows columns 0 rows)

-- `rows` is positive from here on; the last but one check.
grid_columns_known : ℕ → ℕ → ℤ → Result (List GeneratedEdge)
unfolding grid_checked
grid_columns_known n rows columns =
    if leb_ℤ columns (pos 0)
    then (if not (n % rows == 0) then err grid_rows else grid_checked n rows (n / rows))
    else grid_checked n rows (pos_part columns)

unfoldable pub generate_grid : ℕ → ℤ → ℤ → Result (List GeneratedEdge)
unfolding grid_columns_known
generate_grid n rows columns =
    if leb_ℤ rows (pos 0) && leb_ℤ columns (pos 0)
    then err grid_size
    else (if leb_ℤ rows (pos 0)
        then (if not (n % pos_part columns == 0)
            then err grid_columns
            else grid_columns_known n (n / pos_part columns) columns)
        else grid_columns_known n (pos_part rows) columns)
