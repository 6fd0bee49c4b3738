-- ===== src/Domain/Models/Cells.antt =====
-- The cells of a grid, and the edges between them.
use native.Mathlib.Nat.{suc-mul, mul-le-mul_right}
use peerkit.Prelude.{
  ℕ, zero, suc, ◌+◌, ◌-◌, ◌*◌, ◌≤◌, ◌<◌, ◌≡◌, refl, Bool, true, false, ◌&&◌, ◌||◌, [], ◌∷◌, ltb,
  leb, ◌==◌, if◌then◌else◌, arith, All, All-append,
}
use peerkit.Domain.Edge.{GeneratedEdge}
use peerkit.Domain.Edge.Simple.{edge_count, edge_count-append}
use peerkit.Domain.Models.Bounds.{IsProper}
use peerkit.Domain.Models.{plain, grid_cell, grid_row, grid_from}

-- The links of one cell: to the right, and down.
cell_links : ℕ → ℕ → ℕ → ℕ → ℕ → Bool
cell_links rows columns row column y =
    let x = row * columns + column in
    (ltb (column + 1) columns && y == x + 1) || (ltb (row + 1) rows && y == x + columns)

edge_count-grid_cell :
    (rows columns row column x y : ℕ)
    → edge_count x y (grid_cell rows columns row column)
      ≡ (if row * columns + column == x && cell_links rows columns row column y then 1 else 0)
unfolding grid_cell edge_count cell_links
edge_count-grid_cell rows columns row column x y = ground arith

edge_count-grid_row :
    (rows columns row column left x y : ℕ)
    → edge_count x y (grid_row rows columns row column left) ≡ (
        if leb (row * columns + column) x
          && (ltb x (row * columns + column + left)
              && cell_links rows columns row (x - row * columns) y)
        then 1
        else 0)
unfolding grid_row edge_count
edge_count-grid_row rows columns row column zero x y = ground arith
edge_count-grid_row rows columns row column (suc left) x y = ground (
  arith,
  edge_count-append x y (grid_cell rows columns row column)
      (grid_row rows columns row (suc column) left),
  edge_count-grid_cell rows columns row column x y,
  edge_count-grid_row rows columns row (suc column) left x y,
)

row_after : (columns r s : ℕ) → r < s → r * columns + columns ≤ s * columns
row_after columns r s h =
    omega (arith, suc-mul r columns, mul-le-mul_right {m = suc r} {n = s} columns h)

at_row : (columns column r s : ℕ) → r ≡ s → r * columns + column ≡ s * columns + column
at_row columns column r s e = cc

links_at :
    (rows columns column y r s : ℕ)
    → r ≡ s
    → cell_links rows columns r (s * columns + column - r * columns) y
      ≡ cell_links rows columns s column y
links_at rows columns column y r s e = rw (e, offset) refl
  where
    offset : s * columns + column - s * columns ≡ column
    offset = omega arith

edge_count-this_row :
    (rows columns row r column y : ℕ)
    → column < columns
    → edge_count (r * columns + column) y (grid_row rows columns row 0 columns)
      ≡ (if row == r && cell_links rows columns r column y then 1 else 0)
edge_count-this_row rows columns row r column y h = ground (
  arith,
  edge_count-grid_row rows columns row 0 columns (r * columns + column) y,
  row_after columns row r,
  row_after columns r row,
  at_row columns column row r,
  links_at rows columns column y row r,
)

edge_count-grid_from :
    (rows columns row left r column y : ℕ)
    → column < columns
    → edge_count (r * columns + column) y (grid_from rows columns row left)
      ≡ (if leb row r && (ltb r (row + left) && cell_links rows columns r column y) then 1 else 0)
unfolding grid_from edge_count
edge_count-grid_from rows columns row zero r column y h = ground arith
edge_count-grid_from rows columns row (suc left) r column y h =
    let x = r * columns + column in
    let rest = edge_count-grid_from rows columns (suc row) left r column y h in
    ground (
      arith,
      edge_count-append x y (grid_row rows columns row 0 columns)
          (grid_from rows columns (suc row) left),
      rest,
      edge_count-this_row rows columns row r column y h,
    )

-- A cell has one row and one column.
cell_at :
    (columns r c s d : ℕ)
    → c < columns
    → d < columns
    → r * columns + c ≡ s * columns + d
    → (r ≡ s) × (c ≡ d)
cell_at columns r c s d h k e =
    ground (arith, row_after columns r s, row_after columns s r, at_row columns c r s)

pub grid-links :
    (rows columns r c s d : ℕ)
    → c < columns
    → d < columns
    → r < rows
    → s < rows
    → edge_count (r * columns + c) (s * columns + d) (grid_from rows columns 0 rows)
      ≡ (if (r == s && d == c + 1) || (c == d && s == r + 1) then 1 else 0)
unfolding cell_links
grid-links rows columns r c s d h k p q = ground (
  arith,
  edge_count-grid_from rows columns 0 rows r c (s * columns + d) h,
  cell_at columns s d r (c + 1),
  cell_at columns s d (r + 1) c,
  at_row columns d s r,
  at_row columns d s (r + 1),
  suc-mul r columns,
)

if-IsProper :
    (n : ℕ) (b : Bool) (e : GeneratedEdge)
    → (b ≡ true → IsProper n e)
    → All (IsProper n) (if b then e ∷ [] else [])
if-IsProper n true e h = (h refl, tt)
if-IsProper n false e h = tt

cell-bound :
    (rows columns row column : ℕ)
    → column < columns
    → row < rows
    → row * columns + column < rows * columns
cell-bound rows columns row column h k = omega (arith, row_after columns row rows k)

grid_cell-IsProper :
    (rows columns row column : ℕ)
    → column < columns
    → row < rows
    → All (IsProper (rows * columns)) (grid_cell rows columns row column)
unfolding grid_cell
grid_cell-IsProper rows columns row column h k =
    let n = rows * columns in
    let current = row * columns + column in
    All-append (IsProper n) _ _
      (if-IsProper n (ltb (column + 1) columns) (plain current (current + 1)) (λ e.
        (omega arith, omega (arith, cell-bound rows columns row (column + 1) (ground arith) k))))
      (if-IsProper n (ltb (row + 1) rows) (plain current (current + columns)) (λ e. (
        omega arith,
        omega
            (arith, cell-bound rows columns (row + 1) column h (ground arith), suc-mul row columns),
      )))

grid_row-IsProper :
    (rows columns row column left : ℕ)
    → column + left ≤ columns
    → row < rows
    → All (IsProper (rows * columns)) (grid_row rows columns row column left)
unfolding grid_row
grid_row-IsProper rows columns row column zero h k = tt
grid_row-IsProper rows columns row column (suc left) h k =
    All-append (IsProper (rows * columns)) _ _
      (grid_cell-IsProper rows columns row column (omega arith) k)
      (grid_row-IsProper rows columns row (suc column) left (omega arith) k)

pub grid_from-IsProper :
    (rows columns row left : ℕ)
    → row + left ≤ rows
    → All (IsProper (rows * columns)) (grid_from rows columns row left)
unfolding grid_from
grid_from-IsProper rows columns row zero h = tt
grid_from-IsProper rows columns row (suc left) h =
    All-append (IsProper (rows * columns)) _ _
      (grid_row-IsProper rows columns row 0 columns (omega arith) (omega arith))
      (grid_from-IsProper rows columns (suc row) left (omega arith))
