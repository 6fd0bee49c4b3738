-- ===== src/Domain/Models/Lattice.antt =====
-- The grid: which dimensions are accepted, and which cells are linked.
use native.Mathlib.Nat.{mod-add-div', mul_comm, zero-mul, mul-mod_left}
use peerkit.Prelude.{
  ℕ, zero, suc, ◌+◌, ◌*◌, ◌/◌, ◌%◌, ◌<◌, ◌≡◌, ◌≢◌, refl, subst, ◌∙◌, ap, true, false, not, ◌&&◌,
  ◌||◌, List, ◌==◌, if◌then◌else◌, arith, Bool-cases, All, sym, inl, inr,
}
use peerkit.Int.{ℤ, pos, negsuc, leb_ℤ, pos_part}
use peerkit.Domain.Edge.{GeneratedEdge}
use peerkit.Domain.Edge.Simple.{edge_count}
use peerkit.Domain.Models.Bounds.{IsProper}
use peerkit.Domain.Models.Cells.{grid-links, grid_from-IsProper}
use peerkit.Domain.Models.{
  DomainError, ok, err, grid_from, grid_checked, grid_columns_known, generate_grid,
}

-- A dimension that is not given is any; one that is given is that one.
abbrev pub Fits : ℤ → ℕ → Type 0
Fits z d = leb_ℤ z (pos 0) ≡ false → z ≡ pos d

-- A grid of r rows and c columns with n cells: every edge goes from a cell to a later one of the n,
-- and from each cell to each there is one edge if the second is right of the first or below it, and
-- none otherwise.
abbrev pub IsGrid : ℕ → ℕ → ℕ → List GeneratedEdge → Type 0
IsGrid n r c es =
    (r * c ≡ n)
    × ((i j k l : ℕ)
        → i < r
        → j < c
        → k < r
        → l < c
        → edge_count (i * c + j) (k * c + l) es
          ≡ (if (i == k && l == j + 1) || (j == l && k == i + 1) then 1 else 0))
    × All (IsProper n) es

grid_checked-IsGrid :
    (n r c : ℕ) (es : List GeneratedEdge) → grid_checked n r c ≡ ok es → IsGrid n r c es
unfolding grid_checked
grid_checked-IsGrid n r c es h = elim (Bool-cases (not (r * c == n))) [
  | inl e ↦ cc (
      subst (λ b. (if b then err DomainError.grid_product else ok (grid_from r c 0 r)) ≡ ok es) e h)
  | inr e ↦ (
    ground arith,
    λ i j k l p q s t.
        ap (edge_count (i * c + j) (k * c + l)) (the_edges e) ∙ grid-links r c i j k l q t p s,
    subst (All (IsProper n)) (sym (the_edges e)) (
        subst (λ m. All (IsProper m) (grid_from r c 0 r)) (ground arith)
          (grid_from-IsProper r c 0 r (omega arith))),
  )
]
  where
    the_edges : not (r * c == n) ≡ false → es ≡ grid_from r c 0 r
    the_edges e = cc (
        subst (λ b. (if b then err DomainError.grid_product else ok (grid_from r c 0 r)) ≡ ok es) e
          h)

grid_checked-err : (n r c : ℕ) (f : DomainError) → grid_checked n r c ≡ err f → r * c ≢ n
unfolding grid_checked
grid_checked-err n r c f h e = ground arith

Fits-pos_part : (z : ℤ) → Fits z (pos_part z)
Fits-pos_part (pos d) h = refl
Fits-pos_part (negsuc d) h = ground arith

any-Fits : (z : ℤ) (d : ℕ) → leb_ℤ z (pos 0) ≡ true → Fits z d
any-Fits z d e h = cc

Fits-eq : (z : ℤ) (d : ℕ) → leb_ℤ z (pos 0) ≡ false → Fits z d → pos_part z ≡ d
Fits-eq z d e f = rw (f e) refl

columns-IsGrid :
    (n r : ℕ) (columns : ℤ) (es : List GeneratedEdge)
    → grid_columns_known n r columns ≡ ok es
    → (c : ℕ) × IsGrid n r c es × Fits columns c
unfolding grid_columns_known
columns-IsGrid n r columns es h = elim (Bool-cases (leb_ℤ columns (pos 0))) [
  | inl e ↦ (n / r, grid_checked-IsGrid n r (n / r) es (ground arith), any-Fits columns (n / r) e)
  | inr e ↦
      let c = pos_part columns in
      (c, grid_checked-IsGrid n r c es (ground arith), Fits-pos_part columns)
]

columns-err :
    (n r : ℕ) (columns : ℤ) (f : DomainError)
    → grid_columns_known n r columns ≡ err f
    → 0 < r
    → (c : ℕ) → Fits columns c
    → r * c ≢ n
unfolding grid_columns_known
columns-err n r columns f h p c k = ground (
  arith,
  Fits-eq columns c,
  grid_checked-err n r (n / r) f,
  grid_checked-err n r (pos_part columns) f,
  mod-add-div' n r,
  mul_comm r (n / r),
  mul_comm r c,
  mul-mod_left c r,
)

-- A generated grid has the number of rows and of columns that are given (a dimension that is not
-- positive is not given), n cells in all, and links by one edge each the neighboring cells of a row
-- and of a column, and no others.
pub generate_grid-IsGrid :
    (n : ℕ) (rows columns : ℤ) (es : List GeneratedEdge)
    → generate_grid n rows columns ≡ ok es
    → (r : ℕ) × (c : ℕ) × IsGrid n r c es × Fits rows r × Fits columns c
unfolding generate_grid
generate_grid-IsGrid n rows columns es h = elim (Bool-cases (leb_ℤ rows (pos 0))) [
  | inl e ↦
      let r = n / pos_part columns in
      let (c, grid, fits) = columns-IsGrid n r columns es (ground arith) in
      (r, c, grid, any-Fits rows r e, fits)
  | inr e ↦
      let r = pos_part rows in
      let (c, grid, fits) = columns-IsGrid n r columns es (ground arith) in
      (r, c, grid, Fits-pos_part rows, fits)
]

-- A grid of a positive number of nodes is refused only where neither dimension is given, or where no
-- grid with the given dimensions has that many cells.
pub generate_grid-err :
    (n : ℕ) (rows columns : ℤ) (f : DomainError)
    → 0 < n
    → generate_grid n rows columns ≡ err f
    → (r c : ℕ) → Fits rows r
    → Fits columns c
    → r * c ≡ n
    → (leb_ℤ rows (pos 0) && leb_ℤ columns (pos 0)) ≡ true
unfolding generate_grid
generate_grid-err n rows columns f p h r c u v e = ground (
  arith,
  Fits-eq rows r,
  Fits-eq columns c,
  refused (n / pos_part columns),
  refused (pos_part rows),
  factor_pos (n / pos_part columns) (pos_part columns),
  same_mod,
  same_product,
  mod-add-div' n (pos_part columns),
  mul-mod_left r c,
)
  where
    refused : (d : ℕ) → grid_columns_known n d columns ≡ err f → 0 < d → d * c ≢ n
    refused d q t = columns-err n d columns f q t c v

    factor_pos : (a b : ℕ) → 0 < a * b → 0 < a
    factor_pos zero b q = omega (arith, zero-mul b)
    factor_pos (suc a) b q = omega arith

    same_mod : pos_part columns ≡ c → n % pos_part columns ≡ r * c % c
    same_mod q = cc

    same_product :
        pos_part columns ≡ c → n / pos_part columns * c ≡ n / pos_part columns * pos_part columns
    same_product q = cc
