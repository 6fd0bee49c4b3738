-- ===== src/Config/Topology/Laws.antt =====
-- What an accepted adjacency matrix is, and the edges that it becomes.
use peerkit.Prelude.{
  ℕ, zero, suc, ◌+◌, ◌-◌, ◌≤◌, ◌<◌, ◌≡◌, refl, ◌∙◌, ap, true, ◌&&◌, Option, none, some, List, [],
  ◌∷◌, ◌++◌, Text, text_eq, text_eq_iff, length, ltb, leb, ◌==◌, if◌then◌else◌, arith, Bool-cases,
  Option-cases, List-cases, All, inl, inr, ◌⊎◌,
}
use peerkit.Int.{ℤ, pos, eqb_ℤ}
use peerkit.Config.Types.{NodeSpec, EdgeSpec, TopologyConfig}
use peerkit.Config.Topology.{
  MatrixError, cell, check_rows, check_cell, or_else, check_columns, check_cells, id_at, row_edges,
  matrix_edges, ok, normalize_topology,
}

or_else-none : (a b : Option MatrixError) → or_else a b ≡ none → (a ≡ none) × (b ≡ none)
or_else-none none b h = (refl, h)
or_else-none (some e) b h = cc

check_columns_sound :
    (matrix : List (List ℤ)) (i j left : ℕ)
    → check_columns matrix i j left ≡ none
    → (k : ℕ) → j ≤ k
    → k < j + left
    → check_cell matrix i k ≡ none
unfolding check_columns
check_columns_sound matrix i j zero h k l u = absurd (omega arith)
check_columns_sound matrix i j (suc left) h k l u =
    let both = or_else-none (check_cell matrix i j) (check_columns matrix i (suc j) left) h in
    ground (
      arith,
      both,
      check_columns_sound matrix i (suc j) left both.1 k,
      ap (check_cell matrix i) {x = j} {y = k},
    )

check_cells_sound :
    (matrix : List (List ℤ)) (n i left : ℕ)
    → check_cells matrix n i left ≡ none
    → (k : ℕ) → i ≤ k
    → k < i + left
    → check_columns matrix k 0 n ≡ none
unfolding check_cells
check_cells_sound matrix n i zero h k l u = absurd (omega arith)
check_cells_sound matrix n i (suc left) h k l u =
    let both = or_else-none (check_columns matrix i 0 n) (check_cells matrix n (suc i) left) h in
    ground (
      arith,
      both,
      check_cells_sound matrix n (suc i) left both.1 k,
      ap (λ r. check_columns matrix r 0 n) {x = i} {y = k},
    )

-- n rows of n columns: zeros and ones, symmetric, with an empty diagonal.
pub record IsAdjacency (n : ℕ) (matrix : List (List ℤ)) : Type 0 where
  pub rows : length matrix ≡ n
  pub columns : All (λ row. length row ≡ n) matrix
  pub binary : (i j : ℕ) → i < n → j < n → (cell matrix i j ≡ pos 0) ⊎ (cell matrix i j ≡ pos 1)
  pub symmetric : (i j : ℕ) → i < n → j < n → cell matrix i j ≡ cell matrix j i
  pub loopless : (i : ℕ) → i < n → cell matrix i i ≡ pos 0

check_rows_sound :
    (n i : ℕ) (rows : List (List ℤ)) → check_rows n i rows ≡ none → All (λ row. length row ≡ n) rows
unfolding check_rows
check_rows_sound n i [] h = tt
check_rows_sound n i (row ∷ rows) h = (ground arith, check_rows_sound n (suc i) rows (ground arith))

eqb_eq : (a b : ℤ) → eqb_ℤ a b ≡ true → a ≡ b
eqb_eq a b h = ground arith

check_cell_sound :
    (matrix : List (List ℤ)) (i j : ℕ)
    → check_cell matrix i j ≡ none
    → ((cell matrix i j ≡ pos 0) ⊎ (cell matrix i j ≡ pos 1))
      × (cell matrix i j ≡ cell matrix j i)
      × (i ≡ j → cell matrix i j ≡ pos 0)
unfolding check_cell
check_cell_sound matrix i j h = ground (
  arith,
  eqb_eq (cell matrix i j) (pos 0),
  eqb_eq (cell matrix i j) (pos 1),
  eqb_eq (cell matrix i j) (cell matrix j i),
)

check_cells-IsAdjacency :
    (matrix : List (List ℤ)) (n : ℕ)
    → length matrix ≡ n
    → check_rows n 0 matrix ≡ none
    → check_cells matrix n 0 n ≡ none
    → IsAdjacency n matrix
check_cells-IsAdjacency matrix n size full h = record {
  rows = size;
  columns = check_rows_sound n 0 matrix full;
  binary = λ i j p q. (check_cell_sound matrix i j (checked_at i j p q)).0;
  symmetric = λ i j p q. (check_cell_sound matrix i j (checked_at i j p q)).1;
  loopless = λ i p. (check_cell_sound matrix i i (checked_at i i p p)).2 refl;
}
  where
    checked_at : (i j : ℕ) → i < n → j < n → check_cell matrix i j ≡ none
    checked_at i j p q =
        check_columns_sound matrix i 0 n
          (check_cells_sound matrix n 0 n h i (omega arith) (omega arith)) j (omega arith)
          (omega arith)

module _ {F : Type 0} where
  -- How many edges of the list go from x to y, in this orientation.
  pub edges_between : Text → Text → List (EdgeSpec F) → ℕ
  edges_between x y [] = 0
  edges_between x y (e ∷ es) =
      (if text_eq e.source x && text_eq e.target y then 1 else 0) + edges_between x y es

  edges_between-append :
      (x y : Text) (es fs : List (EdgeSpec F))
      → edges_between x y (es ++ fs) ≡ edges_between x y es + edges_between x y fs
  unfolding edges_between
  edges_between-append x y [] fs = omega arith
  edges_between-append x y (e ∷ es) fs = omega (arith, edges_between-append x y es fs)

  -- Different nodes have different ids.
  abbrev pub HasDistinctIds : List (NodeSpec F) → Type 0
  HasDistinctIds nodes =
      (i j : ℕ) → i < length nodes → j < length nodes → id_at nodes i ≡ id_at nodes j → i ≡ j

  id_at_eq :
      (nodes : List (NodeSpec F)) (i j : ℕ)
      → HasDistinctIds nodes
      → i < length nodes
      → j < length nodes
      → text_eq (id_at nodes i) (id_at nodes j) ≡ (i == j)
  id_at_eq nodes i j d p q = ground (
    arith,
    d i j p q,
    text_eq_iff (id_at nodes i) (id_at nodes j),
    ap (id_at nodes) {x = i} {y = j},
  )

  row_edges_count :
      (nodes : List (NodeSpec F)) (matrix : List (List ℤ)) (i j left u v : ℕ)
      → HasDistinctIds nodes
      → i < length nodes
      → j + left ≡ length nodes
      → u < length nodes
      → v < length nodes
      → edges_between (id_at nodes u) (id_at nodes v) (row_edges nodes matrix i j left)
        ≡ (if i == u && (leb j v && eqb_ℤ (cell matrix i v) (pos 1)) then 1 else 0)
  unfolding row_edges edges_between
  row_edges_count nodes matrix i j zero u v d p e hu hv = ground arith
  row_edges_count nodes matrix i j (suc left) u v d p e hu hv = ground (
    arith,
    row_edges_count nodes matrix i (suc j) left u v d p (omega arith) hu hv,
    id_at_eq nodes i u d p hu,
    id_at_eq nodes j v d (omega arith) hv,
    ap (cell matrix i) {x = j} {y = v},
  )

  matrix_edges_count :
      (nodes : List (NodeSpec F)) (matrix : List (List ℤ)) (i left u v : ℕ)
      → HasDistinctIds nodes
      → i + left ≡ length nodes
      → u < length nodes
      → v < length nodes
      → edges_between
          (id_at nodes u)
          (id_at nodes v)
          (matrix_edges nodes matrix (length nodes) i left)
        ≡ (if leb i u && (ltb u v && eqb_ℤ (cell matrix u v) (pos 1)) then 1 else 0)
  unfolding matrix_edges edges_between
  matrix_edges_count nodes matrix i zero u v d e hu hv = ground arith
  matrix_edges_count nodes matrix i (suc left) u v d e hu hv =
      let n = length nodes in
      ground (
        arith,
        edges_between-append (id_at nodes u) (id_at nodes v)
            (row_edges nodes matrix i (i + 1) (n - (i + 1)))
            (matrix_edges nodes matrix n (suc i) left),
        row_edges_count nodes matrix i (i + 1) (n - (i + 1)) u v d (omega arith) (omega arith) hu
            hv,
        matrix_edges_count nodes matrix (suc i) left u v d (omega arith) hu hv,
        ap (λ r. cell matrix r v) {x = i} {y = u},
      )

  ok_eq : (t u : TopologyConfig F) → ok t ≡ ok u → t ≡ u
  ok_eq t u h = cc

  -- What an accepted matrix was checked for, and what it gives.
  normalize_accepted :
      (t t' : TopologyConfig F)
      → normalize_topology t ≡ ok t'
      → 0 < length t.matrix
      → (t.edges ≡ [])
        × (length t.matrix ≡ length t.nodes)
        × (check_rows (length t.nodes) 0 t.matrix ≡ none)
        × (check_cells t.matrix (length t.nodes) 0 (length t.nodes) ≡ none)
        × (t' ≡ record t {
          edges = t.edges ++ matrix_edges t.nodes t.matrix (length t.nodes) 0 (length t.nodes);
          matrix = [];
        })
  unfolding normalize_topology
  normalize_accepted t t' h p =
      let n = length t.nodes in
      elim (Bool-cases (ltb 0 (length t.edges))) [
        | inl e ↦ absurd (ground arith)
        | inr e ↦ elim (Bool-cases (length t.matrix == n)) [
          | inr f ↦ absurd (ground arith)
          | inl f ↦
              elim (Option-cases (or_else (check_rows n 0 t.matrix) (check_cells t.matrix n 0 n))) [
                | inr (x, g) ↦ absurd (ground arith)
                | inl g ↦
                    let none_left = elim (List-cases t.edges) as (λ c. t.edges ≡ []) [
                      | inl k ↦ k
                      | inr (x, xs, k) ↦ absurd (ground (arith, ap length k))
                    ] in
                    let both = or_else-none _ _ g in
                    (none_left, ground arith, both.0, both.1, ground arith)
              ]
        ]
      ]

  -- An accepted matrix is an adjacency matrix over the nodes, with as many rows, and as many columns in
  -- each, as there are nodes. With distinct ids, the edges it becomes
  -- link the node u to the node v, in this orientation, exactly once if u is before v and the entry
  -- at u and v is 1, and not at all otherwise; the nodes stay.
  pub normalize_topology_lem :
      (t t' : TopologyConfig F) (u v : ℕ)
      → HasDistinctIds t.nodes
      → normalize_topology t ≡ ok t'
      → 0 < length t.matrix
      → u < length t.nodes
      → v < length t.nodes
      → IsAdjacency (length t.nodes) t.matrix
        × (t'.nodes ≡ t.nodes)
        × (edges_between (id_at t.nodes u) (id_at t.nodes v) t'.edges
            ≡ (if ltb u v && eqb_ℤ (cell t.matrix u v) (pos 1) then 1 else 0))
  normalize_topology_lem t t' u v d h p hu hv =
      let n = length t.nodes in
      let (empty, size, full, checks, e) = normalize_accepted t t' h p in
      let count = matrix_edges_count t.nodes t.matrix 0 n u v d (omega arith) hu hv in
      (
        check_cells-IsAdjacency t.matrix n size full checks,
        ap (λ w. w.nodes) e,
        ap (λ w. edges_between (id_at t.nodes u) (id_at t.nodes v) w.edges) e
            ∙ rw empty (count ∙ ground arith),
      )
