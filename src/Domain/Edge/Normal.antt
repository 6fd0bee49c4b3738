-- ===== src/Domain/Edge/Normal.antt =====
-- What normalization gives: each pair of linked nodes once, smaller end first, in order.
use peerkit.Prelude.{
  ℕ, ◌≡◌, refl, Bool, true, false, ◌&&◌, ◌||◌, List, [], ◌∷◌, ltb, ◌==◌, arith, Bool-cases, inl,
  inr, All, All-mono, sym, ◌∙◌,
}
use peerkit.Domain.Edge.{
  GeneratedEdge, canonicalize_generated_edge, same_pair, has_key, put_unique, unique_from,
  edge_before, insert_edge, sort_edges, normalize_generated_edges,
}

-- Whether the list has an edge from x to y, in this orientation.
unfoldable pub has_pair : List GeneratedEdge → ℕ → ℕ → Bool
has_pair [] x y = false
has_pair (e ∷ es) x y = (e.a == x && e.b == y) || has_pair es x y

unfoldable pub links : GeneratedEdge → ℕ → ℕ → Bool
links e x y = (e.a == x && e.b == y) || (e.a == y && e.b == x)

-- Whether the list links x and y, in either orientation.
unfoldable pub linked : List GeneratedEdge → ℕ → ℕ → Bool
linked [] x y = false
linked (e ∷ es) x y = links e x y || linked es x y

has_pair-insert_edge :
    (e : GeneratedEdge) (es : List GeneratedEdge) (x y : ℕ)
    → has_pair (insert_edge e es) x y ≡ ((e.a == x && e.b == y) || has_pair es x y)
unfolding has_pair insert_edge
has_pair-insert_edge e [] x y = refl
has_pair-insert_edge e (f ∷ fs) x y = ground (arith, has_pair-insert_edge e fs x y)

has_pair-sort_edges :
    (es : List GeneratedEdge) (x y : ℕ) → has_pair (sort_edges es) x y ≡ has_pair es x y
unfolding sort_edges has_pair
has_pair-sort_edges [] x y = refl
has_pair-sort_edges (e ∷ es) x y =
    ground (arith, has_pair-insert_edge e (sort_edges es) x y, has_pair-sort_edges es x y)

has_key-has_pair :
    (e : GeneratedEdge) (es : List GeneratedEdge) → has_key e es ≡ has_pair es e.a e.b
unfolding has_key has_pair same_pair
has_key-has_pair e [] = refl
has_key-has_pair e (f ∷ fs) = ground (arith, has_key-has_pair e fs)

has_pair-same :
    (es : List GeneratedEdge) (x y u v : ℕ) → x ≡ u → y ≡ v → has_pair es x y ≡ has_pair es u v
has_pair-same es x y u v e f = cc

has_pair-put_unique :
    (unique : List GeneratedEdge) (e : GeneratedEdge) (x y : ℕ)
    → has_pair (put_unique unique e) x y ≡ (has_pair unique x y || (ltb x y && links e x y))
unfolding put_unique has_pair links canonicalize_generated_edge
has_pair-put_unique unique e x y =
    let edge = canonicalize_generated_edge e in
    ground (arith, has_key-has_pair edge unique, has_pair-same unique edge.a edge.b x y)

has_pair-unique_from :
    (unique es : List GeneratedEdge) (x y : ℕ)
    → has_pair (unique_from unique es) x y ≡ (has_pair unique x y || (ltb x y && linked es x y))
unfolding unique_from has_pair linked
has_pair-unique_from unique [] x y = ground arith
has_pair-unique_from unique (e ∷ es) x y =
    ground
      (arith, has_pair-unique_from (put_unique unique e) es x y, has_pair-put_unique unique e x y)

-- In order, with no key twice.
abbrev pub IsSorted : List GeneratedEdge → Type 0
IsSorted [] = Unit {0}
IsSorted (e ∷ es) = All (λ f. edge_before e f ≡ true) es × IsSorted es

abbrev HasDistinctKeys : List GeneratedEdge → Type 0
HasDistinctKeys [] = Unit {0}
HasDistinctKeys (e ∷ es) = (has_key e es ≡ false) × HasDistinctKeys es

edge_before_trans :
    (d e f : GeneratedEdge)
    → edge_before d e ≡ true
    → edge_before e f ≡ true
    → edge_before d f ≡ true
unfolding edge_before
edge_before_trans d e f h k = ground arith

edge_before_total :
    (d e : GeneratedEdge) → edge_before d e ≡ false → same_pair d e ≡ false → edge_before e d ≡ true
unfolding edge_before same_pair
edge_before_total d e h k = ground arith

All-insert_edge :
    (d e : GeneratedEdge) (es : List GeneratedEdge)
    → edge_before d e ≡ true
    → All (λ f. edge_before d f ≡ true) es
    → All (λ f. edge_before d f ≡ true) (insert_edge e es)
unfolding insert_edge
All-insert_edge d e [] h a = (h, tt)
All-insert_edge d e (f ∷ fs) h a = ground (arith, All-insert_edge d e fs)

insert_edge-IsSorted :
    (e : GeneratedEdge) (es : List GeneratedEdge)
    → has_key e es ≡ false
    → IsSorted es
    → IsSorted (insert_edge e es)
unfolding insert_edge has_key
insert_edge-IsSorted e [] k s = (tt, tt)
insert_edge-IsSorted e (f ∷ fs) k s = elim (Bool-cases (edge_before f e)) [
  | inl h ↦
      rw (h, insert_edge)
        (All-insert_edge f e fs h s.0, insert_edge-IsSorted e fs (ground arith) s.1)
  | inr h ↦
      let before = edge_before_total f e h (ground arith) in
      rw (h, insert_edge) ((before, All-mono _ _ fs (λ g. edge_before_trans e f g before) s.0), s)
]

has_key-sort_edges :
    (e : GeneratedEdge) (es : List GeneratedEdge) → has_key e (sort_edges es) ≡ has_key e es
has_key-sort_edges e es =
    has_key-has_pair e (sort_edges es)
    ∙ has_pair-sort_edges es e.a e.b
    ∙ sym (has_key-has_pair e es)

sort_edges-IsSorted : (es : List GeneratedEdge) → HasDistinctKeys es → IsSorted (sort_edges es)
unfolding sort_edges
sort_edges-IsSorted [] d = tt
sort_edges-IsSorted (e ∷ es) d =
    insert_edge-IsSorted e (sort_edges es) (has_key-sort_edges e es ∙ d.0)
      (sort_edges-IsSorted es d.1)

put_unique-HasDistinctKeys :
    (unique : List GeneratedEdge) (e : GeneratedEdge)
    → HasDistinctKeys unique
    → HasDistinctKeys (put_unique unique e)
unfolding put_unique
put_unique-HasDistinctKeys unique e d = ground arith

unique_from-HasDistinctKeys :
    (unique es : List GeneratedEdge)
    → HasDistinctKeys unique
    → HasDistinctKeys (unique_from unique es)
unfolding unique_from
unique_from-HasDistinctKeys unique [] d = d
unique_from-HasDistinctKeys unique (e ∷ es) d =
    unique_from-HasDistinctKeys (put_unique unique e) es (put_unique-HasDistinctKeys unique e d)

-- The normalized list is strictly sorted by the pair of ends, and has an edge from x to y exactly if
-- x is below y and the given list links them, in either orientation: no loop, no pair twice, and no
-- link lost or made up.
pub normalize_generated_edges_lem :
    (es : List GeneratedEdge)
    → IsSorted (normalize_generated_edges es)
      × ((x y : ℕ) → has_pair (normalize_generated_edges es) x y ≡ (ltb x y && linked es x y))
unfolding normalize_generated_edges has_pair
normalize_generated_edges_lem es = (
  sort_edges-IsSorted (unique_from [] es) (unique_from-HasDistinctKeys [] es tt),
  λ x y. has_pair-sort_edges (unique_from [] es) x y ∙ has_pair-unique_from [] es x y,
)
