-- ===== src/P2p/HopWave/Selected.antt =====
-- The set that a list of nodes is put into: its size, and that the order is no matter.
use mathlib.Core.List.{Perm, Permᴰ}
use mathlib.Core.List.Perm
use mathlib.Core.Logic.{∥∥₁_elim, ∥∥₁_prop}
use peerkit.Prelude.{
  ℕ, zero, suc, ◌≤◌, ◌≡◌, refl, ◌∙◌, inl, inr, false, ◌||◌, List, [], ◌∷◌, Text, length, take,
  arith, Bool-cases, Bool, true, ◌⊎◌, subst, ◌+◌, contains, insert, text_key, text_eq, text_eq_iff,
}
use peerkit.P2p.HopWave.{select_all}

or_swap : (p q r : Bool) → (p || (q || r)) ≡ (q || (p || r))
or_swap p q r = ground arith

contains-Permᴰ : (a : Text) {xs ys : List Text} → Permᴰ xs ys → contains xs a ≡ contains ys a
unfolding contains
contains-Permᴰ a Permᴰ.nil = refl
contains-Permᴰ a (Permᴰ.cons e p) = cc (e, contains-Permᴰ a p)
contains-Permᴰ a (Permᴰ.swap {a'} {b'} {l} e e') =
    rw (e, e') (or_swap (text_eq b' a) (text_eq a' a) (contains l a))
contains-Permᴰ a (Permᴰ.trans p q) = contains-Permᴰ a p ∙ contains-Permᴰ a q

contains-Perm : (a : Text) {xs ys : List Text} → Perm xs ys → contains xs a ≡ contains ys a
contains-Perm a {xs} {ys} p = ∥∥₁_elim p (tests_set _ _) (contains-Permᴰ a)
  where
    tests_set : IsSet Bool
    tests_set = hlevel

insert-Perm : (a : Text) {xs ys : List Text} → Perm xs ys → Perm (insert xs a) (insert ys a)
unfolding insert
insert-Perm a {xs} {ys} p = elim (Bool-cases (contains ys a)) [
  | inl e ↦ rw (contains-Perm a p, e, insert) p
  | inr e ↦ rw (contains-Perm a p, e, insert) (Perm.cons a p)
]

insert_twice :
    (s : List Text) (a b : Text)
    → (insert (insert s a) b ≡ insert (insert s b) a)
      ⊎ ((insert (insert s a) b ≡ b ∷ a ∷ s) × (insert (insert s b) a ≡ a ∷ b ∷ s))
unfolding insert contains
insert_twice s a b = ground (arith, text_eq_iff a b, text_eq_iff b a)

insert_swap : (s : List Text) (a b : Text) → Perm (insert (insert s a) b) (insert (insert s b) a)
insert_swap s a b = elim (insert_twice s a b) [
  | inl e ↦ subst (Perm (insert (insert s a) b)) e (Perm.refl _)
  | inr (e, f) ↦ rw (e, f) (Perm.swap a b s)
]

select_all-Perm :
    (xs : List Text) {s t : List Text} → Perm s t → Perm (select_all s xs) (select_all t xs)
unfolding select_all
select_all-Perm [] p = p
select_all-Perm (x ∷ xs) p = select_all-Perm xs (insert-Perm x p)

select_all-Permᴰ :
    {xs ys : List Text} → Permᴰ xs ys → (s : List Text) → Perm (select_all s xs) (select_all s ys)
unfolding select_all
select_all-Permᴰ Permᴰ.nil s = Perm.refl s
select_all-Permᴰ (Permᴰ.cons {b} e p) s = rw e (select_all-Permᴰ p (insert s b))
select_all-Permᴰ (Permᴰ.swap {a'} {b'} {l} e e') s =
    rw (e, e') (select_all-Perm l (insert_swap s b' a'))
select_all-Permᴰ (Permᴰ.trans p q) s = Perm.trans (select_all-Permᴰ p s) (select_all-Permᴰ q s)

pub select_Perm_all : {xs ys : List Text} → Perm xs ys → Perm (select_all [] xs) (select_all [] ys)
select_Perm_all p = ∥∥₁_elim p ∥∥₁_prop (λ d. select_all-Permᴰ d [])

-- No text stands in the list twice.
abbrev pub IsDistinct : List Text → Type 0
IsDistinct [] = Unit
IsDistinct (x ∷ xs) = (contains xs x ≡ false) × IsDistinct xs

contains-same : (xs : List Text) (x y : Text) → x ≡ y → contains xs x ≡ contains xs y
contains-same xs x y e = cc

length-select_all_bound : (xs s : List Text) → length (select_all s xs) ≤ length s + length xs
unfolding select_all insert
length-select_all_bound [] s = omega arith
length-select_all_bound (x ∷ xs) s =
    ground (arith, length-select_all_bound xs s, length-select_all_bound xs (x ∷ s))

contains-first : (x : Text) (xs : List Text) → contains (x ∷ xs) x ≡ true
unfolding contains
contains-first x xs = ground (arith, text_eq_iff x x)

-- The texts that are to be selected are not selected yet.
abbrev IsNew : List Text → List Text → Type 0
IsNew s xs = (y : Text) → contains xs y ≡ true → contains s y ≡ false

IsNew-tail :
    (x : Text) (xs s : List Text) → contains xs x ≡ false → IsNew s (x ∷ xs) → IsNew (x ∷ s) xs
unfolding contains
IsNew-tail x xs s d h y m = ground (arith, h y, text_eq_iff x y, contains-same xs x y)

pub length-select_all :
    (xs s : List Text)
    → IsDistinct xs
    → IsNew s xs
    → length (select_all s xs) ≡ length s + length xs
unfolding select_all insert
length-select_all [] s d h = omega arith
length-select_all (x ∷ xs) s d h =
    rw (h x (contains-first x xs), insert)
      (omega (arith, length-select_all xs (x ∷ s) d.1 (IsNew-tail x xs s d.0 h)))

-- Where all of a list are selected once, so are the first of them.
pub length-select_all-take :
    (xs s : List Text) (k : ℕ)
    → length (select_all s xs) ≡ length s + length xs
    → length (select_all s (take k xs)) ≡ length s + length (take k xs)
unfolding select_all insert
length-select_all-take xs s zero h = omega arith
length-select_all-take [] s (suc k) h = h
length-select_all-take (x ∷ xs) s (suc k) h =
    ground (arith, length-select_all_bound xs s, length-select_all-take xs (x ∷ s) k)
