-- ===== src/P2p/HopWave/Targets.antt =====
-- The choice of targets: how many, from where, and that the order of the neighbors is no matter.
use mathlib.Core.List.{Perm, Permᴰ}
use mathlib.Core.List.Perm
use mathlib.Core.Logic.{∥∥₁_elim}
use native.Mathlib.Nat.{ℕ_set}
use peerkit.Prelude.{
  ℕ, zero, suc, ◌≤◌, ◌<◌, ◌≡◌, refl, ap, ◌∙◌, inl, inr, false, ◌||◌, List, [], ◌∷◌, Text, length,
  take, text_leb, text_leb_total, text_leb_antisymm, text_leb_trans, if◌then◌else◌, arith,
  Bool-cases, ◌==◌, ◌+◌, contains, text_key,
}
use peerkit.Float.{FloatOps}
use peerkit.P2p.HopWave.Selected.{
  IsDistinct, select_Perm_all, length-select_all, length-select_all-take,
}
use peerkit.P2p.HopWave.{
  Shuffle, insert_sorted, sort_strings, clamp_count, select_all, select_hop_wave_targets,
}

insert_sorted_swap :
    (s t : Text) (us : List Text)
    → insert_sorted s (insert_sorted t us) ≡ insert_sorted t (insert_sorted s us)
unfolding insert_sorted
insert_sorted_swap s t [] =
    ground (arith, text_leb_total s t, text_leb_total t s, text_leb_antisymm s t)
insert_sorted_swap s t (u ∷ us) = ground (
  arith,
  insert_sorted_swap s t us,
  text_leb_total s t,
  text_leb_total t s,
  text_leb_antisymm s t,
  text_leb_trans s t u,
  text_leb_trans t s u,
  text_leb_total s u,
  text_leb_total t u,
  text_leb_trans s u t,
  text_leb_trans t u s,
)

sort_Permᴰ : {xs ys : List Text} → Permᴰ xs ys → sort_strings xs ≡ sort_strings ys
unfolding sort_strings
sort_Permᴰ Permᴰ.nil = refl
sort_Permᴰ (Permᴰ.cons e p) = cc (e, sort_Permᴰ p)
sort_Permᴰ (Permᴰ.swap {a} {b} {l = l} e e') = cc (e, e', insert_sorted_swap a b (sort_strings l))
sort_Permᴰ (Permᴰ.trans p q) = sort_Permᴰ p ∙ sort_Permᴰ q

sort_Perm : {xs ys : List Text} → Perm xs ys → sort_strings xs ≡ sort_strings ys
sort_Perm {xs} {ys} p = ∥∥₁_elim p (texts_set _ _) sort_Permᴰ
  where
    texts_set : IsSet (List Text)
    texts_set = hlevel

length_Permᴰ {ℓ} : {A : Type ℓ} {xs ys : List A} → Permᴰ xs ys → length xs ≡ length ys
length_Permᴰ Permᴰ.nil = refl
length_Permᴰ (Permᴰ.cons e p) = ap suc (length_Permᴰ p)
length_Permᴰ (Permᴰ.swap e e') = refl
length_Permᴰ (Permᴰ.trans p q) = length_Permᴰ p ∙ length_Permᴰ q

pub length_Perm {ℓ} : {A : Type ℓ} {xs ys : List A} → Perm xs ys → length xs ≡ length ys
length_Perm p = ∥∥₁_elim p (ℕ_set _ _) length_Permᴰ

insert_sorted-perm : (t : Text) (us : List Text) → Perm (insert_sorted t us) (t ∷ us)
unfolding insert_sorted
insert_sorted-perm t [] = Perm.refl (t ∷ [])
insert_sorted-perm t (u ∷ us) = elim (Bool-cases (text_leb t u)) [
  | inl e ↦ rw (e, insert_sorted) (Perm.refl (t ∷ u ∷ us))
  | inr e ↦
      rw (e, insert_sorted) (Perm.trans (Perm.cons u (insert_sorted-perm t us)) (Perm.swap t u us))
]

sort_strings-perm : (ts : List Text) → Perm (sort_strings ts) ts
unfolding sort_strings
sort_strings-perm [] = Perm.refl []
sort_strings-perm (t ∷ ts) =
    Perm.trans (insert_sorted-perm t (sort_strings ts)) (Perm.cons t (sort_strings-perm ts))

length-take : (n : ℕ) (l : List Text) → n ≤ length l → length (take n l) ≡ n
length-take zero l h = refl
length-take (suc n) [] h = absurd (omega arith)
length-take (suc n) (x ∷ l) h = ap suc (length-take n l (omega arith))

nothing : (y : Text) → contains [] y ≡ false
unfolding contains
nothing y = refl

clamp_bounds : (n count : ℕ) → 0 < n → (1 ≤ clamp_count n count) × (clamp_count n count ≤ n)
unfolding clamp_count
clamp_bounds n count h = ground arith

module _ {F : Type 0} ⦃fl : FloatOps F⦄ (sh : Shuffle) where
  -- Of at least one eligible neighbor, no two of them the same, and a fraction that is not 0 or less, at least one is
  -- chosen, and no more than there are; a fraction of 1 or more takes them all, and one below 1 takes
  -- the rounded fraction of them, raised to 1 and cut to their number.
  pub select_size :
      (eligible : List Text) (factor : F) (seed : ℕ)
      → fl.le factor (fl.of_int 0) ≡ false
      → 0 < length eligible
      → IsDistinct eligible
      → (1 ≤ length (select_hop_wave_targets sh eligible factor seed))
        × (length (select_hop_wave_targets sh eligible factor seed) ≤ length eligible)
        × (length (select_hop_wave_targets sh eligible factor seed) ≡ (
            if fl.le (fl.of_int 1) factor
            then length eligible
            else clamp_count
                (length eligible)
                (fl.round (fl.mul factor (fl.of_int (length eligible))))))
  unfolding select_hop_wave_targets
  select_size eligible factor seed f h d =
      let count = fl.round (fl.mul factor (fl.of_int (length eligible))) in
      let shuffled = sh.shuffle seed (sort_strings eligible) in
      let same : Perm shuffled eligible =
        Perm.trans (sh.shuffle-perm seed (sort_strings eligible)) (sort_strings-perm eligible) in
      let size = length_Perm same in
      let all = length-select_all eligible [] d (λ y m. nothing y) in
      let every : length (select_all [] shuffled) ≡ 0 + length shuffled =
        omega (arith, length_Perm (select_Perm_all same), all, size) in
      let bounds = clamp_bounds (length eligible) count h in
      let k = clamp_count (length eligible) count in
      let chosen = length-select_all-take shuffled [] k every in
      let taken = length-take k shuffled (omega arith) in
      (
        ground (arith, taken, chosen, all, bounds),
        ground (arith, taken, chosen, all, bounds),
        ground (arith, taken, chosen, all, bounds),
      )

  -- The order in which the topology lists the neighbors is no matter: for permuted neighbors the same
  -- seed chooses the same targets.
  pub select_Perm :
      (xs ys : List Text) (factor : F) (seed : ℕ)
      → Perm xs ys
      → Perm (select_hop_wave_targets sh xs factor seed) (select_hop_wave_targets sh ys factor seed)
  unfolding select_hop_wave_targets
  select_Perm xs ys factor seed p =
      elim (Bool-cases (length ys == 0 || fl.le factor (fl.of_int 0))) [
        | inl e ↦ rw (length_Perm p, e, select_hop_wave_targets) (Perm.refl [])
        | inr e ↦ elim (Bool-cases (fl.le (fl.of_int 1) factor)) [
          | inl f ↦ rw (length_Perm p, e, f, select_hop_wave_targets) (select_Perm_all p)
          | inr f ↦ rw (length_Perm p, e, f, sort_Perm p, select_hop_wave_targets) (Perm.refl _)
        ]
      ]
