-- ===== src/Storage/Sorted.antt =====
-- `sort.Slice` by FirstSeen, newest first, as both stores call it. The order of states that were
-- first seen at one instant, which Go leaves open, is that of an insertion sort.
use mathlib.Core.List.{Perm}
use mathlib.Core.List.Perm
use arc_signv.Common.{Bool, List, [], ◌∷◌, arith, if◌then◌else◌, All, Bool-cases, inl, inr}
use arc_signv.Common.Int.{◌≤ℤ◌, ltb_ℤ}
use arc_signv.Storage.{TxState}

-- x.FirstSeen.After(y.FirstSeen)
unfoldable pub newer : TxState → TxState → Bool
newer x y = ltb_ℤ y.first_seen x.first_seen

insert_newest : TxState → List TxState → List TxState
insert_newest x [] = x ∷ []
insert_newest x (y ∷ ys) = if newer y x then y ∷ insert_newest x ys else x ∷ y ∷ ys

unfoldable pub sort_newest : List TxState → List TxState
unfolding insert_newest
sort_newest [] = []
sort_newest (x ∷ xs) = insert_newest x (sort_newest xs)

abbrev pub NewestFirst : List TxState → Type 0
NewestFirst [] = Unit
NewestFirst (x ∷ xs) = All (λ y. y.first_seen ≤ℤ x.first_seen) xs × NewestFirst xs

insert_newest-perm : (x : TxState) (xs : List TxState) → Perm (insert_newest x xs) (x ∷ xs)
unfolding insert_newest
insert_newest-perm x [] = Perm.refl _
insert_newest-perm x (y ∷ ys) = elim (Bool-cases (newer y x)) [
  | inl e ↦ rw e (Perm.trans (Perm.cons y (insert_newest-perm x ys)) (Perm.swap x y ys))
  | inr e ↦ rw e (Perm.refl _)
]

pub sort_newest-perm : (xs : List TxState) → Perm (sort_newest xs) xs
unfolding sort_newest
sort_newest-perm [] = Perm.refl _
sort_newest-perm (x ∷ xs) =
    Perm.trans (insert_newest-perm x (sort_newest xs)) (Perm.cons x (sort_newest-perm xs))

All-le_trans :
    (x y : TxState) (zs : List TxState)
    → y.first_seen ≤ℤ x.first_seen
    → All (λ z. z.first_seen ≤ℤ y.first_seen) zs
    → All (λ z. z.first_seen ≤ℤ x.first_seen) zs
All-le_trans x y [] h a = tt
All-le_trans x y (z ∷ zs) h a = (omega arith, All-le_trans x y zs h a.1)

insert_newest-All :
    (x y : TxState) (zs : List TxState)
    → y.first_seen ≤ℤ x.first_seen
    → All (λ z. z.first_seen ≤ℤ x.first_seen) zs
    → All (λ z. z.first_seen ≤ℤ x.first_seen) (insert_newest y zs)
unfolding insert_newest
insert_newest-All x y [] h a = (h, tt)
insert_newest-All x y (z ∷ zs) h a = ground (arith, insert_newest-All x y zs h)

insert_newest-NewestFirst :
    (x : TxState) (xs : List TxState) → NewestFirst xs → NewestFirst (insert_newest x xs)
unfolding insert_newest newer
insert_newest-NewestFirst x [] h = (tt, tt)
insert_newest-NewestFirst x (y ∷ ys) h =
    ground (arith, insert_newest-All y x ys, insert_newest-NewestFirst x ys, All-le_trans x y ys)

pub sort_newest-NewestFirst : (xs : List TxState) → NewestFirst (sort_newest xs)
unfolding sort_newest
sort_newest-NewestFirst [] = tt
sort_newest-NewestFirst (x ∷ xs) =
    insert_newest-NewestFirst x (sort_newest xs) (sort_newest-NewestFirst xs)
