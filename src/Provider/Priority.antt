-- ===== src/Provider/Priority.antt =====
-- sortConfigsByPriority of internal/provider/registry.go: bubble sort, highest priority first.
use mathlib.Core.Path.{subst}
use mathlib.Core.List.Perm
use mathlib.Core.List.{append-nil}
use mathlib.Core.List.{Perm}
use arc_signv.Common.{
  Bool, true, false, Bool-cases, inl, inr, ℕ, zero, suc, ◌-◌, ◌≡◌, refl, sym, ap, ◌∙◌, List, [],
  ◌∷◌, ◌++◌, if◌then◌else◌, length, All, arith,
}
use arc_signv.Common.Int.{◌≤ℤ◌, ltb_ℤ}
use arc_signv.Provider.{ProviderConfig}

-- The larger and the smaller of two neighbours; they are swapped only if the second is larger.
abbrev upper : ProviderConfig → ProviderConfig → ProviderConfig
upper a b = if ltb_ℤ a.priority b.priority then b else a

abbrev lower : ProviderConfig → ProviderConfig → ProviderConfig
lower a b = if ltb_ℤ a.priority b.priority then a else b

-- The inner loop, over so many pairs of neighbours.
pass : ℕ → List ProviderConfig → List ProviderConfig
pass zero xs = xs
pass (suc k) [] = []
pass (suc k) (a ∷ []) = a ∷ []
pass (suc k) (a ∷ b ∷ xs) = upper a b ∷ pass k (lower a b ∷ xs)

-- The outer loop, whose rounds get shorter by one.
bubble : ℕ → List ProviderConfig → List ProviderConfig
bubble zero xs = xs
bubble (suc m) xs = bubble m (pass (suc m) xs)

unfoldable pub sort_configs_by_priority : List ProviderConfig → List ProviderConfig
unfolding bubble pass
sort_configs_by_priority configs = bubble (length configs - 1) configs

abbrev pub NoneAbove : ProviderConfig → List ProviderConfig → Type 0
NoneAbove c = All (λ d. d.priority ≤ℤ c.priority)

-- Every configuration stands before those of lower priority.
abbrev pub IsDescending : List ProviderConfig → Type 0
IsDescending [] = Unit
IsDescending (c ∷ cs) = NoneAbove c cs × IsDescending cs

-- What one pass over a list with a head does: the rest of the list, and the smallest at its end.
carry : ProviderConfig → List ProviderConfig → List ProviderConfig × ProviderConfig
carry a [] = ([], a)
carry a (b ∷ xs) = let (out, low) = carry (lower a b) xs in (upper a b ∷ out, low)

pass-carry :
    (a : ProviderConfig) (xs ys : List ProviderConfig)
    → pass (length xs) (a ∷ (xs ++ ys)) ≡ (carry a xs).0 ++ (carry a xs).1 ∷ ys
unfolding pass carry
pass-carry a [] ys = refl
pass-carry a (b ∷ xs) ys = ap (◌∷◌ (upper a b)) (pass-carry (lower a b) xs ys)

length-carry : (a : ProviderConfig) (xs : List ProviderConfig) → length (carry a xs).0 ≡ length xs
unfolding carry
length-carry a [] = refl
length-carry a (b ∷ xs) = omega (arith, length-carry (lower a b) xs)

either-P {ℓ} :
    {A : Type ℓ} (P : A → Type 0) (test : Bool) (a b : A) → P a → P b → P (if test then a else b)
either-P P true a b p q = p
either-P P false a b p q = q

carry-All :
    (P : ProviderConfig → Type 0) (a : ProviderConfig) (xs : List ProviderConfig)
    → P a
    → All P xs
    → All P (carry a xs).0 × P (carry a xs).1
unfolding carry
carry-All P a [] p ps = (tt, p)
carry-All P a (b ∷ xs) p (q, ps) =
    let first = ltb_ℤ a.priority b.priority in
    let rest = carry-All P (lower a b) xs (either-P P first a b p q) ps in
    ((either-P P first b a q p, rest.0), rest.1)

carry_low :
    (a : ProviderConfig) (xs : List ProviderConfig)
    → ((carry a xs).1.priority ≤ℤ a.priority)
      × All (λ c. (carry a xs).1.priority ≤ℤ c.priority) (carry a xs).0
unfolding carry
carry_low a [] = (omega arith, tt)
carry_low a (b ∷ xs) = ground (arith, carry_low (lower a b) xs)

All-NoneAbove :
    (low : ProviderConfig) (xs ys : List ProviderConfig)
    → All (λ c. low.priority ≤ℤ c.priority) xs
    → All (λ c. NoneAbove c ys) xs
    → All (λ c. NoneAbove c (low ∷ ys)) xs
All-NoneAbove low [] ys p q = tt
All-NoneAbove low (x ∷ xs) ys p q = ((p.0, q.0), All-NoneAbove low xs ys p.1 q.1)

bubble-IsDescending :
    (m : ℕ) (xs ys : List ProviderConfig)
    → length xs ≡ suc m
    → IsDescending ys
    → All (λ c. NoneAbove c ys) xs
    → IsDescending (bubble m (xs ++ ys))
unfolding bubble pass
bubble-IsDescending m [] ys h d above = absurd (omega arith)
bubble-IsDescending zero (a ∷ []) ys h d above = (above.0, d)
bubble-IsDescending zero (a ∷ b ∷ xs) ys h d above = absurd (omega arith)
bubble-IsDescending (suc m) (a ∷ xs) ys h d above =
    let e : length xs ≡ suc m = omega arith in
    let (out, low) = carry a xs in
    let carried = carry-All (λ c. NoneAbove c ys) a xs above.0 above.1 in
    let passed : pass (suc m) (a ∷ (xs ++ ys)) ≡ out ++ low ∷ ys =
      ap (λ k. pass k (a ∷ (xs ++ ys))) (sym e) ∙ pass-carry a xs ys in
    subst (λ zs. IsDescending (bubble m zs)) (sym passed)
      (bubble-IsDescending m out (low ∷ ys) (length-carry a xs ∙ e) (carried.1, d)
        (All-NoneAbove low out ys (carry_low a xs).1 carried.0))

pass-perm : (k : ℕ) (xs : List ProviderConfig) → Perm (pass k xs) xs
unfolding pass
pass-perm zero xs = Perm.refl _
pass-perm (suc k) [] = Perm.refl _
pass-perm (suc k) (a ∷ []) = Perm.refl _
pass-perm (suc k) (a ∷ b ∷ xs) = elim (Bool-cases (ltb_ℤ a.priority b.priority)) [
  | inl e ↦ rw e (Perm.trans (Perm.cons b (pass-perm k (a ∷ xs))) (Perm.swap a b xs))
  | inr e ↦ rw e (Perm.cons a (pass-perm k (b ∷ xs)))
]

bubble-perm : (m : ℕ) (xs : List ProviderConfig) → Perm (bubble m xs) xs
unfolding bubble
bubble-perm zero xs = Perm.refl _
bubble-perm (suc m) xs = Perm.trans (bubble-perm m (pass (suc m) xs)) (pass-perm (suc m) xs)

pub sort_configs_by_priority-perm :
    (cs : List ProviderConfig) → Perm (sort_configs_by_priority cs) cs
unfolding sort_configs_by_priority
sort_configs_by_priority-perm cs = bubble-perm (length cs - 1) cs

All-nil : (cs : List ProviderConfig) → All (λ c. NoneAbove c []) cs
All-nil [] = tt
All-nil (c ∷ cs) = (tt, All-nil cs)

pub sort_configs_by_priority-IsDescending :
    (cs : List ProviderConfig) → IsDescending (sort_configs_by_priority cs)
unfolding sort_configs_by_priority bubble
sort_configs_by_priority-IsDescending [] = tt
sort_configs_by_priority-IsDescending (c ∷ cs) =
    subst (λ zs. IsDescending (bubble (length (c ∷ cs) - 1) zs)) (append-nil (c ∷ cs))
      (bubble-IsDescending (length (c ∷ cs) - 1) (c ∷ cs) [] (omega arith) tt (All-nil (c ∷ cs)))
