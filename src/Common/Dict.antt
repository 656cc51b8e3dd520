-- ===== src/Common/Dict.antt =====
-- A Go map with string keys: an association list. Iteration order, which Go leaves open, is the
-- list's.
use mathlib.Core.Path.{◌≡◌, refl}
use mathlib.Core.List.{List, [], ◌∷◌}
use mathlib.Core.Option.{Option, none, some}
use native.Mathlib.Omega.{arith}
use arc_signv.Common.Tests.{if◌then◌else◌}
use arc_signv.Common.Text.{Str, str_eq, eq_iff, eq_refl}

abbrev pub Dict {ℓ} : Type ℓ → Type ℓ
Dict V = List (Str × V)

module _ {ℓ} {V : Type ℓ} where
  unfoldable pub lookup : Str → Dict V → Option V
  lookup k [] = none
  lookup k ((j, v) ∷ m) = if str_eq j k then some v else lookup k m

  unfoldable pub erase : Str → Dict V → Dict V
  erase k [] = []
  erase k ((held, w) ∷ rest) = if str_eq held k then erase k rest else (held, w) ∷ erase k rest

  pub lookup-erase :
      (k j : Str) (m : Dict V) → lookup j (erase k m) ≡ (if str_eq k j then none else lookup j m)
  unfolding lookup erase
  lookup-erase k j [] = ground arith
  lookup-erase k j ((held, w) ∷ rest) =
      ground (arith, eq_iff k j, eq_iff held k, eq_iff held j, lookup-erase k j rest)

  -- An assignment to a key that is held replaces its value where it stands.
  unfoldable pub insert : Str → V → Dict V → Dict V
  insert k new [] = (k, new) ∷ []
  insert k new ((held, old) ∷ rest) =
      if str_eq held k then (k, new) ∷ rest else (held, old) ∷ insert k new rest

  pub lookup-insert :
      (k j : Str) (new : V) (m : Dict V)
      → lookup j (insert k new m) ≡ (if str_eq k j then some new else lookup j m)
  unfolding insert lookup
  lookup-insert k j new ((held, old) ∷ rest) =
      ground (arith, lookup-insert k j new rest, eq_iff held k, eq_iff held j, eq_iff k j)
  lookup-insert k j new [] = refl

  pub lookup-insert_self : (k : Str) (new : V) (m : Dict V) → lookup k (insert k new m) ≡ some new
  lookup-insert_self k new m = simp (lookup-insert, eq_refl)

  -- Every key is held once, which a Go map gives for nothing.
  abbrev pub Distinct : Dict V → Type ℓ
  Distinct [] = Unit
  Distinct ((k, v) ∷ m) = (lookup k m ≡ none) × Distinct m

  pub insert-Distinct : (k : Str) (v : V) (m : Dict V) → Distinct m → Distinct (insert k v m)
  unfolding lookup insert
  insert-Distinct k v [] d = ground arith
  insert-Distinct k v ((j, w) ∷ m) d =
      ground (arith, eq_iff j k, eq_iff k j, lookup-insert k j v m, insert-Distinct k v m)

  pub erase-Distinct : (k : Str) (m : Dict V) → Distinct m → Distinct (erase k m)
  unfolding lookup erase
  erase-Distinct k [] d = tt
  erase-Distinct k ((j, w) ∷ m) d =
      ground (arith, eq_iff k j, lookup-erase k j m, erase-Distinct k m)

  -- The keys of a map, in the order of its list.
  unfoldable pub keys : Dict V → List Str
  keys [] = []
  keys ((k, v) ∷ m) = k ∷ keys m
