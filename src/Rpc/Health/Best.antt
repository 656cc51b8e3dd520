-- ===== src/Rpc/Health/Best.antt =====
-- What `GetBestEndpoint` picks.
use arc_signv.Common.{
  ◌≡◌, ◌≢◌, refl, Bool, true, false, List, [], ◌∷◌, some, arith, if◌then◌else◌, Bool-cases,
  Option-cases, inl, inr, ◌⊎◌, All,
}
use arc_signv.Common.Text.{Str, str_eq, eq_iff, eq_refl}
use arc_signv.Common.Int.{ℤ, negsuc}
use arc_signv.Common.Float.{FloatOps}
use arc_signv.Common.Dict.{lookup}
use arc_signv.Rpc.Health.{
  EndpointHealth, SimpleHealthTracker, is_healthy, score, best_loop, get_best_endpoint,
}

unfoldable pub mem : Str → List Str → Bool
mem k [] = false
mem k (e ∷ es) = if str_eq e k then true else mem k es

pub mem_here : (e : Str) (es : List Str) → mem e (e ∷ es) ≡ true
unfolding mem
mem_here e es = ground (arith, eq_refl e)

pub mem_there : (k e : Str) (es : List Str) → mem k es ≡ true → mem k (e ∷ es) ≡ true
unfolding mem
mem_there k e es h = ground arith

module _ (ops : FloatOps) where
  open ops use {Float, literal, lt}

  -- One round: an unhealthy endpoint is passed over, a new one is taken at once, and a known one is
  -- taken for the best so far or passed over.
  best_loop-cons :
      (now : ℤ) (t : SimpleHealthTracker) (e : Str) (es : List Str) (best : Str) (f : Float)
      → ((best_loop ops now t (e ∷ es) best f ≡ best_loop ops now t es best f)
          × ((is_healthy now e t ≡ false)
              ⊎ ((h : EndpointHealth) × (lookup e t.health ≡ some h)
                  × (lt f (score ops h) ≡ false))))
        ⊎ ((best_loop ops now t (e ∷ es) best f ≡ e) × (is_healthy now e t ≡ true))
        ⊎ ((h : EndpointHealth) × (best_loop ops now t (e ∷ es) best f
              ≡ best_loop ops now t es e (score ops h))
            × (is_healthy now e t ≡ true))
  unfolding best_loop
  best_loop-cons now t e es best f = elim (Bool-cases (is_healthy now e t)) [
    | inr sick ↦ inl (rw sick, inl sick)
    | inl well ↦ elim (Option-cases (lookup e t.health)) [
      | inl new ↦ inr (inl (rw (well, new), well))
      | inr (h, known) ↦ elim (Bool-cases (lt f (score ops h))) [
        | inl up ↦ inr (inr (h, rw (well, known, up), well))
        | inr down ↦ inl (rw (well, known, down), inr (h, known, down))
      ]
    ]
  ]

  -- The loop answers with the best so far, or with a healthy endpoint of the list.
  best_loop-healthy :
      (now : ℤ) (t : SimpleHealthTracker) (es : List Str) (best : Str) (f : Float)
      → (best_loop ops now t es best f ≡ best)
        ⊎ ((is_healthy now (best_loop ops now t es best f) t ≡ true)
            × (mem (best_loop ops now t es best f) es ≡ true))
  best_loop-healthy now t [] best f = inl (unfold best_loop in refl)
  best_loop-healthy now t (e ∷ es) best f = elim (best_loop-cons now t e es best f) [
    | inl (eq, _) ↦ rw eq (
        ground (
          arith,
          best_loop-healthy now t es best f,
          mem_there (best_loop ops now t es best f) e es,
        ))
    | inr (inl (eq, well)) ↦ rw eq (inr (well, mem_here e es))
    | inr (inr (h, eq, well)) ↦
        let r = best_loop ops now t es e (score ops h) in
        rw eq (
          ground
            (arith, best_loop-healthy now t es e (score ops h), mem_there r e es, mem_here e es))
  ]

  abbrev pub Beaten : SimpleHealthTracker → Type 0
  Beaten t =
      (e : Str) (h : EndpointHealth)
      → lookup e t.health ≡ some h
      → lt (literal (negsuc 0) 1) (score ops h) ≡ true

  abbrev pub some_healthy : ℤ → SimpleHealthTracker → List Str → Bool
  some_healthy now t [] = false
  some_healthy now t (e ∷ es) = if is_healthy now e t then true else some_healthy now t es

  best_loop-found :
      (now : ℤ) (t : SimpleHealthTracker) (es : List Str)
      → Beaten t
      → some_healthy now t es ≡ true
      → (is_healthy now (best_loop ops now t es [] (literal (negsuc 0) 1)) t ≡ true)
        × (mem (best_loop ops now t es [] (literal (negsuc 0) 1)) es ≡ true)
  best_loop-found now t [] b h = cc
  best_loop-found now t (e ∷ es) b p = elim (best_loop-cons now t e es [] (literal (negsuc 0) 1)) [
    | inl (eq, inl sick) ↦
        let r = best_loop ops now t es [] (literal (negsuc 0) 1) in
        rw eq (ground (arith, best_loop-found now t es b, mem_there r e es))
    | inl (eq, inr (h, known, down)) ↦ absurd (ground (arith, b e h known))
    | inr (inl (eq, well)) ↦ rw eq (well, mem_here e es)
    | inr (inr (h, eq, well)) ↦
        let r = best_loop ops now t es e (score ops h) in
        rw eq (
          ground
            (arith, best_loop-healthy now t es e (score ops h), mem_there r e es, mem_here e es))
  ]

  mem-ne-nil :
      (k : Str) (es : List Str) → All (λ e. e ≢ []) es → mem k es ≡ true → str_eq k [] ≡ false
  unfolding mem
  mem-ne-nil k [] a m = cc
  mem-ne-nil k (e ∷ es) a m = ground (arith, a.0, eq_iff e k, eq_iff k [], mem-ne-nil k es a.1)

  -- If an endpoint of the list is healthy, `GetBestEndpoint` returns a healthy endpoint of the list.
  -- (Endpoints are not the empty text, and every score beats the -1 that the search starts from.)
  pub best_healthy :
      (now : ℤ) (t : SimpleHealthTracker) (es : List Str)
      → Beaten t
      → All (λ e. e ≢ []) es
      → some_healthy now t es ≡ true
      → (is_healthy now (get_best_endpoint ops now t es) t ≡ true)
        × (mem (get_best_endpoint ops now t es) es ≡ true)
  unfolding get_best_endpoint
  best_healthy now t es b named p =
      let found = best_loop-found now t es b p in rw (mem-ne-nil _ es named found.1) found
