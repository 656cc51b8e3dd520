-- ===== src/Rpc/Failover/Choice.antt =====
-- Which endpoint the client turns to next.
use native.Mathlib.Nat.{mod-eq_of_lt, add-mod_right}
use arc_signv.Common.{
  ℕ, zero, suc, ◌+◌, ◌-◌, ◌%◌, ◌<◌, ◌≡◌, refl, sym, ◌∙◌, ap, true, false, List, [], ◌∷◌, none, some,
  arith, Bool-cases, Option-cases, inl, inr, ◌⊎◌, All, length, get_elem?, ltb,
}
use arc_signv.Common.Text.{Str}
use arc_signv.Common.Int.{ℤ}
use arc_signv.Rpc.Health.{is_healthy}
use arc_signv.Rpc.Health.Best.{mem, mem_here, mem_there}
use arc_signv.Rpc.Failover.{
  HttpRpcClient, next_healthy, first_unattempted, get_next_healthy_endpoint,
}

get_elem?-mem : (es : List Str) (i : ℕ) (e : Str) → get_elem? es i ≡ some e → mem e es ≡ true
get_elem?-mem [] i e h = cc
get_elem?-mem (x ∷ es) zero e h = ground (arith, mem_here e es)
get_elem?-mem (x ∷ es) (suc i) e h = mem_there e x es (get_elem?-mem es i e h)

abbrev position : HttpRpcClient → ℕ → ℕ
position c i = (c.current_index + i) % length c.endpoints

-- One round: the search ends with an endpoint that may be used, or passes over one that may not.
next_healthy-suc :
    (now : ℤ) (c : HttpRpcClient) (attempted : List Str) (left i : ℕ)
    → ((next_healthy now c attempted (suc left) i ≡ next_healthy now c attempted left (suc i))
        × ((e : Str)
            → get_elem? c.endpoints (position c i) ≡ some e
            → mem e attempted ≡ false
            → is_healthy now e c.health_tracker ≡ false))
      ⊎ ((e : Str) × (next_healthy now c attempted (suc left) i ≡ some (position c i))
          × (get_elem? c.endpoints (position c i) ≡ some e)
          × (mem e attempted ≡ false)
          × (is_healthy now e c.health_tracker ≡ true))
unfolding next_healthy
next_healthy-suc now c attempted left i =
    elim (Option-cases (get_elem? c.endpoints (position c i))) [
      | inl absent ↦ inl (rw (absent, next_healthy), λ e there. cc)
      | inr (e, there) ↦ elim (Bool-cases (mem e attempted)) [
        | inl old ↦ inl (rw (there, old, next_healthy), λ e' there' new. ground arith)
        | inr new ↦ elim (Bool-cases (is_healthy now e c.health_tracker)) [
          | inl well ↦ inr (e, rw (there, new, well, next_healthy), there, new, well)
          | inr sick ↦ inl (rw (there, new, sick, next_healthy), λ e' there' new'. ground arith)
        ]
      ]
    ]

-- What the search answers with is the position of an endpoint that may be used.
next_healthy_sound :
    (now : ℤ) (c : HttpRpcClient) (attempted : List Str) (left i idx : ℕ)
    → next_healthy now c attempted left i ≡ some idx
    → (e : Str) × (get_elem? c.endpoints idx ≡ some e)
      × (mem e attempted ≡ false)
      × (is_healthy now e c.health_tracker ≡ true)
next_healthy_sound now c attempted zero i idx h = unfold next_healthy in (cc)
next_healthy_sound now c attempted (suc left) i idx h =
    elim (next_healthy-suc now c attempted left i) [
      | inl (eq, _) ↦ next_healthy_sound now c attempted left (suc i) idx (sym eq ∙ h)
      | inr (e, eq, there, new, well) ↦
          let same : position c i ≡ idx = ground arith in (e, rw (← same) there, new, well)
    ]

-- Where the search fails, no endpoint at a position that it visits may be used.
next_healthy_complete :
    (now : ℤ) (c : HttpRpcClient) (attempted : List Str) (left i r : ℕ) (e : Str)
    → next_healthy now c attempted left i ≡ none
    → r < left
    → get_elem? c.endpoints (position c (i + r)) ≡ some e
    → mem e attempted ≡ false
    → is_healthy now e c.health_tracker ≡ false
next_healthy_complete now c attempted zero i r e h p there new = absurd (omega arith)
next_healthy_complete now c attempted (suc left) i zero e h p there new =
    let same : i + 0 ≡ i = omega arith in
    elim (next_healthy-suc now c attempted left i) [
      | inr (e', eq, _, _, _) ↦ cc
      | inl (eq, pass) ↦ pass e (rw same at there) new
    ]
next_healthy_complete now c attempted (suc left) i (suc r) e h p there new =
    let shift : i + suc r ≡ suc i + r = omega arith in
    elim (next_healthy-suc now c attempted left i) [
      | inr (e', eq, _, _, _) ↦ cc
      | inl (eq, pass) ↦
          next_healthy_complete now c attempted left (suc i) r e (sym eq ∙ h) (omega arith)
            (rw shift at there) new
    ]

-- The round in which the search comes to a position.
round_of : (cur j n : ℕ) → cur < n → j < n → (r : ℕ) × (r < n) × ((cur + (0 + r)) % n ≡ j)
round_of cur j n p q = elim (Bool-cases (ltb j cur)) [
  | inl before ↦ (
    j + n - cur,
    ground arith,
    ap (λ x. x % n) (ground arith) ∙ add-mod_right j n ∙ mod-eq_of_lt q,
  )
  | inr after ↦ (j - cur, ground arith, ap (λ x. x % n) (ground arith) ∙ mod-eq_of_lt q)
]

get_elem?-lt : (es : List Str) (j : ℕ) (e : Str) → get_elem? es j ≡ some e → j < length es
get_elem?-lt [] j e h = cc
get_elem?-lt (x ∷ es) zero e h = omega arith
get_elem?-lt (x ∷ es) (suc j) e h = omega (arith, get_elem?-lt es j e h)

abbrev pub AllAttempted : List Str → List Str → Type 0
AllAttempted attempted es = All (λ e. mem e attempted ≡ true) es

first_unattempted-cases :
    (attempted es : List Str)
    → ((first_unattempted attempted es ≡ []) × AllAttempted attempted es)
      ⊎ ((mem (first_unattempted attempted es) es ≡ true)
          × (mem (first_unattempted attempted es) attempted ≡ false))
first_unattempted-cases attempted [] = inl (unfold first_unattempted in refl, tt)
first_unattempted-cases attempted (e ∷ es) = elim (Bool-cases (mem e attempted)) [
  | inl old ↦
      let eq : first_unattempted attempted (e ∷ es) ≡ first_unattempted attempted es =
        unfold first_unattempted in rw old in
      elim (first_unattempted-cases attempted es) [
        | inl (nothing, all_old) ↦ inl (eq ∙ nothing, (old, all_old))
        | inr (here, new) ↦
            inr (rw eq (mem_there (first_unattempted attempted es) e es here), rw eq new)
      ]
  | inr new ↦
      let eq : first_unattempted attempted (e ∷ es) ≡ e = unfold first_unattempted in rw new in
      inr (rw eq (mem_here e es), rw eq new)
]

-- What the next endpoint is: one of the client's that was not attempted, or none, as the empty text,
-- when all were.
pub next_endpoint-cases :
    (now : ℤ) (c : HttpRpcClient) (attempted : List Str)
    → ((mem (get_next_healthy_endpoint now c attempted).1 c.endpoints ≡ true)
        × (mem (get_next_healthy_endpoint now c attempted).1 attempted ≡ false))
      ⊎ (((get_next_healthy_endpoint now c attempted).1 ≡ []) × AllAttempted attempted c.endpoints)
next_endpoint-cases now c attempted =
    elim (Option-cases (next_healthy now c attempted (length c.endpoints) 0)) [
      | inl nothing ↦
          let eq : (get_next_healthy_endpoint now c attempted).1
              ≡ first_unattempted attempted c.endpoints =
            unfold get_next_healthy_endpoint in rw (nothing, get_next_healthy_endpoint) in
          elim (first_unattempted-cases attempted c.endpoints) [
            | inl (e, all_old) ↦ inr (eq ∙ e, all_old)
            | inr (here, new) ↦ inl (rw eq here, rw eq new)
          ]
      | inr (idx, found) ↦
          let (e, there, new, well) =
            next_healthy_sound now c attempted (length c.endpoints) 0 idx found in
          let eq : (get_next_healthy_endpoint now c attempted).1 ≡ e =
            unfold get_next_healthy_endpoint in rw (found, there, get_next_healthy_endpoint) in
          inl (rw eq (get_elem?-mem c.endpoints idx e there), rw eq new)
    ]

pub next_endpoint-keeps :
    (now : ℤ) (c : HttpRpcClient) (attempted : List Str)
    → ((get_next_healthy_endpoint now c attempted).0.endpoints ≡ c.endpoints)
      × ((get_next_healthy_endpoint now c attempted).0.request_id ≡ c.request_id)
unfolding get_next_healthy_endpoint
next_endpoint-keeps now c attempted = ground arith

-- Wherever the round-robin index stands, as long as a healthy endpoint was not attempted yet the
-- client turns to a healthy endpoint of its list that was not attempted yet.
pub next_endpoint-healthy :
    (now : ℤ) (c : HttpRpcClient) (attempted : List Str) (j : ℕ) (e : Str)
    → c.current_index < length c.endpoints
    → get_elem? c.endpoints j ≡ some e
    → mem e attempted ≡ false
    → is_healthy now e c.health_tracker ≡ true
    → (is_healthy now (get_next_healthy_endpoint now c attempted).1 c.health_tracker ≡ true)
      × (mem (get_next_healthy_endpoint now c attempted).1 attempted ≡ false)
      × (mem (get_next_healthy_endpoint now c attempted).1 c.endpoints ≡ true)
next_endpoint-healthy now c attempted j e valid there new well =
    elim (Option-cases (next_healthy now c attempted (length c.endpoints) 0)) [
      | inl nothing ↦
          let (r, p, at) =
            round_of c.current_index j (length c.endpoints) valid
              (get_elem?-lt c.endpoints j e there) in
          let sick =
            next_healthy_complete now c attempted (length c.endpoints) 0 r e nothing p (rw at there)
              new in
          cc
      | inr (idx, found) ↦
          let (e', there', new', well') =
            next_healthy_sound now c attempted (length c.endpoints) 0 idx found in
          let eq : (get_next_healthy_endpoint now c attempted).1 ≡ e' =
            unfold get_next_healthy_endpoint in rw (found, there', get_next_healthy_endpoint) in
          (rw eq well', rw eq new', rw eq (get_elem?-mem c.endpoints idx e' there'))
    ]
