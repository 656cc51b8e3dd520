-- ===== src/Rpc/Health/Calls.antt =====
-- What a history of calls makes of the entry of an endpoint.
use arc_signv.Common.{
  sym, ◌∙◌, Bool-cases, inl, inr, ℕ, suc, ◌+◌, ◌≤◌, ◌≡◌, refl, true, false, List, [], ◌∷◌, arith,
  if◌then◌else◌,
}
use arc_signv.Common.Text.{Str, str_eq, eq_iff}
use arc_signv.Common.Int.{ℤ, pos, -ℤ_parts}
use arc_signv.Common.Dict.{lookup, lookup-insert}
use arc_signv.Rpc.Health.{
  EndpointHealth, SimpleHealthTracker, new_simple_health_tracker, get_health, get_or_create_health,
  success_entry, record_success, failure_entry, record_failure,
}

-- One finished call: when, to which endpoint, and with what result.
pub data Call : Type 0 where
  succeeds : ℤ → Str → ℤ → Call
  fails : ℤ → Str → Call

unfoldable pub record_call : Call → SimpleHealthTracker → SimpleHealthTracker
record_call (succeeds now e duration) t = record_success now e duration t
record_call (fails now e) t = record_failure now e t

unfoldable pub record_calls : List Call → SimpleHealthTracker → SimpleHealthTracker
unfolding record_call
record_calls [] t = t
record_calls (c ∷ cs) t = record_calls cs (record_call c t)

-- What one call adds to the successes, or to the failures, of an endpoint.
pub won : Str → Call → ℕ
won k (succeeds now e duration) = if str_eq e k then 1 else 0
won k (fails now e) = 0

pub lost : Str → Call → ℕ
lost k (succeeds now e duration) = 0
lost k (fails now e) = if str_eq e k then 1 else 0

-- How many calls of a history went to the endpoint and succeeded, or failed.
pub successes : Str → List Call → ℕ
unfolding won
successes k [] = 0
successes k (c ∷ cs) = won k c + successes k cs

pub failures : Str → List Call → ℕ
unfolding lost
failures k [] = 0
failures k (c ∷ cs) = lost k c + failures k cs

pub get_health-record_call :
    (c : Call) (k : Str) (t : SimpleHealthTracker)
    → get_health k (record_call c t) ≡ elim c [
      | succeeds now e duration ↦
          if str_eq e k then success_entry t now duration (get_health k t) else get_health k t
      | fails now e ↦ if str_eq e k then failure_entry t now (get_health k t) else get_health k t
    ]
unfolding get_health record_call record_success record_failure
get_health-record_call (succeeds now e duration) k t = ground (
  arith,
  eq_iff e k,
  lookup-insert e k (success_entry t now duration (get_or_create_health e t)) t.health,
)
get_health-record_call (fails now e) k t =
    ground (
      arith,
      eq_iff e k,
      lookup-insert e k (failure_entry t now (get_or_create_health e t)) t.health,
    )

-- A tracker with the thresholds of `NewSimpleHealthTracker`.
abbrev pub HasDefaults : SimpleHealthTracker → Type 0
HasDefaults t = (t.failure_threshold ≡ pos 3) × (t.success_threshold ≡ pos 2)

pub record_call-HasDefaults :
    (c : Call) (t : SimpleHealthTracker) → HasDefaults t → HasDefaults (record_call c t)
unfolding record_call record_success record_failure
record_call-HasDefaults (succeeds now e duration) t d = d
record_call-HasDefaults (fails now e) t d = d

-- The counters add up to what was recorded before, and the circuit is open wherever the failures
-- lead by three, and closed wherever the successes lead by two.
pub record Consistent (s f : ℕ) (h : EndpointHealth) : Type 0 where
  pub successful : h.successful_calls ≡ s
  pub failed : h.failed_calls ≡ f
  pub total : h.total_calls ≡ s + f
  pub opens : s + 3 ≤ f → h.circuit_open ≡ true
  pub closes : f + 2 ≤ s → h.circuit_open ≡ false

pub success-Consistent :
    (t : SimpleHealthTracker) (now duration : ℤ) (s f : ℕ) (h : EndpointHealth)
    → HasDefaults t
    → Consistent s f h
    → Consistent (suc s) f (success_entry t now duration h)
unfolding success_entry
success-Consistent t now duration s f h d c =
    let lead = -ℤ_parts (pos (suc h.successful_calls)) (pos h.failed_calls) in
    record {
      successful = ground (arith, c.successful);
      failed = ground (arith, c.failed);
      total = ground (arith, c.total);
      opens = λ p. ground (arith, c.opens, c.successful, c.failed, lead, d.1);
      closes = λ p. ground (arith, c.closes, c.successful, c.failed, lead, d.1);
    }

pub failure-Consistent :
    (t : SimpleHealthTracker) (now : ℤ) (s f : ℕ) (h : EndpointHealth)
    → HasDefaults t
    → Consistent s f h
    → Consistent s (suc f) (failure_entry t now h)
unfolding failure_entry
failure-Consistent t now s f h d c =
    let lead = -ℤ_parts (pos (suc h.failed_calls)) (pos h.successful_calls) in
    record {
      successful = ground (arith, c.successful);
      failed = ground (arith, c.failed);
      total = ground (arith, c.total);
      opens = λ p. ground (arith, c.opens, c.successful, c.failed, lead, d.0);
      closes = λ p. ground (arith, c.closes, c.successful, c.failed, lead, d.0);
    }

pub Consistent-subst :
    {s s' f f' : ℕ} {h h' : EndpointHealth}
    → Consistent s f h
    → s ≡ s'
    → f ≡ f'
    → h ≡ h'
    → Consistent s' f' h'
Consistent-subst {s} {s'} {f} {f'} {h} {h'} c p q r = rw (← p, ← q, ← r) c

pub record_call-Consistent :
    (c : Call) (k : Str) (s f : ℕ) (t : SimpleHealthTracker)
    → HasDefaults t
    → Consistent s f (get_health k t)
    → Consistent (s + won k c) (f + lost k c) (get_health k (record_call c t))
unfolding won lost
record_call-Consistent (succeeds now e duration) k s f t d h = elim (Bool-cases (str_eq e k)) [
  | inl hit ↦ rw hit (
      Consistent-subst (success-Consistent t now duration s f (get_health k t) d h) (omega arith)
        (omega arith) (sym (get_health-record_call (succeeds now e duration) k t ∙ rw hit)))
  | inr miss ↦ rw miss (
      Consistent-subst h (omega arith) (omega arith)
        (sym (get_health-record_call (succeeds now e duration) k t ∙ rw miss)))
]
record_call-Consistent (fails now e) k s f t d h = elim (Bool-cases (str_eq e k)) [
  | inl hit ↦ rw hit (
      Consistent-subst (failure-Consistent t now s f (get_health k t) d h) (omega arith)
        (omega arith) (sym (get_health-record_call (fails now e) k t ∙ rw hit)))
  | inr miss ↦ rw miss (
      Consistent-subst h (omega arith) (omega arith)
        (sym (get_health-record_call (fails now e) k t ∙ rw miss)))
]

pub record_calls-Consistent :
    (cs : List Call) (k : Str) (s f : ℕ) (t : SimpleHealthTracker)
    → HasDefaults t
    → Consistent s f (get_health k t)
    → Consistent (s + successes k cs) (f + failures k cs) (get_health k (record_calls cs t))
unfolding record_calls successes failures
record_calls-Consistent [] k s f t d h = Consistent-subst h (omega arith) (omega arith) refl
record_calls-Consistent (c ∷ cs) k s f t d h =
    Consistent-subst
      (record_calls-Consistent cs k (s + won k c) (f + lost k c) (record_call c t)
        (record_call-HasDefaults c t d) (record_call-Consistent c k s f t d h))
      (omega arith) (omega arith) refl

pub blank-Consistent : (k : Str) → Consistent 0 0 (get_health k new_simple_health_tracker)
unfolding get_health new_simple_health_tracker lookup
blank-Consistent k = record {
  successful = refl;
  failed = refl;
  total = refl;
  opens = λ p. absurd (omega arith);
  closes = λ p. refl;
}

pub new-HasDefaults : HasDefaults new_simple_health_tracker
unfolding new_simple_health_tracker
new-HasDefaults = (refl, refl)
