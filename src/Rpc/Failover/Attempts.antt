-- ===== src/Rpc/Failover/Attempts.antt =====
-- How many endpoints a client has still to attempt.
-- attempted.
use arc_signv.Common.{
  ℕ, ◌+◌, ◌≤◌, ◌≡◌, ◌≢◌, refl, true, false, List, [], ◌∷◌, arith, if◌then◌else◌, All, length,
}
use arc_signv.Common.Text.{Str, eq_iff, eq_refl}
use arc_signv.Rpc.Health.Best.{mem}
use arc_signv.Rpc.Failover.Choice.{AllAttempted}

-- How many positions of the list hold an endpoint that was not attempted.
pub unattempted : List Str → List Str → ℕ
unattempted attempted [] = 0
unattempted attempted (e ∷ es) = (if mem e attempted then 0 else 1) + unattempted attempted es

pub unattempted_all : (es : List Str) → unattempted [] es ≡ length es
unfolding unattempted mem
unattempted_all [] = refl
unattempted_all (e ∷ es) = omega (arith, unattempted_all es)

pub unattempted-le :
    (e : Str) (attempted es : List Str) → unattempted (e ∷ attempted) es ≤ unattempted attempted es
unfolding unattempted mem
unattempted-le e attempted [] = omega arith
unattempted-le e attempted (x ∷ es) = ground (arith, unattempted-le e attempted es)

pub unattempted_falls :
    (e : Str) (attempted es : List Str)
    → mem e es ≡ true
    → mem e attempted ≡ false
    → unattempted (e ∷ attempted) es + 1 ≤ unattempted attempted es
unfolding unattempted mem
unattempted_falls e attempted [] h new = absurd (ground arith)
unattempted_falls e attempted (x ∷ es) h new = ground (
  arith,
  eq_iff x e,
  eq_iff e x,
  eq_refl e,
  unattempted-le e attempted es,
  unattempted_falls e attempted es,
)

pub unattempted_none :
    (attempted es : List Str) → unattempted attempted es ≡ 0 → AllAttempted attempted es
unfolding unattempted
unattempted_none attempted [] h = tt
unattempted_none attempted (e ∷ es) h = ground (arith, unattempted_none attempted es)

pub mem-ne-nil : (es : List Str) → All (λ e. e ≢ []) es → mem [] es ≢ true
unfolding mem
mem-ne-nil [] named h = cc
mem-ne-nil (e ∷ es) named h = ground (arith, named.0, eq_iff e [], mem-ne-nil es named.1)
