-- ===== src/Common/Text.antt =====
-- A Go string is its sequence of bytes.
use Prim.Native.Nat.{ℕ, zero, suc, ◌+◌, ◌-◌, ◌/◌, ◌%◌}
use Prim.Native.Char.{code}
use Prim.Native.String.{String}
use mathlib.Core.Path.{◌≡◌, refl}
use mathlib.Core.Logic.{◌↔◌}
use mathlib.Core.Bool.{Bool, true, false, ◌&&◌, ◌||◌}
use mathlib.Core.List.{List, [], ◌∷◌, ◌++◌}
use native.Mathlib.Omega.{arith}
use arc_signv.Common.Tests.{◌==◌, ltb, if◌then◌else◌}
use arc_signv.Common.Int.{ℤ, pos, negsuc}

abbrev pub Str : Type 0
Str = List ℕ

-- The bytes of an ASCII literal.
abbrev pub codes : String → Str
codes String.[] = []
codes (String.◌∷◌ c s) = code c ∷ codes s

unfoldable pub str_eq : Str → Str → Bool
str_eq (u ∷ us) (v ∷ vs) = (u == v) && (str_eq us vs)
str_eq (u ∷ us) [] = false
str_eq [] (v ∷ vs) = false
str_eq [] [] = true

pub eq_sound : (s t : Str) → (str_eq s t) ≡ true → s ≡ t
unfolding str_eq
eq_sound (u ∷ us) (v ∷ vs) h = ground (arith, eq_sound us vs)
eq_sound (u ∷ us) [] h = cc
eq_sound [] (v ∷ vs) h = cc
eq_sound [] [] h = refl

pub eq_refl : (s : Str) → (str_eq s s) ≡ true
unfolding str_eq
eq_refl (u ∷ us) = ground (arith, eq_refl us)
eq_refl [] = refl

pub eq_iff : (s t : Str) → ((str_eq s t) ≡ true) ↔ (s ≡ t)
eq_iff s t = (eq_sound s t, λ e. ground (arith, eq_refl s))

-- Decimal digits of a number, before what is already written. There are
-- more rounds than the number has digits.
emit : ℕ → ℕ → Str → Str
emit zero n out = out
emit (suc rounds) n out =
    let digits = (b'0' + n % 10) ∷ out in
    let rest = emit rounds (n / 10) digits in if n / 10 == 0 then digits else rest

-- `%d`, and the `String` method of big.Int
unfoldable pub decimal : ℤ → Str
unfolding emit
decimal (pos n) = emit (suc n) n []
decimal (negsuc n) = b'-' ∷ emit (suc (suc n)) (suc n) []

decimal_examples : (decimal (pos 0) ≡ codes "0") × (decimal (negsuc 41) ≡ codes "-42")
unfolding decimal
decimal_examples = (refl, refl)

starts_with : Str → Str → Bool
starts_with [] s = true
starts_with (p ∷ ps) [] = false
starts_with (p ∷ ps) (c ∷ s) = (p == c) && (starts_with ps s)

-- The search for a part of a text, from its start on.
unfoldable pub contains : Str → Str → Bool
unfolding starts_with
contains [] part = starts_with part []
contains (c ∷ s) part = (starts_with part (c ∷ s)) || (contains s part)

starts_with-append : (part s t : Str) → starts_with part s ≡ true → starts_with part (s ++ t) ≡ true
unfolding starts_with
starts_with-append [] s t h = refl
starts_with-append (p ∷ ps) [] t h = cc
starts_with-append (p ∷ ps) (c ∷ s) t h = ground (arith, starts_with-append ps s t)

starts_with-nil : (part s : Str) → starts_with part [] ≡ true → starts_with part s ≡ true
unfolding starts_with
starts_with-nil [] s h = refl
starts_with-nil (p ∷ ps) s h = cc

contains_of_start : (part s : Str) → starts_with part s ≡ true → contains s part ≡ true
unfolding contains
contains_of_start part [] h = h
contains_of_start part (c ∷ s) h = ground arith

pub contains-append_left : (s t part : Str) → contains s part ≡ true → contains (s ++ t) part ≡ true
unfolding contains
contains-append_left [] t part h = contains_of_start part t (starts_with-nil part t h)
contains-append_left (c ∷ s) t part h =
    ground (arith, contains-append_left s t part, starts_with-append part (c ∷ s) t)

pub contains-append_right :
    (s t part : Str) → contains t part ≡ true → contains (s ++ t) part ≡ true
unfolding contains
contains-append_right [] t part h = h
contains-append_right (c ∷ s) t part h = ground (arith, contains-append_right s t part)

-- `%x` on bytes
hex_digit : ℕ → ℕ
hex_digit n = if ltb n 10 then b'0' + n else b'a' + (n - 10)

unfoldable pub hex : Str → Str
unfolding hex_digit
hex [] = []
hex (c ∷ s) = hex_digit (c / 16) ∷ hex_digit (c % 16) ∷ hex s
