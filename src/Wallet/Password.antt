-- ===== src/Wallet/Password.antt =====
-- ValidatePassword of internal/utils/validator.go.
use arc_signv.Common.{
  ℕ, ◌+◌, ◌≤◌, ◌≡◌, ◌↔◌, Bool, true, false, ◌&&◌, ◌||◌, List, [], ◌∷◌, if◌then◌else◌, ltb, leb,
  length, arith,
}
use arc_signv.Common.Text.{Str, codes}
use arc_signv.Chain.{Result, ok, err, plain}

-- What the switch of the loop asks of package unicode, in its order; `other` is none of the four.
pub data CharClass : Type 0 where
  upper lower digit special other : CharClass

-- The runes of a string, and the classes of those that are not ASCII.
pub record Unicode : Type 0 where
  pub runes : Str → List ℕ
  pub wide : ℕ → CharClass

within : ℕ → ℕ → ℕ → Bool
within lo hi c = leb lo c && leb c hi

unfoldable pub class_of : (ℕ → CharClass) → ℕ → CharClass
unfolding within
class_of wide c =
    if leb 128 c
    then wide c
    else if within b'A' b'Z' c
    then upper
    else if within b'a' b'z' c
    then lower
    else if within b'0' b'9' c
    then digit
    else if within 33 126 c
    then special
    else other

-- hasUpper, hasLower, hasNumber and hasSpecial
pub record Seen : Type 0 where
  pub has_upper : Bool
  pub has_lower : Bool
  pub has_number : Bool
  pub has_special : Bool

unfoldable pub note : CharClass → Seen → Seen
note upper s = record s { has_upper = true }
note lower s = record s { has_lower = true }
note digit s = record s { has_number = true }
note special s = record s { has_special = true }
note other s = s

unfoldable pub scan : (ℕ → CharClass) → List ℕ → Seen → Seen
unfolding note class_of
scan wide [] s = s
scan wide (c ∷ cs) s = scan wide cs (note (class_of wide c) s)

abbrev pub count_of : Bool → ℕ
count_of true = 1
count_of false = 0

abbrev pub complexity : Seen → ℕ
complexity s =
    count_of s.has_upper + count_of s.has_lower + count_of s.has_number + count_of s.has_special

abbrev pub nothing_seen : Seen
nothing_seen = record {
  has_upper = false;
  has_lower = false;
  has_number = false;
  has_special = false;
}

-- `len` counts bytes, the loop runs over runes.
unfoldable pub validate_password : Unicode → Str → Result (Unit {0})
unfolding scan
validate_password u password =
    if ltb (length password) 12
    then err (plain (codes "password must be at least 12 characters long"))
    else if ltb (complexity (scan u.wide (u.runes password) nothing_seen)) 3
    then err (
        plain (
          codes
            "password must contain at least 3 of the following: uppercase letters, lowercase letters, numbers, special characters"))
    else ok tt

-- Whether one of the characters is of a class.
abbrev is_class : CharClass → CharClass → Bool
is_class upper upper = true
is_class lower lower = true
is_class digit digit = true
is_class special special = true
is_class other other = true
is_class _ _ = false

pub occurs : (ℕ → CharClass) → CharClass → List ℕ → Bool
occurs wide k [] = false
occurs wide k (c ∷ cs) = is_class (class_of wide c) k || occurs wide k cs

-- How many of the four classes occur.
abbrev pub kinds : Unicode → Str → ℕ
kinds u password =
    count_of (occurs u.wide upper (u.runes password))
    + count_of (occurs u.wide lower (u.runes password))
    + count_of (occurs u.wide digit (u.runes password))
    + count_of (occurs u.wide special (u.runes password))

scan-occurs :
    (wide : ℕ → CharClass) (cs : List ℕ) (s : Seen)
    → ((scan wide cs s).has_upper ≡ (s.has_upper || occurs wide upper cs))
      × ((scan wide cs s).has_lower ≡ (s.has_lower || occurs wide lower cs))
      × ((scan wide cs s).has_number ≡ (s.has_number || occurs wide digit cs))
      × ((scan wide cs s).has_special ≡ (s.has_special || occurs wide special cs))
unfolding scan occurs
scan-occurs wide [] s = ground arith
scan-occurs wide (c ∷ cs) s = ground (arith, scan-occurs wide cs (note (class_of wide c) s))

-- A password is accepted exactly if it has at least twelve bytes, however many characters they
-- encode, and characters of at least three of the four kinds.
pub validate_password_iff :
    (u : Unicode) (password : Str)
    → (validate_password u password ≡ ok tt) ↔ ((12 ≤ length password) × (3 ≤ kinds u password))
unfolding validate_password
validate_password_iff u password =
    let seen = scan-occurs u.wide (u.runes password) nothing_seen in
    (λ h. ground (arith, seen), λ h. ground (arith, seen))
