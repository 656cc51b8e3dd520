-- ===== src/Chain/Faults.antt =====
-- What the error constructors and the class tests of src/chainadapter/error.go promise together.
use arc_signv.Common.{◌++◌, none, some, ◌≡◌, Bool, true, false, ◌⊎◌, arith}
use arc_signv.Common.Text.{Str, codes, contains, contains-append_left, contains-append_right}
use arc_signv.Chain.{
  error_text, new_retryable_error, GoError, chain, plain, is_retryable, is_non_retryable,
  is_user_intervention,
}

abbrev pub OneOf : Bool → Bool → Bool → Type 0
OneOf a b c =
    ((a ≡ true) × (b ≡ false) × (c ≡ false))
    ⊎ ((a ≡ false) × (b ≡ true) × (c ≡ false))
    ⊎ ((a ≡ false) × (b ≡ false) × (c ≡ true))

pub is_chain_error : GoError → Bool
is_chain_error (chain e) = true
is_chain_error (plain t) = false

-- Exactly one of the three class tests accepts an error of the package, and none accepts any other.
pub classes_partition :
    (e : GoError)
    → ((is_chain_error e ≡ true)
        × OneOf (is_retryable e) (is_non_retryable e) (is_user_intervention e))
      ⊎ ((is_chain_error e ≡ false)
          × (is_retryable e ≡ false)
          × (is_non_retryable e ≡ false)
          × (is_user_intervention e ≡ false))
unfolding is_retryable is_non_retryable is_user_intervention is_chain_error
classes_partition (chain e) = ground arith
classes_partition (plain t) = ground arith

-- The text of an error says what its message says.
pub message_says :
    (code message cause part : Str)
    → contains message part ≡ true
    → contains (error_text (new_retryable_error code message none (some cause))) part ≡ true
unfolding new_retryable_error error_text
message_says code message cause part h =
    let head = code ++ codes ": " in
    contains-append_left (head ++ message ++ codes " (caused by: " ++ cause) (codes ")") part (
      contains-append_left (head ++ message ++ codes " (caused by: ") cause part (
        contains-append_left (head ++ message) (codes " (caused by: ") part
          (contains-append_right head message part h)))
