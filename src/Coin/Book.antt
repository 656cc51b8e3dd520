-- ===== src/Coin/Book.antt =====
-- The lookups in an address book and the checks of internal/models/address.go and account.go, whose
-- numbers are uint32. The texts are taken to be valid UTF-8: Go's loop over the characters then
-- changes the same bytes.
use arc_signv.Common.{
  ℕ, Bool, not, List, [], ◌∷◌, ◌++◌, map, Option, none, some, select, if◌then◌else◌, ltb, ◌==◌,
  ◌||◌,
}
use arc_signv.Common.Text.{Str, codes, str_eq}
use arc_signv.Chain.{Result, ok, err, plain, GoError, refuse_if, ◌>>◌}
use arc_signv.Coin.{DerivedAddress, AddressBook}
use arc_signv.Coin.Registry.{upper_letter}

-- The loop that returns the first element which passes.
unfoldable pub first_of : (DerivedAddress → Bool) → List DerivedAddress → Option DerivedAddress
first_of p [] = none
first_of p (a ∷ xs) = if p a then some a else first_of p xs

abbrev pub or_error : GoError → Option DerivedAddress → Result DerivedAddress
or_error e none = err e
or_error e (some a) = ok a

abbrev pub has_symbol : Str → DerivedAddress → Bool
has_symbol s a = str_eq a.symbol s

abbrev pub no_symbol : Str → GoError
no_symbol s = plain (codes "address not found for symbol: " ++ s)

unfoldable pub get_by_symbol : AddressBook → Str → Result DerivedAddress
get_by_symbol book symbol =
    or_error (no_symbol symbol) (first_of (has_symbol (map upper_letter symbol)) book.addresses)

unfoldable pub get_by_coin_type : AddressBook → ℕ → Result DerivedAddress
get_by_coin_type book t =
    or_error (plain (codes "address not found for coin type"))
      (first_of (λ a. a.coin_type == t) book.addresses)

unfoldable pub get_by_category : AddressBook → Str → List DerivedAddress
get_by_category book category = select (λ a. str_eq a.category category) book.addresses

unfoldable pub validate_address : DerivedAddress → Result (Unit {0})
validate_address d =
    refuse_if (str_eq d.symbol []) (plain (codes "symbol cannot be empty"))
    >> refuse_if (str_eq d.address []) (plain (codes "address cannot be empty"))
    >> refuse_if (str_eq d.derivation_path []) (plain (codes "derivation path cannot be empty"))
    >> ok tt

unfoldable pub validate_change : ℕ → Result (Unit {0})
validate_change change =
    refuse_if (ltb 1 change)
      (plain (codes "change must be 0 (external/receive) or 1 (internal/change)"))

unfoldable pub validate_address_index : ℕ → Result (Unit {0})
validate_address_index index =
    refuse_if (ltb 1000 index) (plain (codes "address index must be 1000 or less"))

unfoldable pub validate_account_index : ℕ → Result (Unit {0})
validate_account_index index =
    refuse_if (ltb 100 index) (plain (codes "account index must be 100 or less"))

unfoldable pub validate_coin_type : ℕ → Result (Unit {0})
validate_coin_type t =
    refuse_if (not ((t == 0) || (t == 2) || (t == 3) || (t == 60) || (t == 501)))
      (plain (codes "unsupported coin type (not in SLIP-44 registry)"))
