-- ===== src/Ethereum/Builder/Validation.antt =====
-- Which requests the Ethereum builder accepts.
use arc_signv.Common.{◌==◌, ◌≡◌, not, ◌&&◌, ◌||◌, length, arith, Bool}
use arc_signv.Common.Text.{Str, str_eq, codes}
use arc_signv.Chain.{is_ok, TransactionRequest}
use arc_signv.Ethereum.{EthLib}
use arc_signv.Ethereum.Builder.{validate_request, is_valid_address, has_prefix, negative}

abbrev pub looks_valid : EthLib → Str → Bool
looks_valid lib addr = has_prefix addr && (length addr == 42) && lib.is_hex_address addr

address_checks : (lib : EthLib) (addr : Str) → is_valid_address lib addr ≡ looks_valid lib addr
unfolding is_valid_address
address_checks lib addr = ground arith

-- A request is accepted exactly if both addresses begin with 0x, have 42 characters and are hexadecimal
-- addresses to the library, the amount is given and not negative, and the asset is called ETH or
-- ethereum.
pub request_checks :
    (lib : EthLib) (req : TransactionRequest)
    → is_ok (validate_request lib req) ≡ (
        looks_valid lib req.from
        && looks_valid lib req.to
        && not (negative req.amount)
        && (str_eq req.asset (codes "ETH") || str_eq req.asset (codes "ethereum")))
unfolding validate_request str_eq
request_checks lib req = ground (arith, address_checks lib req.from, address_checks lib req.to)
