-- ===== src/Tests/BitcoinRuns.antt =====
-- Runs of the Bitcoin builder.
use arc_signv.Common.{ℕ, ◌+◌, ◌≤◌, ◌<◌, ◌≡◌, ◌↔◌, refl, List, [], ◌∷◌, none, arith}
use arc_signv.Common.Text.{Str, codes, str_eq}
use arc_signv.Common.Int.{ℤ, pos}
use arc_signv.Common.Word.{add64, sub64, mul64, wrap64}
use arc_signv.Chain.{ok, err, UnsignedTransaction}
use arc_signv.Bitcoin.{Utxo, MsgTx}
use arc_signv.Bitcoin.Select.{select_utxos, insufficient_funds, take_until, estimated_size}
use arc_signv.Bitcoin.Select.Funds.{total_value, AreAmounts, fee_for, Pays, select_lem}
use arc_signv.Bitcoin.Builder.{
  Details, build, validate_request, create_human_readable, draft, add_inputs, pay_to, change_output,
  memo_output,
}
use arc_signv.Bitcoin.Builder.Balance.{Honours, build-Honours}
use arc_signv.Bitcoin.Builder.Validation.{IsAcceptable, validate_decides}
use arc_signv.Tests.Values.{coin, three_coins, payment, text_lib}

select_run :
    select_utxos three_coins (pos 50_000) (pos 10)
    ≡ ok (coin (codes "t1") (pos 40_000) ∷ coin (codes "t2") (pos 30_000) ∷ [], pos 14_780)
unfolding select_utxos take_until estimated_size add64 sub64 mul64
select_run = refl

coins-AreAmounts : AreAmounts three_coins
coins-AreAmounts = ground arith

select_lem_example :
    (total_value three_coins < 50_000 + fee_for 3 10
      → (have : ℤ) × (select_utxos three_coins (pos 50_000) (pos 10)
          ≡ err (insufficient_funds have (pos (50_000 + fee_for 3 10)))))
    × (50_000 + fee_for 3 10 ≤ total_value three_coins
        → (selected : List Utxo) × (left : ℕ) × (select_utxos three_coins (pos 50_000) (pos 10)
            ≡ ok (selected, pos left))
          × Pays three_coins 50_000 10 selected left)
select_lem_example =
    select_lem three_coins 50_000 10 coins-AreAmounts (omega arith) (omega arith) (omega arith)

-- The transaction for `payment`: two inputs, two outputs, 374 bytes.
abbrev pub paid : UnsignedTransaction Details
paid = record {
  id = codes "cafe";
  chain_id = codes "bitcoin";
  from = codes "alice";
  to = codes "bob";
  amount = pos 50_000;
  fee = pos 3_740;
  nonce = none;
  signing_payload = codes "0100";
  human_readable =
      create_human_readable text_lib (codes "mainnet") payment
        (coin (codes "t1") (pos 40_000) ∷ coin (codes "t2") (pos 30_000) ∷ []) (pos 3_740)
        (pos 14_780) (codes "alice");
  details = record {
    utxos = coin (codes "t1") (pos 40_000) ∷ coin (codes "t2") (pos 30_000) ∷ [];
    change_amount = pos 14_780;
    change_address = codes "alice";
    tx_size = pos 374;
    fee_rate = pos 10;
  };
  created_at = pos 7;
}

build_run : build text_lib (pos 7) (codes "mainnet") payment three_coins (pos 10) ≡ ok paid
unfolding build draft validate_request select_utxos take_until estimated_size add64 sub64 mul64
    add_inputs pay_to change_output memo_output wrap64 str_eq
build_run = refl

build-Honours_example :
    (tx : MsgTx Str Str) × Honours text_lib payment three_coins 50_000 10 tx paid
build-Honours_example =
    build-Honours text_lib (pos 7) (codes "mainnet") payment three_coins 50_000 10 paid refl
      coins-AreAmounts (omega arith) (omega arith) (omega arith) build_run

validate_decides_example :
    ((validate_request text_lib (codes "mainnet") payment ≡ ok tt)
      ↔ IsAcceptable text_lib (codes "mainnet") payment)
    × ((now : ℤ) (utxos : List Utxo) (rate : ℤ) (u : UnsignedTransaction Details)
        → build text_lib now (codes "mainnet") payment utxos rate ≡ ok u
        → IsAcceptable text_lib (codes "mainnet") payment)
validate_decides_example = validate_decides text_lib (codes "mainnet") payment
