-- ===== src/Tests/Values.antt =====
-- Values that the runs share.
use arc_signv.Common.{ℕ, ◌+◌, ◌*◌, List, [], ◌∷◌, none, some, ◌⊎◌, inl, inr, length, true}
use arc_signv.Common.Text.{Str, codes}
use arc_signv.Common.Int.{ℤ, pos}
use arc_signv.Chain.{TransactionRequest, normal}
use arc_signv.Chain.TxStatus.{pending, confirmed}
use arc_signv.Storage.{TxState}
use arc_signv.Storage.File.{Disk}
use arc_signv.Common.Float.{FloatOps}
use arc_signv.Bitcoin.Node.{Json}
use arc_signv.Bitcoin.{Utxo, BtcLib}

abbrev pub state_at : ℤ → Str → TxState
state_at first_seen status = record {
  tx_hash = codes "a1";
  retry_count = pos 1;
  first_seen = first_seen;
  last_retry = first_seen;
  status = status;
  chain_id = codes "bitcoin";
  raw_tx = codes "00";
}

abbrev pub old_state : TxState
old_state = state_at (pos 10) confirmed

abbrev pub new_state : TxState
new_state = state_at (pos 90) pending

abbrev pub good_disk : Disk
good_disk = record { makes_dir = true; writes_tmp = true; renames = true }

-- A library whose addresses, hashes and scripts are texts; the empty text is none of them.
abbrev non_empty : Str → Str ⊎ Str
non_empty [] = inr (codes "empty")
non_empty (c ∷ s) = inl (c ∷ s)

abbrev pub text_lib : BtcLib
text_lib = record {
  Addr = Str;
  Hash = Str;
  Script = Str;
  decode_address = λ a network. non_empty a;
  pay_to_addr_script = λ a. inl a;
  null_data_script = λ m. inl m;
  new_hash_from_str = non_empty;
  serialize_size = λ tx. pos (10 + 148 * length tx.tx_in + 34 * length tx.tx_out);
  tx_hash = λ tx. codes "cafe";
  serialize = λ tx. inl (codes "0100");
}

abbrev pub coin : Str → ℤ → Utxo
coin tx_id amount = record {
  tx_id = tx_id;
  vout = 0;
  amount = amount;
  script_pub_key = [];
  address = codes "alice";
  confirmations = pos 6;
}

abbrev pub three_coins : List Utxo
three_coins =
    coin (codes "t1") (pos 40_000)
    ∷ coin (codes "t2") (pos 30_000)
    ∷ coin (codes "t3") (pos 20_000)
    ∷ []

abbrev pub payment : TransactionRequest
payment = record {
  from = codes "alice";
  to = codes "bob";
  asset = codes "BTC";
  amount = some (pos 50_000);
  memo = [];
  fee_speed = normal;
  chain_specific = none;
}

-- Floats that are integers, good enough to tell scores and rates apart.
abbrev pub plain_floats : FloatOps
plain_floats = record {
  Float = ℕ;
  literal = λ a d. 1;
  of_int = λ a. 1;
  to_int = λ f. pos f;
  add = ◌+◌;
  mul = ◌*◌;
  div = λ a b. a;
  lt = λ a b. true;
}

-- A reader of results that takes the bytes for a text, and nothing for anything else.
abbrev pub plain_json : Json ℕ
plain_json = record {
  text = non_empty;
  integer = λ s. inl (pos (length s));
  unspent = λ s. inl (
      record {
        tx_id = codes "t1";
        vout = 0;
        address = codes "alice";
        script_pub_key = [];
        amount = 90_000;
        confirmations = pos 6;
        spendable = true;
      }
      ∷ []);
  smart_fee = λ s. inl (record { fee_rate = length s; errors = [] });
  raw_transaction = λ s. inl (record { block_hash = codes "b0"; confirmations = pos (length s) });
  block = λ s. inl (record { height = pos (length s) });
}
