-- ===== src/Ethereum/Adapter/Fees.antt =====
-- What the Ethereum adapter builds, and the fees that it sets.
use mathlib.Core.Path.{subst}
use arc_signv.Common.{
  ℕ, ◌+◌, ◌*◌, ◌/◌, ◌^◌, ◌<◌, ◌≡◌, ◌≢◌, ◌⊎◌, refl, sym, ap, ◌∙◌, Bool, true, false, not, ◌||◌,
  Option, Option-cases, none, some, arith, leb, inl, inr,
}
use arc_signv.Common.Int.{ℤ, pos, ◌*ℤ◌}
use arc_signv.Common.Word.{wrap64}
use arc_signv.Chain.{
  GoError, ◌>>=◌, Result, ok, err, bind_ok, ok-injective, Result-cases, FeeSpeed, slow, normal,
  fast, other_speed, TransactionRequest, UnsignedTransaction, ChainSpecific,
}
use arc_signv.Storage.{TxStore}
use arc_signv.Adapter.{World, Node}
use arc_signv.Ethereum.{EthLib}
use arc_signv.Ethereum.Builder.{
  Details, build, gas_of, amount_of, negative, dynamic_fee_tx, validate_request,
}
use arc_signv.Ethereum.Fee.{multiplier, or_default}
use arc_signv.Ethereum.Node.{Request, Json, transaction_count, gas_estimate, base_fee, priority_fee}
use arc_signv.Ethereum.Adapter.{
  EthereumAdapter, fee_cap, tip_cap, gas_and_fees, buffered, prepare, build_transaction,
}

abbrev pub is_fast : FeeSpeed → Bool
is_fast fast = true
is_fast normal = false
is_fast slow = false
is_fast (other_speed s) = false

-- The tip stays within the fee cap, as EIP-1559 demands, except for a fast transaction whose priority
-- fee is more than three times the base fee.
pub tip_within_cap :
    (speed : FeeSpeed) (base priority : ℕ)
    → leb (tip_cap speed priority) (fee_cap speed base priority)
      ≡ (not (is_fast speed) || leb priority (3 * base))
unfolding tip_cap fee_cap multiplier
tip_within_cap slow base priority = ground arith
tip_within_cap normal base priority = ground arith
tip_within_cap fast base priority = ground arith
tip_within_cap (other_speed s) base priority = ground arith

-- The gas limit of a request that names one, or else the one given.
abbrev pub IsLimit : TransactionRequest → ℕ → ℕ → Type 0
IsLimit req limit gas =
    ((s : ChainSpecific) × (req.chain_specific ≡ some s) × (s.gas_limit ≡ some gas))
    ⊎ ((gas ≡ limit) × ((s : ChainSpecific) → req.chain_specific ≡ some s → s.gas_limit ≡ none))

-- How a transaction comes from a nonce, a gas limit and the two fees for a unit of gas.
pub record Quotes (lib : EthLib) (a : EthereumAdapter) (req : TransactionRequest)
    (nonce limit cap tip : ℕ) (u : UnsignedTransaction Details) : Type 0 where
  pub valid : validate_request lib req ≡ ok tt
  pub amount : req.amount ≡ some u.amount
  pub gas : ℕ
  pub gas_limit : IsLimit req limit gas
  pub hash :
      u.signing_payload
      ≡ lib.hash (record {
        chain_id = a.network_id;
        nonce = nonce;
        gas_fee_cap = pos cap;
        gas_tip_cap = pos tip;
        gas = gas;
        to = lib.hex_to_address req.to;
        value = u.amount;
        call_data = req.memo;
      })
  pub identified : u.id ≡ lib.hash_hex u.signing_payload
  pub nonce_is : u.nonce ≡ some (pos nonce)
  pub fee : u.fee ≡ pos cap *ℤ wrap64 (pos gas)
  pub chain : u.chain_id ≡ a.chain_id

given_amount :
    (req : TransactionRequest) → negative req.amount ≡ false → req.amount ≡ some (amount_of req)
given_amount req h = elim (Option-cases req.amount) [
  | inl e ↦ absurd (ground arith)
  | inr (a, e) ↦ rw e refl
]

gas_of-IsLimit :
    (req : TransactionRequest) (limit : ℕ) (chosen : Option ChainSpecific)
    → req.chain_specific ≡ chosen
    → IsLimit req limit (gas_of limit req)
gas_of-IsLimit req limit none e = rw e (inr (refl, λ s k. cc))
gas_of-IsLimit req limit (some s) e = elim (Option-cases s.gas_limit) [
  | inl none_named ↦
      let gas_is : gas_of limit req ≡ limit = rw (e, none_named) refl in
      inr (
        gas_is,
        λ t k.
            let same : some s ≡ some t = sym e ∙ k in
            let named : t ≡ s = cc in ap (λ (x : ChainSpecific). x.gas_limit) named ∙ none_named,
      )
  | inr (g, named) ↦
      let gas_is : gas_of limit req ≡ g = rw (e, named) refl in
      inl (s, e, named ∙ ap some (sym gas_is))
]

-- The builder's part.
build-Quotes_of :
    (lib : EthLib) (now : ℤ) (a : EthereumAdapter) (req : TransactionRequest)
    (nonce limit cap tip : ℕ) (v : UnsignedTransaction Details)
    → build lib now a.network_id req nonce limit (pos cap) (pos tip) ≡ ok v
    → Quotes lib a req nonce limit cap tip (record v { chain_id = a.chain_id })
unfolding build validate_request dynamic_fee_tx
build-Quotes_of lib now a req nonce limit cap tip v h =
    let (_, valid, made) = bind_ok (validate_request lib req) _ h in
    let v_is = sym (ok-injective made) in
    let id_is = ap (λ (x : UnsignedTransaction Details). x.id) v_is in
    let payload_is = ap (λ (x : UnsignedTransaction Details). x.signing_payload) v_is in
    let amount_is = ap (λ (x : UnsignedTransaction Details). x.amount) v_is in
    record {
      valid = valid;
      amount = given_amount req (ground arith) ∙ ap some (sym amount_is);
      gas = gas_of limit req;
      gas_limit = gas_of-IsLimit req limit req.chain_specific refl;
      hash =
          payload_is
          ∙ ap
              (λ (x : ℤ).
                lib.hash
                  (record (dynamic_fee_tx lib a.network_id req nonce limit (pos cap) (pos tip)) {
                    value = x;
                  }))
              (sym amount_is);
      identified = id_is ∙ ap lib.hash_hex (sym payload_is);
      nonce_is = ap (λ (x : UnsignedTransaction Details). x.nonce) v_is;
      fee = ap (λ (x : UnsignedTransaction Details). x.fee) v_is;
      chain = refl;
    }

-- The fees as the speed of a request sets them: the base fee counts once, twice or three times, and the
-- tip is doubled if the speed is fast.
abbrev pub base_times : FeeSpeed → ℕ
base_times slow = 1
base_times normal = 2
base_times fast = 3
base_times (other_speed s) = 2

abbrev pub tip_times : FeeSpeed → ℕ
tip_times slow = 1
tip_times normal = 1
tip_times fast = 2
tip_times (other_speed s) = 1

speed_fees :
    (speed : FeeSpeed) (base priority : ℕ)
    → (fee_cap speed base priority ≡ base * base_times speed + priority)
      × (tip_cap speed priority ≡ priority * tip_times speed)
unfolding fee_cap tip_cap multiplier
speed_fees slow base priority = (refl, omega arith)
speed_fees normal base priority = (refl, omega arith)
speed_fees fast base priority = (refl, refl)
speed_fees (other_speed s) base priority = (refl, omega arith)

buffered-eq : (raw : ℕ) → raw * 110 < 2 ^ 64 → buffered raw ≡ raw * 110 / 100
unfolding buffered
buffered-eq raw small = ground arith

in_numbers :
    (lib : EthLib) (a : EthereumAdapter) (req : TransactionRequest) (nonce limit base priority : ℕ)
    (u : UnsignedTransaction Details)
    → Quotes lib a req nonce limit
        (fee_cap req.fee_speed base priority)
        (tip_cap req.fee_speed priority)
        u
    → Quotes lib a req nonce limit
        (base * base_times req.fee_speed + priority)
        (priority * tip_times req.fee_speed)
        u
in_numbers lib a req nonce limit base priority u q =
    let (cap_is, tip_is) = speed_fees req.fee_speed base priority in
    let tip = priority * tip_times req.fee_speed in
    subst (λ (c : ℕ). Quotes lib a req nonce limit c tip u) cap_is
      (subst (λ (t : ℕ). Quotes lib a req nonce limit (fee_cap req.fee_speed base priority) t u)
        tip_is q)

-- A quantity that was asked for, or the default if the node gave none.
abbrev pub IsAnswer : ℕ → Result ℕ → ℕ → Type 0
IsAnswer default (ok n) quantity = quantity ≡ n
IsAnswer default (err e) quantity = quantity ≡ default

or_default-IsAnswer : (d : ℕ) (r : Result ℕ) → IsAnswer d r (or_default d r)
or_default-IsAnswer d (ok n) = refl
or_default-IsAnswer d (err e) = refl

module _ (lib : EthLib) (json : Json) {S : TxStore} (node : Node Request) where
  -- The gas and the fees, once the nonce was asked for.
  abbrev pub quoted : TransactionRequest → World S Request → World S Request × ℕ × ℕ × ℕ
  quoted req w = gas_and_fees json node req (transaction_count json node req.from w).0

  uncounted :
      (now : ℤ) (a : EthereumAdapter) (req : TransactionRequest) (w : World S Request) (e : GoError)
      (u : UnsignedTransaction Details)
      → (transaction_count json node req.from w).1 ≡ err e
      → (prepare json node lib now a req w).1 ≢ ok u
  unfolding prepare
  uncounted now a req w e u lost done =
      let failed : (prepare json node lib now a req w).1 ≡ err e = rw (lost, prepare) in cc

  prepared :
      (now : ℤ) (a : EthereumAdapter) (req : TransactionRequest) (w : World S Request) (nonce : ℕ)
      (u : UnsignedTransaction Details)
      → (transaction_count json node req.from w).1 ≡ ok nonce
      → (prepare json node lib now a req w).1 ≡ ok u
      → (v : UnsignedTransaction Details) × (build lib now a.network_id req nonce
            (quoted req w).1
            (pos (fee_cap req.fee_speed (quoted req w).2 (quoted req w).3))
            (pos (tip_cap req.fee_speed (quoted req w).3))
          ≡ ok v)
        × (record v { chain_id = a.chain_id } ≡ u)
  unfolding prepare
  prepared now a req w nonce u counted done =
      let b =
        build lib now a.network_id req nonce (quoted req w).1
          (pos (fee_cap req.fee_speed (quoted req w).2 (quoted req w).3))
          (pos (tip_cap req.fee_speed (quoted req w).3)) in
      let set : UnsignedTransaction Details → Result (UnsignedTransaction Details) =
        λ v. ok (record v { chain_id = a.chain_id }) in
      let chained : (prepare json node lib now a req w).1 ≡ (b >>= set) = rw (counted, prepare) in
      let (v, built, same) = bind_ok b set (sym chained ∙ done) in (v, built, ok-injective same)

  -- What the node answers: the nonce, the gas, the base fee and the priority fee, each asked for after
  -- the ones before it.
  pub record Asked (req : TransactionRequest) (w : World S Request) (nonce raw base priority : ℕ)
      : Type 0 where
    pub counted : (transaction_count json node req.from w).1 ≡ ok nonce
    pub gas_after : World S Request
    pub base_after : World S Request
    pub gas_asked :
        gas_after
        ≡ (gas_estimate json node req.from req.to req.amount req.memo
            (transaction_count json node req.from w).0).0
    pub base_asked : base_after ≡ (base_fee json node gas_after).0
    pub raw_is :
        IsAnswer 21_000
          (gas_estimate json node req.from req.to req.amount req.memo
            (transaction_count json node req.from w).0).1
          raw
    pub base_is : IsAnswer 30_000_000_000 (base_fee json node gas_after).1 base
    pub priority_is : IsAnswer 2_000_000_000 (priority_fee json node 10 base_after).1 priority

  -- What `Build` returns is made from four answers of the node: the nonce, without which it fails, and
  -- the gas, the base fee and the priority fee, for which it takes 21000, 30 Gwei and 2 Gwei where the
  -- call for them fails. The gas limit is the gas with a tenth added, rounded down, if the gas times 110
  -- stays below 2^64, unless the request names a limit. The fee cap is once, twice or three times the
  -- base fee, by the speed, and the priority fee; the tip is the priority fee, doubled if the speed is
  -- fast; the hash is that of the transaction with these, and the fee is the cap times the limit, taken
  -- as an int64.
  pub build-Quotes :
      (now duration : ℤ) (a : EthereumAdapter) (req : TransactionRequest) (w w' : World S Request)
      (u : UnsignedTransaction Details)
      → build_transaction json node lib now duration a req w ≡ (w', ok u)
      → (nonce : ℕ) × (raw : ℕ) × (base : ℕ) × (priority : ℕ) × Asked req w nonce raw base priority
        × (limit : ℕ) × (raw * 110 < 2 ^ 64 → limit ≡ raw * 110 / 100)
        × Quotes lib a req nonce limit
            (base * base_times req.fee_speed + priority)
            (priority * tip_times req.fee_speed)
            u
  unfolding build_transaction gas_and_fees
  build-Quotes now duration a req w w' u h =
      let q = quoted req w in
      let done : (prepare json node lib now a req w).1 ≡ ok u = ap (λ x. x.1) h in
      let w1 = (transaction_count json node req.from w).0 in
      let gas = gas_estimate json node req.from req.to req.amount req.memo w1 in
      let base = base_fee json node gas.0 in
      let priority = priority_fee json node 10 base.0 in
      let raw = or_default 21_000 gas.1 in
      elim (Result-cases (transaction_count json node req.from w).1) [
        | inr (e, lost) ↦ absurd (uncounted now a req w e u lost done)
        | inl (nonce, counted) ↦
            let (v, built, same) = prepared now a req w nonce u counted done in
            let of_code =
              subst
                (Quotes lib a req nonce q.1 (fee_cap req.fee_speed q.2 q.3)
                  (tip_cap req.fee_speed q.3))
                same (build-Quotes_of lib now a req nonce q.1 _ _ v built) in
            (
              nonce,
              raw,
              q.2,
              q.3,
              record {
                counted = counted;
                gas_after = gas.0;
                base_after = base.0;
                gas_asked = refl;
                base_asked = refl;
                raw_is = or_default-IsAnswer 21_000 gas.1;
                base_is = or_default-IsAnswer 30_000_000_000 base.1;
                priority_is = or_default-IsAnswer 2_000_000_000 priority.1;
              },
              q.1,
              buffered-eq raw,
              in_numbers lib a req nonce q.1 q.2 q.3 u of_code,
            )
      ]
