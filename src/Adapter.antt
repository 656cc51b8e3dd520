-- ===== src/Adapter.antt =====
-- What src/chainadapter/bitcoin/adapter.go and src/chainadapter/ethereum/adapter.go share: the world
-- around an adapter, and the checks and steps that both spell out alike.
pub mod Broadcast
use arc_signv.Common.{ℕ, List, [], ◌∷◌, Bool, Option, none, some, length, ◌⊎◌}
use arc_signv.Common.Text.{Str}
use arc_signv.Common.Int.{ℤ}
use arc_signv.Storage.{TxStore}

-- What a call of an RPC client returns: a result, or an error's text beside whatever result there is.
pub data Reply : Type 0 where
  replied : Str → Reply
  failed : Str → Str → Reply

-- The RPC client, which is free to answer every request anew: its number is an argument.
pub record Node (Request : Type 0) : Type 0 where
  pub call : ℕ → Request → Reply

-- A metrics recorder's calls: the chain, the duration and whether the operation succeeded.
pub data Event : Type 0 where
  transaction_build transaction_sign transaction_broadcast : Str → ℤ → Bool → Event

-- What an adapter's operations change. The store and the recorder may be nil.
pub record World (S : TxStore) (Request : Type 0) : Type 0 where
  pub store : Option S.Store
  -- sent so far, latest first
  pub requests : List Request
  pub metrics : Option (List Event)

module _ {S : TxStore} {Request : Type 0} where
  unfoldable pub ask : Node Request → Request → World S Request → World S Request × Reply
  ask node request w =
      (record w { requests = request ∷ w.requests }, node.call (length w.requests) request)

  unfoldable pub note : Event → World S Request → World S Request
  note e w = record w { metrics = elim w.metrics [ none ↦ none | some es ↦ some (e ∷ es) ] }

-- chainadapter.Signer: signing fails with an error's text.
pub record Signer : Type 0 where
  pub get_address : Str
  pub sign : Str → Str → Str ⊎ Str
