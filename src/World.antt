-- ===== src/World.antt =====
-- The state that the services share: the tables, the task queue, the webhook events, and what was
-- sent to the network. What the outside answers is a script in the state: `faults` has one entry for
-- each call of the database or the queue (`true` is a failure; past the end every call succeeds).
use flowx.Prelude.{ℕ, suc, String, Bool, true, false, Option, List, [], ◌∷◌, ◌++◌, if◌then◌else◌}
use flowx.Prelude.Int.{ℤ}
use flowx.Exec.{Exec, ok, err, call_failed}
use flowx.Domain.{ComplianceReview, ComplianceBlock, FeeCollection, EventType}
use flowx.Domain.Status.{TransactionStatus, TransactionType}

-- A row of `transactions`, by the columns of db/migrations; NULL is `none`. The fiat columns, which
-- no modelled code reads, are left out.
pub record TxRow (D : Type 0) : Type 0 where
  pub id : String
  pub tx_hash : Option String
  pub tx_type : TransactionType
  pub status : TransactionStatus
  pub from_wallet : Option String
  pub to_wallet : Option String
  pub to_address : Option String
  pub asset : String
  pub amount : D
  pub fee : Option D
  pub fee_bps : Option ℤ
  pub tenant_id : Option String
  pub batch_id : Option String
  pub reference : Option String
  pub created_at : ℕ
  pub reconciled_at : Option ℕ
  pub requeue_count : ℕ
  pub idempotency_key : Option String

-- One payment of an on-chain transaction; `issuer` is `none` for the native asset. The amount is
-- the text that the source hands to txnbuild.
pub record Payment : Type 0 where
  pub destination : String
  pub asset_code : String
  pub issuer : Option String
  pub amount : String

-- A row of `balances`: the cached balance of a wallet in an asset, as decimal text.
pub record BalanceRow : Type 0 where
  pub wallet_id : String
  pub asset_code : String
  pub issuer : String
  pub balance : String

-- A signed transaction, as it is sent.
pub record Envelope : Type 0 where
  pub source : String
  pub payments : List Payment
  pub hash : String

-- What the network answers to a submission, and to a lookup by hash.
pub data SubmitReply : Type 0 where
  accepted : String → SubmitReply
  refused : String → SubmitReply

pub data DetailReply : Type 0 where
  successful unsuccessful not_found unavailable : DetailReply

pub record World (D : Type 0) : Type 0 where
  pub rows : List (TxRow D)
  pub reviews : List ComplianceReview
  pub blocks : List (ComplianceBlock D)
  pub collections : List (FeeCollection D)
  pub balances : List BalanceRow
  -- the ids in the transfer tasks, oldest first
  pub queue : List String
  -- whether there is a webhook service, and the calls of its `Dispatch`
  pub has_webhooks : Bool
  pub events : List (EventType × String)
  -- what was sent, latest first, one entry for each attempt
  pub sent : List Envelope
  pub submit_replies : List SubmitReply
  pub detail_replies : List DetailReply
  pub faults : List Bool
  -- how many ids were drawn from the generator
  pub drawn : ℕ
  pub now : ℕ

abbrev pub Action : Type 0 → Type 0 → Type 0
Action D A = Exec (World D) A

-- The outcome of the next call of the outside.
abbrev pub next_fault : List Bool → Bool
next_fault [] = false
next_fault (f ∷ fs) = f

abbrev pub rest_faults : List Bool → List Bool
rest_faults [] = []
rest_faults (f ∷ fs) = fs

module _ {D : Type 0} where
  -- A call of the outside that succeeds, or fails and does nothing.
  abbrev pub attempt : {A : Type 0} → Action D A → Action D A
  attempt m w =
      let w' : World D = record w { faults = rest_faults w.faults } in
      elim (next_fault w.faults) [ true ↦ (err call_failed, w') | false ↦ m w' ]

  abbrev pub put_rows : List (TxRow D) → World D → World D
  put_rows rs w = record w { rows = rs }

  -- `uuid.New().String()`: the next text of the generator `uuid`.
  abbrev pub draw : (ℕ → String) → Action D String
  draw uuid w = (ok (uuid w.drawn), record w { drawn = suc w.drawn })

  -- The call of `Dispatch`, made where there is a webhook service; its error is logged and dropped,
  -- so only the call shows.
  abbrev pub dispatch : EventType → String → Action D (Unit {0})
  dispatch e id w =
      (ok tt, if w.has_webhooks then record w { events = w.events ++ (e, id) ∷ [] } else w)

  -- `queue.EnqueueTransfer`
  abbrev pub enqueue_transfer : String → Action D (Unit {0})
  enqueue_transfer id = attempt (λ w. (ok tt, record w { queue = w.queue ++ id ∷ [] }))
