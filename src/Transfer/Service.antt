-- ===== src/Transfer/Service.antt =====
-- `initiate` of internal/transfer/service.go, in the stages of its body, and the calls that
-- reach it.
use flowx.Prelude.{
  ℕ, String, Bool, true, not, ◌&&◌, Option, none, some, List, ◌==◌, nullable, string_eq,
  if◌then◌else◌,
}
use flowx.Prelude.Int.{ℤ, pos, pos_part, ltb_ℤ}
use flowx.Decimal.{Decimal}
use flowx.Calendar.{month_start, month_end}
use flowx.Exec.{
  self_transfer, invalid_destination_address, transfer_blocked_sanctions, transaction_not_found,
  pure, raise, gets, logged, catch, ◌>>=◌, ◌>>◌,
}
use flowx.Domain.{
  Transaction, Wallet, Tenant, get_transfer_limit, ScreeningRequest, ScreeningDecision, FeeSchedule,
}
use flowx.Domain.Status.{
  TransactionStatus, pending, compliance_hold, transfer, ScreeningStatus, clear, hold, blocked,
  tx_status_eq,
}
use flowx.World.{Action, draw, enqueue_transfer}
use flowx.TxRepo.{create, get_by_idempotency_key}
use flowx.TxRepo.Quota.{create_with_monthly_limit}
use flowx.Fees.{TransferFee, calculate_fee}
use flowx.Compliance.Screener.{Screener}
use flowx.Compliance.Service.{Context, screen_transfer, record_hold}
use flowx.Transfer.Address.{is_valid_destination_address, is_native_asset}
use flowx.Transfer.Trustline.{AccountReply, validate_trustline}

-- What the service is built from: the repositories and clients that it calls through interfaces.
pub record Services (D : Type 0) : Type 0 where
  pub find_wallet : String → Action D Wallet
  pub find_tenant : Option (String → Action D Tenant)
  pub load_account : Option (String → Action D AccountReply)
  pub get_balances : String → Action D (List String)
  pub get_schedule : Option String → String → Action D (FeeSchedule D)
  pub screener : Option (Screener D)
  pub has_queue : Bool
  pub uuid : ℕ → String

-- The arguments of `initiate`.
pub record TransferRequest (D : Type 0) : Type 0 where
  pub from_id : String
  pub to_id : String
  pub to_address : String
  pub asset : String
  pub amount : D
  pub batch_id : String
  pub reference : String
  pub idempotency_key : String

module _ {D : Type 0} ⦃d : Decimal D⦄ (sv : Services D) (ctx : Context) where
  -- the two tests on the destination
  unfoldable pub check_destination : TransferRequest D → Action D (Unit {0})
  check_destination q =
      if not (q.to_id == "") && q.from_id == q.to_id
      then raise self_transfer
      else if not (q.to_address == "") && not (is_valid_destination_address q.to_address)
      then raise invalid_destination_address
      else pure tt

  abbrev limit_of : (String → Action D Tenant) → Action D ℤ
  limit_of find = catch (do t ← find ctx.tenant; pure (get_transfer_limit t)) (λ _. pure (pos 0))

  -- `monthlyLimit`, 0 where no tenant is found
  unfoldable pub monthly_limit : Action D ℤ
  monthly_limit =
      if ctx.tenant == ""
      then pure (pos 0)
      else elim sv.find_tenant [ none ↦ pure (pos 0) | some find ↦ limit_of find ]

  unfoldable pub find_destination : String → Action D (Option Wallet)
  find_destination id = if id == "" then pure none else (do w ← sv.find_wallet id; pure (some w))

  unfoldable pub check_trustline : TransferRequest D → Wallet → Action D (Unit {0})
  check_trustline q src =
      if is_native_asset q.asset
      then pure tt
      else validate_trustline sv.load_account sv.get_balances q.from_id src.public_key q.asset

  abbrev pub screening_request : TransferRequest D → Wallet → Option Wallet → ScreeningRequest D
  screening_request q src dst = record {
    org_id = ctx.tenant;
    from_wallet_id = q.from_id;
    to_wallet_id = q.to_id;
    from_public_key = src.public_key;
    to_public_key = elim dst [ none ↦ q.to_address | some w ↦ w.public_key ];
    to_federation = "";
    asset = q.asset;
    amount = q.amount;
  }

  -- The switch on the decision: the status of the row, and the decision of a hold.
  abbrev pub status_of :
      ScreeningDecision → ScreeningStatus → Action D (TransactionStatus × Option ScreeningDecision)
  status_of decision blocked = raise transfer_blocked_sanctions
  status_of decision hold = pure (compliance_hold, some decision)
  status_of decision clear = pure (pending, none)

  -- Screening, where there is a screener. `ScreenTransfer` returns no error and no nil decision, so
  -- the branch for those is not reached.
  unfoldable pub screen_with :
      Option (Screener D)
      → TransferRequest D
      → Wallet
      → Option Wallet
      → Action D (TransactionStatus × Option ScreeningDecision)
  screen_with none q src dst = pure (pending, none)
  screen_with (some s) q src dst = do
    decision ← screen_transfer sv.uuid s ctx (screening_request q src dst)
    status_of decision decision.status

  abbrev pub screen :
      TransferRequest D
      → Wallet
      → Option Wallet
      → Action D (TransactionStatus × Option ScreeningDecision)
  screen q src dst = screen_with sv.screener q src dst

  unfoldable pub new_transaction :
      TransferRequest D → TransactionStatus → TransferFee D → String → ℕ → Transaction D
  new_transaction q status fee id now = record {
    id = id;
    tx_hash = "";
    tx_type = transfer;
    status = status;
    from_wallet = q.from_id;
    to_wallet = q.to_id;
    to_address = q.to_address;
    asset = q.asset;
    amount = q.amount;
    fee = fee.fee_amount;
    fee_bps = fee.fee_bps;
    tenant_id = nullable ctx.tenant;
    batch_id = nullable q.batch_id;
    reference = q.reference;
    created_at = now;
    reconciled_at = none;
    requeue_count = 0;
    idempotency_key = q.idempotency_key;
  }

  unfoldable pub persist : ℤ → Transaction D → Action D (Unit {0})
  persist limit tx = do
    now ← gets (λ w. w.now)
    if ltb_ℤ (pos 0) limit
        then create_with_monthly_limit tx ctx.tenant (month_start now) (month_end now)
            (pos_part limit)
        else create ctx.tenant tx

  -- After the row is there: a hold gets its review and is not enqueued.
  unfoldable pub finish : Transaction D → Option ScreeningDecision → Action D (Transaction D)
  finish tx (some decision) = do record_hold sv.uuid ctx tx decision; pure tx
  finish tx none = do if sv.has_queue then logged (enqueue_transfer tx.id) else pure tt; pure tx

  -- `initiate`
  unfoldable pub initiate : TransferRequest D → Action D (Transaction D)
  initiate q = do
    check_destination q
    limit ← monthly_limit
    src ← sv.find_wallet q.from_id
    dst ← find_destination q.to_id
    check_trustline q src
    (status, decision) ← screen q src dst
    fee ← calculate_fee sv.get_schedule ctx.tenant q.asset q.amount true
    id ← draw sv.uuid
    now ← gets (λ w. w.now)
    let tx = new_transaction q status fee id now
    persist limit tx
    finish tx decision

  -- `InitiateTransferIdempotent` and `InitiatePayoutIdempotent`: a transaction under the key is
  -- returned as it is; any error but "not found" stops.
  unfoldable pub initiate_idempotent : TransferRequest D → Action D (Transaction D)
  initiate_idempotent q =
      if q.idempotency_key == ""
      then initiate q
      else catch (get_by_idempotency_key ctx.tenant q.idempotency_key)
          (λ e. elim e [ transaction_not_found ↦ initiate q | other ↦ raise other ])

  -- `InitiateTransfer`, `InitiatePayout`, `InitiateBatchTransfer`, `InitiateBatchPayout`
  unfoldable pub initiate_transfer : String → String → String → D → Action D (Transaction D)
  initiate_transfer from_id to_id asset amount = initiate (record {
    from_id = from_id;
    to_id = to_id;
    to_address = "";
    asset = asset;
    amount = amount;
    batch_id = "";
    reference = "";
    idempotency_key = "";
  })

  unfoldable pub initiate_payout : String → String → String → D → Action D (Transaction D)
  initiate_payout from_id to_address asset amount = initiate (record {
    from_id = from_id;
    to_id = "";
    to_address = to_address;
    asset = asset;
    amount = amount;
    batch_id = "";
    reference = "";
    idempotency_key = "";
  })

  unfoldable pub initiate_batch_transfer :
      String → String → String → D → String → String → Action D (Transaction D)
  initiate_batch_transfer from_id to_id asset amount batch_id reference = initiate (record {
    from_id = from_id;
    to_id = to_id;
    to_address = "";
    asset = asset;
    amount = amount;
    batch_id = batch_id;
    reference = reference;
    idempotency_key = "";
  })

  unfoldable pub initiate_batch_payout :
      String → String → String → D → String → String → Action D (Transaction D)
  initiate_batch_payout from_id to_address asset amount batch_id reference = initiate (record {
    from_id = from_id;
    to_id = "";
    to_address = to_address;
    asset = asset;
    amount = amount;
    batch_id = batch_id;
    reference = reference;
    idempotency_key = "";
  })
