-- ===== src/Examples.antt =====
-- The theorems on concrete data: a world with a few rows, and amounts in steps of 10^-7.
pub mod Storage
pub mod Screening
pub mod Sanctions
pub mod Velocity
pub mod Moving
pub mod Checking
pub mod Recurring
pub mod Delivering
pub mod Auditing
pub mod Burying
pub mod Sweeping
pub mod Trading
use flowx.Prelude.{ℕ, String, Option, none, some, List, [], ◌∷◌, true}
use flowx.Prelude.Int.{ℤ, pos}
use flowx.Domain.{Transaction, Wallet}
use flowx.Domain.Status.{TransactionStatus, pending, transfer}
use flowx.World.{TxRow, World}

abbrev pub row : String → TransactionStatus → TxRow ℤ
row id status = record {
  id = id;
  tx_hash = none;
  tx_type = transfer;
  status = status;
  from_wallet = some "w1";
  to_wallet = some "w2";
  to_address = none;
  asset = "USDC";
  amount = pos 100;
  fee = some (pos 10);
  fee_bps = none;
  tenant_id = some "acme";
  batch_id = none;
  reference = none;
  created_at = 5;
  reconciled_at = none;
  requeue_count = 0;
  idempotency_key = none;
}

abbrev pub transaction : String → TransactionStatus → Transaction ℤ
transaction id status = record {
  id = id;
  tx_hash = "";
  tx_type = transfer;
  status = status;
  from_wallet = "w1";
  to_wallet = "w2";
  to_address = "";
  asset = "USDC";
  amount = pos 100;
  fee = pos 10;
  fee_bps = pos 0;
  tenant_id = some "acme";
  batch_id = none;
  reference = "";
  created_at = 5;
  reconciled_at = none;
  requeue_count = 0;
  idempotency_key = "";
}

abbrev pub wallet : String → Wallet
wallet id = record { id = id; public_key = id; encrypted_secret = "00ff"; tenant_id = some "acme" }

abbrev pub world : List (TxRow ℤ) → World ℤ
world rows = record {
  rows = rows;
  reviews = [];
  blocks = [];
  collections = [];
  balances = [];
  queue = [];
  has_webhooks = true;
  events = [];
  sent = [];
  submit_replies = [];
  detail_replies = [];
  faults = [];
  drawn = 0;
  now = 1000;
}
