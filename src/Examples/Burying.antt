-- ===== src/Examples/Burying.antt =====
-- The theorems on the XDC chain.
use flowx.Prelude.{◌≡◌, ◌≢◌, refl, map, true, some, [], ◌∷◌, string_eq, arith}
use flowx.Prelude.Int.{ℤ, pos}
use flowx.Decimal.Scaled.{scaled}
use flowx.Exec.{pure}
use flowx.Domain.Status.{pending, tx_status_eq}
use flowx.Transfer.Address.{strip}
use flowx.TxRepo.{get_by_id, claim_for_submission, exec_update, must_affect}
use flowx.Xdc.{
  Evm, Node, transfer, transfer_from, send_transaction, wait_confirmations, normalize_address,
}
use flowx.Xdc.Engine.{
  XdcEngine, submit_transfer, with_claim, settle_claimed, destination, decrypt_secret, pay,
  after_transfer, after_wait, collect_fee, txdc_to_wei,
}
use flowx.Xdc.Sends.{Settles, submit_transfer-Settles}
use flowx.Xdc.Shut.{IsReading}
use flowx.Xdc.Once.{submit_all, paid_once}
use flowx.Examples.{row, wallet, world}

abbrev node : Node ℤ
node = record {
  address_of = λ key. some "0xa";
  hex_to_address = λ s. s;
  pending_nonce_at = λ addr. pure 7;
  suggest_gas_price = pure 1;
  sign_tx = λ tx key. some "0xh";
  balance_at = λ addr. pure (pos 0);
}

abbrev engine : XdcEngine ℤ
engine = record {
  find_wallet = λ id. pure (wallet id);
  node = node;
  decrypt = λ secret. some "key";
  big_int = λ a. a;
  to_text = λ a. "0";
  fee_wallet = "0xf";
  tenant = "";
}

abbrev chain : Evm ℤ
chain = record {
  world = world (record (row "t1" pending) { asset = "TXDC" } ∷ []);
  broadcasts = [];
  refusals = [];
  polls = λ hash.
      record { receipt = some (record { successful = true; block_number = 10 }); head = some 15 }
      ∷ [];
}

engine-IsReading : IsReading engine
engine-IsReading = record {
  find_wallet = λ id w. refl;
  nonce = λ addr w. refl;
  gas_price = λ w. refl;
  balance = λ addr w. refl;
}

submit_transfer_settles_example : Settles engine "t1" chain (submit_transfer engine "t1" chain)
submit_transfer_settles_example = submit_transfer-Settles engine "t1" chain

first_broadcasts : (submit_transfer engine "t1" chain).1.broadcasts ≢ []
unfolding submit_transfer get_by_id claim_for_submission exec_update must_affect with_claim
    settle_claimed destination decrypt_secret pay transfer transfer_from send_transaction
    after_transfer after_wait wait_confirmations collect_fee txdc_to_wei normalize_address
first_broadcasts h = ground (arith, h)

-- The payment to the wallet, and then the fee.
both_broadcasts :
    map (λ t. t.to) (submit_transfer engine "t1" chain).1.broadcasts ≡ "0xf" ∷ "w2" ∷ []
unfolding submit_transfer get_by_id claim_for_submission exec_update must_affect with_claim
    settle_claimed destination decrypt_secret pay transfer transfer_from send_transaction
    after_transfer after_wait wait_confirmations collect_fee txdc_to_wei normalize_address strip
both_broadcasts = refl

paid_once_example :
    let s' = submit_all engine ("t2" ∷ []) (submit_transfer engine "t1" chain).1 in
    (submit_transfer engine "t1" s').1.broadcasts ≡ s'.broadcasts
paid_once_example = paid_once engine engine-IsReading "t1" ("t2" ∷ []) chain first_broadcasts
