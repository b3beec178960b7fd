-- ===== src/Examples/Auditing.antt =====
-- The theorem on the audit of confirmed transactions.
use flowx.Prelude.{refl, String, some, none, [], ◌∷◌, string_eq, if◌then◌else◌, ◌==◌}
use flowx.Prelude.Int.{ℤ, pos}
use flowx.Decimal.{Decimal}
use flowx.Decimal.Scaled.{scaled}
use flowx.Exec.{pure}
use flowx.Domain.Status.{confirmed}
use flowx.World.{successful}
use flowx.Submission.{next_detail}
use flowx.Reconcile.Verify.{PaymentFields, payment}
use flowx.Reconcile.Audit.{Books, Auditor, check_transaction}
use flowx.Reconcile.Audited.{IsReading, Audited, check_transaction-Audited}
use flowx.Examples.{row, transaction, wallet, world}

abbrev small : Decimal ℤ
small = record scaled {
  parse = λ s. if s == "90" then some (pos 90) else if s == "10" then some (pos 10) else none;
}

abbrev leg : String → String → PaymentFields
leg to amount = record {
  from = "w1";
  to = to;
  amount = amount;
  asset_type = "credit_alphanum4";
  asset_code = "USDC";
  asset_issuer = "GI";
}

abbrev auditor : Auditor ℤ
auditor = record {
  operations =
      λ hash. pure (payment "payment" (leg "w2" "90") ∷ payment "payment" (leg "GF" "10") ∷ []);
  find_wallet = λ id. pure (wallet id);
  registry = λ code. some (code, "GI");
  fee_wallet = "GF";
  uuid = λ n. "a1";
}

auditor-IsReading : IsReading auditor
auditor-IsReading = record { operations = λ hash w. refl; find_wallet = λ id w. refl }

abbrev books : Books ℤ
books = record {
  world = record (world (row "t1" confirmed ∷ [])) { detail_replies = successful ∷ [] };
  audit_log = [];
}

check_transaction-Audited_example :
    Audited ⦃d = small⦄ auditor
      (transaction "t1" confirmed)
      (next_detail books.world.detail_replies)
      books.world.rows
      (check_transaction ⦃d = small⦄ auditor (transaction "t1" confirmed) books)
check_transaction-Audited_example =
    check_transaction-Audited ⦃d = small⦄ auditor (transaction "t1" confirmed) books
      auditor-IsReading
