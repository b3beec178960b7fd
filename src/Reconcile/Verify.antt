-- ===== src/Reconcile/Verify.antt =====
-- The matching of on-chain operations with the payment that a transaction stands for.
use flowx.Prelude.{
  ◌≡◌, String, Bool, true, false, not, ◌&&◌, ◌||◌, Option, none, some, List, [], ◌∷◌, arith, ◌==◌,
  string_eq, if◌then◌else◌,
}
use flowx.Decimal.{Decimal, gt, equal}
use flowx.Exec.{invalid_asset, pure, raise, ◌>>=◌}
use flowx.Domain.{Transaction, net_amount, Wallet}
use flowx.World.{Action}

-- `expectedPayment`
pub record ExpectedPayment (D : Type 0) : Type 0 where
  pub from_public_key : String
  pub to_public_key : String
  pub asset_code : String
  pub asset_issuer : String
  pub net_amount : D
  pub fee : D
  pub fee_wallet : String

-- An operation of Horizon. Of the operations that are payments the source reads these fields; the
-- type is the text of `GetType`, and `other` is any Go type but the two that are matched.
pub record PaymentFields : Type 0 where
  pub from : String
  pub to : String
  pub amount : String
  pub asset_type : String
  pub asset_code : String
  pub asset_issuer : String

pub data Operation : Type 0 where
  payment path_payment : String → PaymentFields → Operation
  other : String → Operation

-- `candidatePayment`
pub record CandidatePayment (D : Type 0) : Type 0 where
  pub from : String
  pub to : String
  pub amount : D
  pub asset_type : String
  pub asset_code : String
  pub asset_issuer : String

abbrev is_payment_type : String → Bool
is_payment_type t =
    t == "payment" || t == "path_payment_strict_send" || t == "path_payment_strict_receive"

abbrev pub some_op : (Operation → Bool) → List Operation → Bool
some_op p [] = false
some_op p (o ∷ ops) = let rest = some_op p ops in p o || rest

module _ {D : Type 0} ⦃d : Decimal D⦄ where
  -- `assetIdentityMatches`
  unfoldable pub asset_identity_matches : CandidatePayment D → ExpectedPayment D → Bool
  asset_identity_matches c exp =
      if exp.asset_code == "XLM"
      then c.asset_type == "native"
      else not (c.asset_type == "native")
        && c.asset_code == exp.asset_code
        && c.asset_issuer == exp.asset_issuer

  -- `matchesMainLeg`
  unfoldable pub matches_main_leg : CandidatePayment D → ExpectedPayment D → Bool
  unfolding asset_identity_matches
  matches_main_leg c exp =
      if not (exp.from_public_key == "") && not (c.from == exp.from_public_key)
      then false
      else if not (exp.to_public_key == "") && not (c.to == exp.to_public_key)
      then false
      else if not (asset_identity_matches c exp)
      then false
      else equal c.amount exp.net_amount

  -- `matchesFeeLeg`
  unfoldable pub matches_fee_leg : CandidatePayment D → ExpectedPayment D → Bool
  unfolding asset_identity_matches
  matches_fee_leg c exp =
      if exp.fee_wallet == "" || not (c.to == exp.fee_wallet)
      then false
      else if not (asset_identity_matches c exp)
      then false
      else equal c.amount exp.fee

  -- The fields of an operation, where it is a payment with an amount that is a number.
  abbrev candidate_of : PaymentFields → Option D → Option (CandidatePayment D)
  candidate_of p none = none
  candidate_of p (some a) = some (record {
    from = p.from;
    to = p.to;
    amount = a;
    asset_type = p.asset_type;
    asset_code = p.asset_code;
    asset_issuer = p.asset_issuer;
  })

  abbrev candidate_of_fields : String → PaymentFields → Option (CandidatePayment D)
  candidate_of_fields t p =
      if is_payment_type t && not (p.amount == "") then candidate_of p (d.parse p.amount) else none

  -- `extractCandidatePayment`
  unfoldable pub extract_candidate_payment : Operation → Option (CandidatePayment D)
  extract_candidate_payment (payment t p) = candidate_of_fields t p
  extract_candidate_payment (path_payment t p) = candidate_of_fields t p
  extract_candidate_payment (other t) = none

  -- The loop of `verifyOps` from the flags so far: amount and asset are set together.
  unfoldable pub verify_loop :
      List Operation → ExpectedPayment D → (main fee : Bool) → Bool × Bool × Bool
  unfolding extract_candidate_payment matches_main_leg matches_fee_leg
  verify_loop [] exp main fee = (main, main, fee)
  verify_loop (o ∷ ops) exp main fee =
      let rest = λ (m f : Bool). verify_loop ops exp m f in
      elim (extract_candidate_payment o) [
        | none ↦ rest main fee
        | some c ↦
            let main' = main || matches_main_leg c exp in
            let fee' = fee || matches_fee_leg c exp in
            if main' && fee' then (true, true, true) else rest main' fee'
      ]

  -- `verifyOps`: amount, asset and fee are verified. The details are a text for people.
  unfoldable pub verify_ops : List Operation → ExpectedPayment D → Bool × Bool × Bool
  unfolding verify_loop
  verify_ops ops exp = verify_loop ops exp false (not (gt exp.fee d.zero))

  abbrev pub registered_asset :
      (String → Option (String × String)) → String → Action D (String × String)
  registered_asset registry code =
      if code == "XLM"
      then pure ("XLM", "")
      else elim (registry code) [ none ↦ raise invalid_asset | some a ↦ pure a ]

  -- `buildExpectedPayment`; the registry gives the code and the issuer of an asset.
  unfoldable pub build_expected_payment :
      (String → Action D Wallet)
      → (String → Option (String × String))
      → String
      → Transaction D
      → Action D (ExpectedPayment D)
  unfolding net_amount
  build_expected_payment find registry fee_wallet tx = do
    from ←
        (if tx.from_wallet == "" then pure "" else (do w ← find tx.from_wallet; pure w.public_key))
    to ← (if tx.to_wallet == "" then pure "" else (do w ← find tx.to_wallet; pure w.public_key))
    asset ← registered_asset registry tx.asset
    pure (record {
      from_public_key = from;
      to_public_key = to;
      asset_code = asset.0;
      asset_issuer = asset.1;
      net_amount = net_amount tx;
      fee = tx.fee;
      fee_wallet = fee_wallet;
    })

  -- Whether an operation is a payment that satisfies a test.
  abbrev pub is_leg :
      (CandidatePayment D → ExpectedPayment D → Bool) → ExpectedPayment D → Operation → Bool
  is_leg matches exp o = elim (extract_candidate_payment o) [
    | none ↦ false
    | some c ↦ matches c exp
  ]

  verify_loop_lem :
      (ops : List Operation) (exp : ExpectedPayment D) (main fee : Bool)
      → verify_loop ops exp main fee ≡ (
        main || some_op (is_leg matches_main_leg exp) ops,
        main || some_op (is_leg matches_main_leg exp) ops,
        fee || some_op (is_leg matches_fee_leg exp) ops,
      )
  unfolding verify_loop
  verify_loop_lem [] exp main fee = ground arith
  verify_loop_lem (o ∷ ops) exp main fee =
      grind (arith, λ (m f : Bool). verify_loop_lem ops exp m f)

  -- `verifyOps` verifies amount and asset exactly if one single payment has the source, the
  -- destination, the asset and the net amount that are expected, and the fee exactly if there is
  -- none or some payment is the fee's, although its loop stops early.
  pub verify_ops_lem :
      (ops : List Operation) (exp : ExpectedPayment D)
      → verify_ops ops exp ≡ (
        some_op (is_leg matches_main_leg exp) ops,
        some_op (is_leg matches_main_leg exp) ops,
        not (gt exp.fee d.zero) || some_op (is_leg matches_fee_leg exp) ops,
      )
  unfolding verify_ops
  verify_ops_lem ops exp = verify_loop_lem ops exp false (not (gt exp.fee d.zero))
