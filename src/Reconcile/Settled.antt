-- ===== src/Reconcile/Settled.antt =====
-- Settlement against reconciliation: what the one pays, the other accepts.
use flowx.Prelude.{
  Bool-cases, if◌then◌else◌, ◌≡◌, refl, sym, ap, ◌∙◌, String, true, false, Option, none, some, List,
  arith, ◌==◌, string_eq, eq_refl, or_empty, map, inl, inr, ◌⊎◌,
}
use flowx.Decimal.{Decimal, equal}
use flowx.Decimal.Laws.{IsDecimal}
use mathlib.Core.Path.{subst}
use flowx.Exec.{Result, ok, err, pure}
use flowx.Exec.Keeps.{if-cases}
use flowx.Domain.{Transaction, net_amount, Wallet}
use flowx.World.{World, Action, Payment}
use flowx.Settlement.{Engine, credit_asset, build_asset, main_payment, fee_payment, payments}
use flowx.Reconcile.Verify.{
  ExpectedPayment, PaymentFields, Operation, payment, CandidatePayment, asset_identity_matches,
  matches_main_leg, matches_fee_leg, extract_candidate_payment, is_leg, verify_ops, verify_ops_lem,
  registered_asset, build_expected_payment,
}

-- How Horizon reports a payment, as the source relies on it.
pub record IsReport (report : String → Payment → PaymentFields) : Type 0 where
  pub from : (source : String) (p : Payment) → (report source p).from ≡ source
  pub to : (source : String) (p : Payment) → (report source p).to ≡ p.destination
  pub amount : (source : String) (p : Payment) → (report source p).amount ≡ p.amount
  pub native :
      (source : String) (p : Payment) → p.issuer ≡ none → (report source p).asset_type ≡ "native"
  pub credit :
      (source : String) (p : Payment) (i : String)
      → p.issuer ≡ some i
      → (((report source p).asset_type == "native") ≡ false)
        × (((report source p).asset_code ≡ p.asset_code) × ((report source p).asset_issuer ≡ i))

-- An amount that its text with seven places gives back.
abbrev pub Exact : {D : Type 0} ⦃d : Decimal D⦄ → D → Type 0
Exact ⦃d⦄ a = (d.parse (d.string_fixed7 a) ≡ some a) × ((d.string_fixed7 a == "") ≡ false)

module _ {D : Type 0} ⦃d : Decimal D⦄ (c : CandidatePayment D) (exp : ExpectedPayment D) where
  native_matches :
      (exp.asset_code == "XLM") ≡ true
      → (c.asset_type == "native") ≡ true
      → asset_identity_matches c exp ≡ true
  unfolding asset_identity_matches
  native_matches e f = ground arith

  credit_matches :
      (exp.asset_code == "XLM") ≡ false
      → (c.asset_type == "native") ≡ false
      → (c.asset_code == exp.asset_code) ≡ true
      → (c.asset_issuer == exp.asset_issuer) ≡ true
      → asset_identity_matches c exp ≡ true
  unfolding asset_identity_matches
  credit_matches e f g h = ground arith

  main_matches :
      asset_identity_matches c exp ≡ true
      → (c.from == exp.from_public_key) ≡ true
      → (c.to == exp.to_public_key) ≡ true
      → equal c.amount exp.net_amount ≡ true
      → matches_main_leg c exp ≡ true
  unfolding matches_main_leg
  main_matches e f g h = ground arith

  fee_matches :
      asset_identity_matches c exp ≡ true
      → (exp.fee_wallet == "") ≡ false
      → (c.to == exp.fee_wallet) ≡ true
      → equal c.amount exp.fee ≡ true
      → matches_fee_leg c exp ≡ true
  unfolding matches_fee_leg
  fee_matches e f g h = ground arith

-- The code and the issuer of an asset: the native asset has no issuer, and any other has one.
abbrev pub IsAsset : String × Option String → Type 0
IsAsset a =
    (((a.0 == "XLM") ≡ true) × (a.1 ≡ none))
    ⊎ (((a.0 == "XLM") ≡ false) × ((i : String) × (a.1 ≡ some i)))

abbrev Built : Result (String × Option String) → Type 0
Built (ok a) = IsAsset a
Built (err e) = Unit

module _ {D : Type 0} ⦃d : Decimal D⦄ where
  build_asset-Built :
      (eng : Engine D) (code : String) (w : World D) → Built (build_asset eng code w).0
  unfolding build_asset
  build_asset-Built eng code w =
      if-cases (λ p. Built p.0) (code == "XLM") (pure ("XLM", none))
        (credit_asset code (eng.issuer_of code)) w (λ _. inl (eq_refl "XLM", refl))
        (λ k. issued k (eng.issuer_of code))
    where
      issued :
          (code == "XLM") ≡ false → (o : Option String) → Built (credit_asset {D = D} code o w).0
      issued k none = tt
      issued k (some i) = inr (k, (i, refl))

-- The entry of a registry of assets: the code and the issuer.
abbrev pub with_code : String → Option String → Option (String × String)
with_code code none = none
with_code code (some i) = some (code, i)

-- There is an expected payment, and the operations verify all of it.
abbrev pub Verified :
    {D : Type 0} ⦃d : Decimal D⦄ → List Operation → Result (ExpectedPayment D) → Type 0
Verified ops (ok exp) = verify_ops ops exp ≡ (true, true, true)
Verified ops (err e) = ⊥

module _ {D : Type 0} ⦃d : Decimal D⦄ (l : IsDecimal d) (report : String → Payment → PaymentFields)
    (h : IsReport report) (eng : Engine D) (tx : Transaction D) (src dst : Wallet) where
  -- The operations that Horizon reports for a transaction's payments.
  abbrev pub reported : List Payment → List Operation
  reported ps = map (λ p. payment "payment" (report src.public_key p)) ps

  -- What reconciliation is to expect, by the same wallets, asset and fee wallet.
  abbrev pub expected : String × Option String → ExpectedPayment D
  expected asset = record {
    from_public_key = src.public_key;
    to_public_key = dst.public_key;
    asset_code = asset.0;
    asset_issuer = or_empty asset.1;
    net_amount = net_amount tx;
    fee = tx.fee;
    fee_wallet = eng.fee_wallet;
  }

  -- The reads of the transaction's wallets give its source and its destination.
  abbrev pub Finds : (String → Action D Wallet) → Type 0
  Finds find =
      ((tx.from_wallet == "") ≡ false)
      × ((tx.to_wallet == "") ≡ false)
      × ((u : World D) → (find tx.from_wallet u).0 ≡ ok src)
      × ((u : World D) → (find tx.to_wallet u).0 ≡ ok dst)

  -- The candidate that a payment of the engine becomes.
  abbrev candidate : Payment → D → CandidatePayment D
  candidate p a = record {
    from = (report src.public_key p).from;
    to = (report src.public_key p).to;
    amount = a;
    asset_type = (report src.public_key p).asset_type;
    asset_code = (report src.public_key p).asset_code;
    asset_issuer = (report src.public_key p).asset_issuer;
  }

  candidate_lem :
      (p : Payment) (a : D)
      → Exact a
      → p.amount ≡ d.string_fixed7 a
      → extract_candidate_payment (payment "payment" (report src.public_key p))
        ≡ some (candidate p a)
  unfolding extract_candidate_payment
  candidate_lem p a x e = grind (arith, h.amount src.public_key p)

  same : (a b : String) → a ≡ b → (a == b) ≡ true
  same a b e = ap (λ x. x == b) e ∙ eq_refl b

  asset_lem :
      (asset : String × Option String) (p : Payment) (a : D)
      → IsAsset asset
      → p.asset_code ≡ asset.0
      → p.issuer ≡ asset.1
      → asset_identity_matches (candidate p a) (expected asset) ≡ true
  asset_lem asset p a (inl (n, e)) e1 e2 =
      native_matches (candidate p a) (expected asset) n
        (same _ "native" (h.native src.public_key p (e2 ∙ e)))
  asset_lem asset p a (inr (n, (i, e))) e1 e2 =
      let (k, (code, issuer)) = h.credit src.public_key p i (e2 ∙ e) in
      credit_matches (candidate p a) (expected asset) n k (same _ asset.0 (code ∙ e1))
        (same _ (or_empty asset.1) (issuer ∙ sym (ap or_empty e)))

  equal_refl : (a : D) → equal a a ≡ true
  equal_refl a = ground (arith, l.leq_refl a)

  main_leg :
      (asset : String × Option String) (p : Payment)
      → IsAsset asset
      → p.destination ≡ dst.public_key
      → p.asset_code ≡ asset.0
      → p.issuer ≡ asset.1
      → matches_main_leg (candidate p (net_amount tx)) (expected asset) ≡ true
  main_leg asset p x e1 e2 e3 =
      main_matches (candidate p (net_amount tx)) (expected asset)
        (asset_lem asset p (net_amount tx) x e2 e3)
        (same _ src.public_key (h.from src.public_key p))
        (same _ dst.public_key (h.to src.public_key p ∙ e1)) (equal_refl (net_amount tx))

  fee_leg :
      (asset : String × Option String) (p : Payment)
      → IsAsset asset
      → (eng.fee_wallet == "") ≡ false
      → p.destination ≡ eng.fee_wallet
      → p.asset_code ≡ asset.0
      → p.issuer ≡ asset.1
      → matches_fee_leg (candidate p tx.fee) (expected asset) ≡ true
  fee_leg asset p x k e1 e2 e3 =
      fee_matches (candidate p tx.fee) (expected asset) (asset_lem asset p tx.fee x e2 e3) k
        (same _ eng.fee_wallet (h.to src.public_key p ∙ e1)) (equal_refl tx.fee)

  main_is_leg :
      (asset : String × Option String)
      → IsAsset asset
      → Exact (net_amount tx)
      → is_leg matches_main_leg
          (expected asset)
          (payment "payment" (report src.public_key (main_payment eng tx dst asset)))
        ≡ true
  main_is_leg asset k x =
      ap (λ o. elim o [ none ↦ false | some c ↦ matches_main_leg c (expected asset) ])
        (candidate_lem (main_payment eng tx dst asset) (net_amount tx) x refl)
      ∙ main_leg asset (main_payment eng tx dst asset) k refl refl refl

  fee_is_leg :
      (asset : String × Option String)
      → IsAsset asset
      → Exact tx.fee
      → (eng.fee_wallet == "") ≡ false
      → is_leg matches_fee_leg
          (expected asset)
          (payment "payment" (report src.public_key (fee_payment eng tx asset)))
        ≡ true
  fee_is_leg asset k x e =
      ap (λ o. elim o [ none ↦ false | some c ↦ matches_fee_leg c (expected asset) ])
        (candidate_lem (fee_payment eng tx asset) tx.fee x refl)
      ∙ fee_leg asset (fee_payment eng tx asset) k e refl refl refl

  main_and_fee :
      (w : World D) (asset : String × Option String) (ps : List Payment)
      → (build_asset eng tx.asset w).0 ≡ ok asset
      → (payments eng tx dst asset w).0 ≡ ok ps
      → Exact (net_amount tx)
      → Exact tx.fee
      → verify_ops (reported ps) (expected asset) ≡ (true, true, true)
  unfolding payments
  main_and_fee w asset ps built e x1 x2 =
      let k : IsAsset asset = subst Built built (build_asset-Built eng tx.asset w) in
      verify_ops_lem (reported ps) (expected asset)
      ∙ grind (arith, main_is_leg asset k x1, fee_is_leg asset k x2)

  registered :
      (registry : String → Option (String × String)) (w u : World D)
      (asset : String × Option String)
      → registry tx.asset ≡ with_code tx.asset (eng.issuer_of tx.asset)
      → (build_asset eng tx.asset w).0 ≡ ok asset
      → registered_asset registry tx.asset u ≡ (ok (asset.0, or_empty asset.1), u)
  unfolding build_asset
  registered registry w u asset h k = elim (Bool-cases (tx.asset == "XLM")) [
    | inl n ↦ ground (arith, k, n)
    | inr n ↦ issued n (eng.issuer_of tx.asset) h k
  ]
    where
      issued :
          (tx.asset == "XLM") ≡ false
          → (o : Option String) → registry tx.asset ≡ with_code tx.asset o
          → ((if tx.asset == "XLM" then pure ("XLM", none) else credit_asset tx.asset o) w).0
            ≡ ok asset
          → registered_asset registry tx.asset u ≡ (ok (asset.0, or_empty asset.1), u)
      issued n none h k = absurd (ground (arith, n, k))
      issued n (some i) h k = ground (arith, n, h, k)

  expected_lem :
      (find : String → Action D Wallet) (registry : String → Option (String × String))
      (w u : World D) (asset : String × Option String)
      → Finds find
      → registry tx.asset ≡ with_code tx.asset (eng.issuer_of tx.asset)
      → (build_asset eng tx.asset w).0 ≡ ok asset
      → (build_expected_payment find registry eng.fee_wallet tx u).0 ≡ ok (expected asset)
  unfolding build_expected_payment
  expected_lem find registry w u asset (from, to, src_found, dst_found) r k =
      grind
        (arith, from, to, src_found, dst_found, λ (s : World D). registered registry w s asset r k)

  -- What settlement pays, reconciliation verifies: the payments that `SubmitTransfer` builds for a
  -- transaction, as Horizon reports them, pass `verifyOps` in full against what
  -- `buildExpectedPayment` makes of it, where both read the same wallets and fee wallet, the
  -- registries of assets agree, and the net amount and the fee have seven places.
  pub settled_verifies :
      (find : String → Action D Wallet) (registry : String → Option (String × String))
      (w u : World D) (asset : String × Option String) (ps : List Payment)
      → Finds find
      → registry tx.asset ≡ with_code tx.asset (eng.issuer_of tx.asset)
      → (build_asset eng tx.asset w).0 ≡ ok asset
      → (payments eng tx dst asset w).0 ≡ ok ps
      → Exact (net_amount tx)
      → Exact tx.fee
      → Verified (reported ps) (build_expected_payment find registry eng.fee_wallet tx u).0
  settled_verifies find registry w u asset ps h r built e x1 x2 =
      subst (Verified (reported ps)) (sym (expected_lem find registry w u asset h r built))
        (main_and_fee w asset ps built e x1 x2)
