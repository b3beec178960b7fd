-- ===== src/Settlement/Sends.antt =====
-- What `SubmitTransfer` sends: nothing without the claim, and then one envelope, at most three times.
use flowx.Prelude.{
  ℕ, zero, suc, ◌≤◌, ◌≡◌, refl, ap, ◌∙◌, ◌⊎◌, inl, inr, String, Bool, not, ◌&&◌, Option, List, [],
  ◌∷◌, arith, eqb, if◌then◌else◌, ◌==◌, string_eq,
}
use flowx.Decimal.{Decimal}
use flowx.Exec.{Result, ok, err, continue}
use flowx.Exec.Keeps.{if-holds, continue-holds}
use flowx.Domain.{Transaction, Wallet, FeeCollection}
use flowx.Domain.Status.{TransactionStatus, submitted}
use flowx.World.{World, Action, Envelope, SubmitReply, accepted, refused}
use flowx.TxRepo.{get_by_id, claim_for_submission, update_status, exec_update, must_affect}
use flowx.Submission.{
  submit_once, submit_loop, submit_with_retry, transaction_detail, SubmitOutcome, next_submit_reply,
  rest_submit_replies, is_retryable,
}
use flowx.Settlement.{
  Engine, sync_line, sync_lines, record_collection, build_asset, sync_wallet_balances, payments,
  prepare, finalize_confirmed, try_resolve_ambiguous, conclude, settle, process, after_claim,
  submit_transfer, AccountBalance,
}

-- `sent` with `k` more copies of an envelope.
abbrev pub copies : ℕ → Envelope → List Envelope → List Envelope
copies zero e sent = sent
copies (suc k) e sent = copies k e (e ∷ sent)

-- At most `n` copies of one envelope were added.
abbrev pub Copied : ℕ → Envelope → List Envelope → List Envelope → Type 0
Copied n e before after = (k : ℕ) × ((k ≤ n) × (after ≡ copies k e before))

-- A call that reads sends nothing.
abbrev pub Silent : {D A : Type 0} → (String → Action D A) → Type 0
Silent {D} m = (x : String) (w : World D) → (m x w).1.sent ≡ w.sent

-- How many attempts the answers allow, of `left` after the first `n`.
abbrev pub attempts : (ℕ → Bool) → (left n : ℕ) → List SubmitReply → ℕ
attempts done zero n rs = 0
attempts done (suc left) n rs =
    let rest = attempts done left (suc n) (rest_submit_replies rs) in
    if not (eqb n 0) && done n then 0 else elim (next_submit_reply rs) [
      | accepted hash ↦ 1
      | refused text ↦ if is_retryable text then suc rest else 1
    ]

attempts-le :
    (done : ℕ → Bool) (left n : ℕ) (rs : List SubmitReply) → attempts done left n rs ≤ left
attempts-le done zero n rs = omega arith
attempts-le done (suc left) n rs =
    ground (arith, attempts-le done left (suc n) (rest_submit_replies rs))

module _ {D : Type 0} where
  loop_sends :
      (done : ℕ → Bool) (e : Envelope) (left n : ℕ) (last : String) (w : World D)
      → (submit_loop done e left n last w).1.sent
        ≡ copies (attempts done left n w.submit_replies) e w.sent
  unfolding submit_loop submit_once
  loop_sends done e zero n last w = refl
  loop_sends done e (suc left) n last w =
      grind (arith, λ (t : String). loop_sends done e left (suc n) t (submit_once e w).1)

  update_status-silent :
      (tenant id : String) (s : TransactionStatus) (h : String) (w : World D)
      → (update_status tenant id s h w).1.sent ≡ w.sent
  unfolding update_status
  update_status-silent tenant id s h w = ground arith

  claim-silent : (id : String) (w : World D) → (claim_for_submission id w).1.sent ≡ w.sent
  unfolding claim_for_submission exec_update must_affect
  claim-silent id w = ground arith

  detail-silent : (h : String) (w : World D) → (transaction_detail h w).1.sent ≡ w.sent
  unfolding transaction_detail
  detail-silent h w = refl

  -- the rule for a call that is followed by another
  continue-silent :
      {A B : Type 0} (p : Result A × World D) (f : A → Action D B) (w : World D)
      → p.1.sent ≡ w.sent
      → ((a : A) → (f a p.1).1.sent ≡ p.1.sent)
      → (continue p f).1.sent ≡ w.sent
  continue-silent (ok a, s) f w h k = k a ∙ h
  continue-silent (err x, s) f w h k = h

module _ {D : Type 0} ⦃d : Decimal D⦄ where
  get_by_id-silent : (tenant id : String) (w : World D) → (get_by_id tenant id w).1.sent ≡ w.sent
  unfolding get_by_id
  get_by_id-silent tenant id w = ground arith

  sync_line-silent :
      (id : String) (b : AccountBalance) (w : World D) → (sync_line id b w).1.sent ≡ w.sent
  unfolding sync_line
  sync_line-silent id b w = ground arith

  sync_lines-silent :
      (id : String) (bs : List AccountBalance) (w : World D) → (sync_lines id bs w).1.sent ≡ w.sent
  unfolding sync_lines
  sync_lines-silent id [] w = refl
  sync_lines-silent id (b ∷ bs) w =
      continue-silent (sync_line id b w) (λ _. sync_lines id bs) w (sync_line-silent id b w)
        (λ _. sync_lines-silent id bs (sync_line id b w).1)

  record_collection-silent :
      (c : FeeCollection D) (w : World D) → (record_collection c w).1.sent ≡ w.sent
  unfolding record_collection
  record_collection-silent c w = ground arith

module _ {D : Type 0} ⦃d : Decimal D⦄ (eng : Engine D) (wallets : Silent eng.find_wallet)
    (accounts : Silent eng.load_account) where
  sync_wallet-silent : (wl : Wallet) (w : World D) → (sync_wallet_balances eng wl w).1.sent ≡ w.sent
  unfolding sync_wallet_balances
  sync_wallet-silent wl w =
      continue-silent (eng.load_account wl.public_key w) (λ ls. sync_lines wl.id ls) w
        (accounts wl.public_key w)
        (λ ls. sync_lines-silent wl.id ls (eng.load_account wl.public_key w).1)

  payments-silent :
      (tx : Transaction D) (dst : Wallet) (a : String × Option String) (w : World D)
      → (payments eng tx dst a w).1.sent ≡ w.sent
  unfolding payments
  payments-silent tx dst a w = ground arith

  build_asset-silent : (c : String) (w : World D) → (build_asset eng c w).1.sent ≡ w.sent
  unfolding build_asset
  build_asset-silent c w = ground arith

  prepare-silent : (tx : Transaction D) (w : World D) → (prepare eng tx w).1.sent ≡ w.sent
  unfolding prepare
  prepare-silent tx w = grind (arith, wallets, accounts, payments-silent, build_asset-silent)

  finalize-silent :
      (tx : Transaction D) (h : String) (src dst : Wallet) (w : World D)
      → (finalize_confirmed eng tx h src dst w).1.sent ≡ w.sent
  unfolding finalize_confirmed
  finalize-silent tx h src dst w =
      grind
        (arith, update_status-silent {D = D}, sync_wallet-silent, record_collection-silent {D = D})

  resolve-silent :
      (tx : Transaction D) (h : String) (src dst : Wallet) (w : World D)
      → (try_resolve_ambiguous eng tx h src dst w).1.sent ≡ w.sent
  unfolding try_resolve_ambiguous
  resolve-silent tx h src dst w =
      grind (arith, update_status-silent {D = D}, finalize-silent, detail-silent {D = D})

  conclude-silent :
      (tx : Transaction D) (h : String) (src dst : Wallet) (o : SubmitOutcome) (w : World D)
      → (conclude eng tx h src dst o w).1.sent ≡ w.sent
  unfolding conclude
  conclude-silent tx h src dst o w =
      if-holds (λ p. p.1.sent ≡ w.sent) o.confirmed _ _ w (finalize-silent tx h src dst w)
        (if-holds (λ p. p.1.sent ≡ w.sent) o.ambiguous _ _ w (grind (arith, resolve-silent))
          (grind (arith, update_status-silent {D = D})))

  settle_sends :
      (tx : Transaction D) (src dst : Wallet) (e : Envelope) (w : World D)
      → Copied 3 e w.sent (settle eng tx src dst e w).1.sent
  unfolding settle submit_with_retry
  settle_sends tx src dst e w = (
    attempts eng.context_done 3 0
        (update_status eng.tenant tx.id submitted e.hash w).1.submit_replies,
    (
      attempts-le eng.context_done 3 0
          (update_status eng.tenant tx.id submitted e.hash w).1.submit_replies,
      grind (
        arith,
        update_status-silent {D = D},
        conclude-silent,
        loop_sends eng.context_done e 3 0 "",
      ),
    ),
  )

  abbrev SendsOne : List Envelope → Result (Unit {0}) × World D → Type 0
  SendsOne before p = (p.1.sent ≡ before) ⊎ ((e : Envelope) × Copied 3 e before p.1.sent)

  settle-SendsOne :
      (tx : Transaction D) (src dst : Wallet) (e : Envelope) (w : World D) (before : List Envelope)
      → w.sent ≡ before
      → SendsOne before (settle eng tx src dst e w)
  settle-SendsOne tx src dst e w before h =
      let (k, (le, eq)) = settle_sends tx src dst e w in inr (e, (k, (le, eq ∙ ap (copies k e) h)))

  process-SendsOne : (tx : Transaction D) (w : World D) → SendsOne w.sent (process eng tx w)
  unfolding process
  process-SendsOne tx w =
      if-holds (SendsOne w.sent) (not (tx.to_address == "")) _ _ w
        (inl (grind (arith, update_status-silent {D = D})))
        (continue-holds (SendsOne w.sent) (prepare eng tx w) _ (λ e. inl (prepare-silent tx w))
          (λ b. settle-SendsOne tx b.0 b.1 b.2 (prepare eng tx w).1 w.sent (prepare-silent tx w)))

  after_claim-sends :
      (tx : Transaction D) (r : Result (Unit {0})) (w : World D)
      → ((after_claim eng tx r w).1.sent ≡ w.sent)
        ⊎ ((r ≡ ok tt) × ((e : Envelope) × Copied 3 e w.sent (after_claim eng tx r w).1.sent))
  unfolding after_claim
  after_claim-sends tx (ok _) w = elim (process-SendsOne tx w) [
    | inl h ↦ inl h
    | inr h ↦ inr (refl, h)
  ]
  after_claim-sends tx (err e) w = inl (ground arith)

  -- How a claim's call and what follows it may have changed what was sent.
  abbrev SendsClaimed : String → World D → Result (Unit {0}) × World D → Type 0
  SendsClaimed id w p =
      (p.1.sent ≡ w.sent)
      ⊎ (((claim_for_submission id (get_by_id eng.tenant id w).1).0 ≡ ok tt)
          × ((e : Envelope) × Copied 3 e w.sent p.1.sent))

  claimed :
      (id : String) (w : World D) (tx : Transaction D) (c : Result (Unit {0}) × World D)
      → claim_for_submission id (get_by_id eng.tenant id w).1 ≡ c
      → c.1.sent ≡ w.sent
      → SendsClaimed id w (after_claim eng tx c.0 c.1)
  claimed id w tx (r, s) q h = elim (after_claim-sends tx r s) [
    | inl k ↦ inl (k ∙ h)
    | inr (won, (e, (k, (le, eq)))) ↦
        inr (ap (λ p. p.0) q ∙ won, (e, (k, (le, eq ∙ ap (copies k e) h))))
  ]

  -- `SubmitTransfer` sends nothing, or it has won the claim of the transaction and sends one
  -- signed envelope, the same one at most three times, given that the reads of wallets and
  -- accounts send nothing.
  pub submit_transfer_sends :
      (id : String) (w : World D)
      → ((submit_transfer eng id w).1.sent ≡ w.sent)
        ⊎ (((claim_for_submission id (get_by_id eng.tenant id w).1).0 ≡ ok tt)
            × ((e : Envelope) × Copied 3 e w.sent (submit_transfer eng id w).1.sent))
  unfolding submit_transfer
  submit_transfer_sends id w =
      let s = (get_by_id eng.tenant id w).1 in
      continue-holds (SendsClaimed id w) (get_by_id eng.tenant id w) _
        (λ e. inl (get_by_id-silent eng.tenant id w))
        (λ tx.
          claimed id w tx (claim_for_submission id s) refl
            (claim-silent id s ∙ get_by_id-silent eng.tenant id w))
