-- ===== src/Treasury/Covered.antt =====
-- A sweep leaves what must stay: the reserves and the operating buffer.
use mathlib.Core.Path.{subst}
use flowx.Prelude.{
  ℕ, ◌≡◌, ◌∙◌, ◌⊎◌, refl, ap, inl, inr, String, false, not, Option, none, some, List, [], ◌∷◌, ◌==◌,
  string_eq, arith,
}
use flowx.Decimal.{Decimal, gt, equal}
use flowx.Decimal.Laws.{IsDecimal, Le, leq-sub_sub}
use flowx.Exec.{Result, ok, err, continue, or_raise, chain_error, ◌>>=◌}
use flowx.Exec.Keeps.{if-holds, if-cases}
use flowx.Table.{query_row}
use flowx.World.{Envelope, SubmitReply, accepted, refused}
use flowx.Submission.{submit_once, next_submit_reply}
use flowx.Settlement.{AccountBalance}
use flowx.Treasury.{Config, Vault, on_world, record_sweep}
use flowx.Treasury.Balances.{Custody, get_sweepable_amount}
use flowx.Treasury.Sweep.{
  sweep_payment, passphrase, prepare_sweep, log_sweep, after_submit, zero_sweep, send_sweep,
  sweep_within, execute_sweep,
}
use flowx.Treasury.Sweepable.{lines_of, reply_of, reserve_of, steady, Computed, sweepable-Computed}
use flowx.Treasury.Found.{RateSilent, first_amount, Calm}

module _ {D : Type 0} ⦃d : Decimal D⦄ (accounts : String → Option (List AccountBalance))
    (offers : String → Option ℕ) (keys : List String) (custody : Custody D) where
  abbrev sv : Custody D
  sv = steady accounts offers keys custody

  -- The balance and the policy that a sweep went by, and what it leaves.
  abbrev pub Leaves : String → D → Vault D → Type 0
  Leaves asset amount s =
      (balance : D) × (cfg : Config D) × (first_amount asset
          (lines_of (accounts custody.fee_wallet))
        ≡ some balance)
      × (query_row (λ c. c.asset == asset) s.configs ≡ some cfg)
      × Le (d.add (reserve_of accounts offers keys asset) cfg.min_operating_buffer)
          (d.sub balance amount)

  -- Nothing was sent, or the one payment of the sweep, which leaves what must stay.
  abbrev pub Covered : String → D → String → Vault D → Result String × Vault D → Type 0
  Covered asset amount destination s p =
      (p.1.world.sent ≡ s.world.sent)
      ⊎ ((e : Envelope) × (p.1.world.sent ≡ e ∷ s.world.sent)
          × (custody.build custody.fee_wallet (sweep_payment sv asset amount destination ∷ [])
                custody.treasury_secret_key (passphrase sv)
              ≡ some e)
          × Leaves asset amount s)

  rest_covers :
      (l : IsDecimal d) (asset : String) (amount v : D) (s s' : Vault D)
      → Le d.zero amount
      → gt amount v ≡ false
      → equal amount d.zero ≡ false
      → Computed accounts offers keys custody asset s (ok v, s')
      → Leaves asset amount s
  rest_covers l asset amount v s s' nonneg within nonzero (c, inl z) =
      let within' : gt amount d.zero ≡ false = subst (λ t. gt amount t ≡ false) z within in
      absurd (ground arith)
  rest_covers l asset amount v s s' nonneg within nonzero (c, inr (balance, cfg, e, f, x)) = (
    balance,
    cfg,
    e,
    f,
    leq-sub_sub l amount balance (reserve_of accounts offers keys asset) cfg.min_operating_buffer
        (ground (arith, x)),
  )

  -- After the submission nothing more is sent.
  after_submit-sent :
      (asset : String) (amount : D) (destination triggered_by : String) (r : SubmitReply)
      (s : Vault D)
      → (after_submit sv asset amount destination triggered_by r s).1.world.sent ≡ s.world.sent
  unfolding after_submit log_sweep record_sweep
  after_submit-sent asset amount destination triggered_by (refused text) s = refl
  after_submit-sent asset amount destination triggered_by (accepted hash) s = ground arith

  zero_sweep-sent :
      (asset destination triggered_by : String) (s : Vault D)
      → (zero_sweep sv asset destination triggered_by s).1.world.sent ≡ s.world.sent
  unfolding zero_sweep log_sweep record_sweep
  zero_sweep-sent asset destination triggered_by s = ground arith

  -- The envelope is the one that is built from the payment.
  abbrev Prepared : String → D → String → Vault D → Result Envelope × Vault D → Type 0
  Prepared asset amount destination s (ok e, s') =
      (s'.world.sent ≡ s.world.sent)
      × (custody.build custody.fee_wallet (sweep_payment sv asset amount destination ∷ [])
            custody.treasury_secret_key (passphrase sv)
          ≡ some e)
  Prepared asset amount destination s (err x, s') = s'.world.sent ≡ s.world.sent

  built :
      (asset : String) (amount : D) (destination : String) (s : Vault D) (o : Option Envelope)
      → custody.build custody.fee_wallet
          (sweep_payment sv asset amount destination ∷ [])
          custody.treasury_secret_key
          (passphrase sv)
        ≡ o
      → Prepared asset amount destination s (or_raise o chain_error s)
  built asset amount destination s none h = refl
  built asset amount destination s (some e) h = (refl, h)

  prepare_sweep-Prepared :
      (asset : String) (amount : D) (destination : String) (s : Vault D)
      → Prepared asset amount destination s (prepare_sweep sv asset amount destination s)
  unfolding prepare_sweep
  prepare_sweep-Prepared asset amount destination s =
      let P = Prepared asset amount destination s in
      if-holds P (custody.treasury_secret_key == "") _ _ s refl (
        if-holds P (destination == "") _ _ s refl (
          if-holds P (not (custody.valid_key custody.treasury_secret_key)) _ _ s refl
            (read (accounts custody.fee_wallet))))
    where
      read :
          (o : Option (List AccountBalance))
          → Prepared asset amount destination s (
              (do
                account ← on_world (reply_of o)
                or_raise
                    (custody.build custody.fee_wallet
                      (sweep_payment sv asset amount destination ∷ [])
                      custody.treasury_secret_key
                      (passphrase sv))
                    chain_error)
                s)
      read none = refl
      read (some ls) = built asset amount destination s _ refl

  send_sweep-Covered :
      (asset : String) (amount : D) (destination triggered_by : String) (s0 s : Vault D)
      → Calm s0 s
      → Leaves asset amount s0
      → Covered asset amount destination s0 (send_sweep sv asset amount destination triggered_by s)
  unfolding send_sweep submit_once
  send_sweep-Covered asset amount destination triggered_by s0 s c leaves =
      sent (prepare_sweep sv asset amount destination s)
        (prepare_sweep-Prepared asset amount destination s)
    where
      sent :
          (p : Result Envelope × Vault D)
          → Prepared asset amount destination s p
          → Covered asset amount destination s0 (
              continue p (λ e. on_world (submit_once e) >>= λ reply.
              after_submit sv asset amount destination triggered_by reply))
      sent (ok e, s') (same, b) = inr (
        e,
        after_submit-sent asset amount destination triggered_by
              (next_submit_reply s'.world.submit_replies) _
            ∙ ap (λ es. e ∷ es) (same ∙ c.0),
        b,
        leaves,
      )
      sent (err x, s') same = inl (same ∙ c.0)

  sweep_within-Covered :
      (l : IsDecimal d) (asset : String) (amount : D) (destination triggered_by : String)
      (s0 : Vault D) (p : Result D × Vault D)
      → Le d.zero amount
      → Computed accounts offers keys custody asset s0 p
      → Covered asset amount destination s0
          (continue p (sweep_within sv asset amount destination triggered_by))
  unfolding sweep_within
  sweep_within-Covered l asset amount destination triggered_by s0 (err x, s) nonneg c = inl c.0
  sweep_within-Covered l asset amount destination triggered_by s0 (ok v, s) nonneg c =
      let P = Covered asset amount destination s0 in
      if-cases P (gt amount v) _ _ s (λ _. inl c.0.0)
        (λ within.
          if-cases P (equal amount d.zero) _ _ s
            (λ _. inl (zero_sweep-sent asset destination triggered_by s ∙ c.0.0))
            (λ nonzero.
              send_sweep-Covered asset amount destination triggered_by s0 s c.0
                (rest_covers l asset amount v s0 s nonneg within nonzero c)))

  -- A sweep of an amount that is not negative sends nothing, or the one payment of the amount to
  -- the destination, after which what is left of the fee wallet's first balance with the asset's
  -- code, whatever its issuer, covers the buffer of the asset's policy and, for lumens, the reserve
  -- of all wallets, with the trustlines and at most 200 offers of each wallet that can be read;
  -- where the accounts stay as they are while it runs and the rates send nothing.
  pub execute_sweep-Covered :
      (l : IsDecimal d) (asset : String) (amount : D) (destination triggered_by : String)
      (s : Vault D)
      → RateSilent custody.fx_rate
      → Le d.zero amount
      → Covered asset amount destination s
          (execute_sweep sv asset amount destination triggered_by s)
  unfolding execute_sweep
  execute_sweep-Covered l asset amount destination triggered_by s h nonneg =
      sweep_within-Covered l asset amount destination triggered_by s
        (get_sweepable_amount sv asset s) nonneg
        (sweepable-Computed accounts offers keys custody asset s h)
