-- ===== src/Fx/Once.antt =====
-- A quote is converted once.
use flowx.Prelude.{
  ℕ, ◌+◌, ◌≤◌, ◌≡◌, ◌∙◌, ◌≢◌, refl, String, Bool, true, false, not, ◌&&◌, Option, none, some, List,
  [], ◌∷◌, ◌==◌, string_eq, count, arith, if◌then◌else◌,
}
use flowx.Prelude.Int.{ℤ}
use flowx.Decimal.{Decimal}
use flowx.Exec.{Result, ok, err, continue, catch, pure, logged, ◌>>=◌, ◌>>◌}
use flowx.Exec.Keeps.{if-holds, either-holds, either-cases, continue-holds, catch-holds}
use flowx.Domain.{Wallet, Conversion}
use flowx.Table.{query_row-holds, query_row-count, update_where, count-update_where_zero}
use flowx.World.{Action, draw, next_fault}
use flowx.Fx.{Quote, Entry, Market, Trading, on_world, live, kv_get}
use flowx.Fx.Quotes.{
  FxService, quote_key, mark_entry, claim_quote, check_quote, create_conversion, mark_quote_used,
  where_set, pay_with, pay_out, convert, execute_conversion,
}

-- A conversion that is asked for, or time that passes.
pub data Event : Type 0 where
  execute : String → String → Event
  wait : ℕ → Event

abbrev mark : {D : Type 0} → Entry (Quote D) → Entry (Quote D)
mark x = record x { value = record x.value { used = true } }

module _ {D : Type 0} (id : String) where
  -- an entry of the quote that is not used
  abbrev fresh : Entry (Quote D) → Bool
  fresh e = (e.key == quote_key id) && not e.value.used

  abbrev IsSpent : Market D → Type 0
  IsSpent s = count fresh s.quotes ≡ 0

  -- Without an entry of the quote none is fresh, and none is live.
  no_entry :
      (now : ℕ) (rs : List (Entry (Quote D)))
      → count (λ e. e.key == quote_key id) rs ≡ 0
      → (count fresh (update_where (live (quote_key id) now) mark rs) ≡ 0)
        × (count (live (quote_key id) now) rs ≡ 0)
  unfolding update_where
  no_entry now [] h = (refl, refl)
  no_entry now (r ∷ rs) h = ground (arith, no_entry now rs)

  mark_entries :
      (now : ℕ) (rs : List (Entry (Quote D)))
      → count (λ e. e.key == quote_key id) rs ≤ 1
      → 1 ≤ count (live (quote_key id) now) rs
      → count fresh (update_where (live (quote_key id) now) mark rs) ≡ 0
  unfolding update_where
  mark_entries now [] h k = absurd (omega arith)
  mark_entries now (r ∷ rs) h k = ground (arith, mark_entries now rs, no_entry now rs)

  -- The entry that GET finds is live, and counted where it is fresh.
  found_entry :
      (now : ℕ) (rs : List (Entry (Quote D))) (e : Entry (Quote D))
      → kv_get (quote_key id) now rs ≡ some e
      → (1 ≤ count (live (quote_key id) now) rs) × (e.value.used ≡ false → 1 ≤ count fresh rs)
  unfolding kv_get
  found_entry now rs e h =
      let holds = query_row-holds (live (quote_key id) now) rs e h in
      (
        query_row-count (live (quote_key id) now) (live (quote_key id) now) rs e h holds,
        λ u. query_row-count (live (quote_key id) now) fresh rs e h (ground arith),
      )

  mark_entry-IsSpent :
      (o : Option (Entry (Quote D))) (key : String) (s : Market D)
      → IsSpent s
      → IsSpent (mark_entry o key s).1
  unfolding mark_entry
  mark_entry-IsSpent none key s h = h
  mark_entry-IsSpent (some e) key s h = ground (
    arith,
    count-update_where_zero fresh (live key s.world.now) (mark {D = D}) s.quotes
        (λ r p q. ground arith) h,
  )

  claim-IsSpent : (j : String) (s : Market D) → IsSpent s → IsSpent (claim_quote j s).1
  unfolding claim_quote
  claim-IsSpent j s h =
      either-holds (λ (p : Result (Quote D) × Market D). IsSpent p.1) (next_fault s.world.faults) _
        _ h (mark_entry-IsSpent (kv_get (quote_key j) s.world.now s.quotes) (quote_key j) _ h)

  mark_entry-spends :
      (o : Option (Entry (Quote D))) (s : Market D) (q : Quote D)
      → kv_get (quote_key id) s.world.now s.quotes ≡ o
      → count (λ e. e.key == quote_key id) s.quotes ≤ 1
      → (mark_entry o (quote_key id) s).0 ≡ ok q
      → IsSpent (mark_entry o (quote_key id) s).1
        × ((e : Entry (Quote D)) × (o ≡ some e) × (e.value.used ≡ false))
  unfolding mark_entry
  mark_entry-spends none s q f one h = cc
  mark_entry-spends (some e) s q f one h = (
    ground (arith, mark_entries s.world.now s.quotes one (found_entry s.world.now s.quotes e f).0),
    (e, refl, ground arith),
  )

  claim-spends :
      (s : Market D) (q : Quote D)
      → count (λ e. e.key == quote_key id) s.quotes ≤ 1
      → (claim_quote id s).0 ≡ ok q
      → IsSpent (claim_quote id s).1
  unfolding claim_quote
  claim-spends s q one =
      either-cases (λ (p : Result (Quote D) × Market D). p.0 ≡ ok q → IsSpent p.1)
        (next_fault s.world.faults) _ _ (λ e h. cc)
        (λ e h. (mark_entry-spends (kv_get (quote_key id) s.world.now s.quotes) _ q refl one h).0)

  mark_entry-spent :
      (o : Option (Entry (Quote D))) (s : Market D) (q : Quote D)
      → kv_get (quote_key id) s.world.now s.quotes ≡ o
      → IsSpent s
      → (mark_entry o (quote_key id) s).0 ≢ ok q
  unfolding mark_entry
  mark_entry-spent none s q f h k = cc
  mark_entry-spent (some e) s q f h k = ground (arith, (found_entry s.world.now s.quotes e f).1)

  claim-spent : (s : Market D) (q : Quote D) → IsSpent s → (claim_quote id s).0 ≢ ok q
  unfolding claim_quote
  claim-spent s q h =
      either-cases (λ (p : Result (Quote D) × Market D). p.0 ≢ ok q) (next_fault s.world.faults) _ _
        (λ e k. cc) (λ e. mark_entry-spent (kv_get (quote_key id) s.world.now s.quotes) _ q refl h)

module _ {D : Type 0} ⦃d : Decimal D⦄ (sv : FxService D) (tenant : String) where
  -- The rest of a conversion leaves the quotes as they are.
  abbrev Keeps : {A : Type 0} → Trading D A → Type 0
  Keeps m = (s : Market D) → (m s).1.quotes ≡ s.quotes

  check_quote-Keeps : (w : Wallet) (q : Quote D) → Keeps (check_quote sv tenant w q)
  unfolding check_quote
  check_quote-Keeps w q s = ground arith

  pay_with-Keeps :
      (wallet_id : String) (q : Quote D) (transfer : String → ℤ → Action D String)
      → Keeps (pay_with sv tenant wallet_id q transfer)
  unfolding pay_with
  pay_with-Keeps wallet_id q transfer s =
      let kept : Result String × Market D → Type 0 = λ p. p.1.quotes ≡ s.quotes in
      continue-holds kept (on_world (sv.find_wallet wallet_id) s) _ (λ e. refl)
        (λ w.
          if-holds kept (w.public_key == "") _ _ (on_world (sv.find_wallet wallet_id) s).1 refl (
            continue-holds kept
              (on_world (transfer w.public_key (sv.whole q.to_amount))
                (on_world (sv.find_wallet wallet_id) s).1)
              _ (λ e. refl) (λ hash. refl)))

  pay_out-Keeps : (wallet_id : String) (q : Quote D) → Keeps (pay_out sv tenant wallet_id q)
  unfolding pay_out
  pay_out-Keeps wallet_id q s = tried sv.transfer
    where
      tried :
          (o : Option (String → ℤ → Action D String))
          → (where_set o
              (λ transfer. catch (pay_with sv tenant wallet_id q transfer) (λ _. pure ""))
              ""
              s).1.quotes
            ≡ s.quotes
      tried none = refl
      tried (some transfer) =
          catch-holds (λ p. p.1.quotes ≡ s.quotes) (pay_with sv tenant wallet_id q transfer)
            (λ _. pure "") s (λ _. pay_with-Keeps wallet_id q transfer s)
            (λ _. pay_with-Keeps wallet_id q transfer s)

  bind-Keeps :
      {A B : Type 0} (m : Trading D A) (f : A → Trading D B)
      → Keeps m
      → ((a : A) → Keeps (f a))
      → Keeps (m >>= f)
  bind-Keeps m f h k s =
      continue-holds (λ p. p.1.quotes ≡ s.quotes) (m s) f (λ e. h s) (λ a. k a (m s).1 ∙ h s)

  create_conversion-Keeps : (c : Conversion D) → Keeps (create_conversion c)
  unfolding create_conversion
  create_conversion-Keeps c s = ground arith

  mark_quote_used-Keeps : (q c : String) → Keeps (mark_quote_used {D = D} q c)
  unfolding mark_quote_used
  mark_quote_used-Keeps q c s = ground arith

  logged-Keeps : (m : Trading D (Unit {0})) → Keeps m → Keeps (logged m)
  logged-Keeps m h s = h s

  when-Keeps : (b : Bool) (m : Trading D (Unit {0})) → Keeps m → Keeps (if b then m else pure tt)
  when-Keeps true m h s = h s
  when-Keeps false m h s = refl

  convert-Keeps : (wallet_id : String) (q : Quote D) → Keeps (convert sv tenant wallet_id q)
  unfolding convert
  convert-Keeps wallet_id q s =
      bind-Keeps (create_conversion _) _ (create_conversion-Keeps _)
        (λ _. bind-Keeps (pay_out sv tenant wallet_id q) _ (pay_out-Keeps wallet_id q) (λ hash.
          bind-Keeps (if sv.has_audit then logged (mark_quote_used q.id _) else pure tt) _
            (when-Keeps sv.has_audit _ (mark_quote_used-Keeps q.id _)) (λ _ t. refl)))
        (on_world (draw sv.uuid) s).1

  rest-Keeps :
      (w : Wallet) (wallet_id : String) (q : Quote D)
      → Keeps (check_quote sv tenant w q >> convert sv tenant wallet_id q)
  rest-Keeps w wallet_id q =
      bind-Keeps (check_quote sv tenant w q) _ (check_quote-Keeps w q)
        (λ _. convert-Keeps wallet_id q)

  -- What follows a claim keeps a spent quote spent.
  claimed-IsSpent :
      (id : String) (w : Wallet) (wallet_id : String) (p : Result (Quote D) × Market D)
      → IsSpent id p.1
      → IsSpent id (continue p (λ q. check_quote sv tenant w q >> convert sv tenant wallet_id q)).1
  claimed-IsSpent id w wallet_id p h =
      continue-holds (λ p. IsSpent id p.1) p _ (λ e. h) (λ q. rw (rest-Keeps w wallet_id q p.1) h)

  execute-IsSpent :
      (id wallet_id quote_id : String) (s : Market D)
      → IsSpent id s
      → IsSpent id (execute_conversion sv tenant wallet_id quote_id s).1
  unfolding execute_conversion
  execute-IsSpent id wallet_id quote_id s h =
      let s' = (on_world (sv.find_wallet wallet_id) s).1 in
      continue-holds (λ p. IsSpent id p.1) (on_world (sv.find_wallet wallet_id) s) _ (λ e. h)
        (λ w.
          claimed-IsSpent id w wallet_id (claim_quote quote_id s') (claim-IsSpent id quote_id s' h))

  claimed-spends :
      (id : String) (w : Wallet) (wallet_id : String) (c : Conversion D)
      (p : Result (Quote D) × Market D)
      → ((q : Quote D) → p.0 ≡ ok q → IsSpent id p.1)
      → (continue p (λ q. check_quote sv tenant w q >> convert sv tenant wallet_id q)).0 ≡ ok c
      → IsSpent id (continue p (λ q. check_quote sv tenant w q >> convert sv tenant wallet_id q)).1
  claimed-spends id w wallet_id c (ok q, s) spent h = rw (rest-Keeps w wallet_id q s) (spent q refl)
  claimed-spends id w wallet_id c (err e, s) spent h = cc

  execute-spends :
      (id wallet_id : String) (s : Market D) (c : Conversion D)
      → count (λ e. e.key == quote_key id) s.quotes ≤ 1
      → (execute_conversion sv tenant wallet_id id s).0 ≡ ok c
      → IsSpent id (execute_conversion sv tenant wallet_id id s).1
  unfolding execute_conversion
  execute-spends id wallet_id s c one =
      let s' = (on_world (sv.find_wallet wallet_id) s).1 in
      continue-holds (λ p. p.0 ≡ ok c → IsSpent id p.1) (on_world (sv.find_wallet wallet_id) s) _
        (λ e h. cc)
        (λ w.
          claimed-spends id w wallet_id c (claim_quote id s')
            (λ q won. claim-spends id s' q one won))

  -- What a conversion of a spent quote does: it fails, and makes and pays nothing.
  abbrev pub Refused : Market D → Result (Conversion D) × Market D → Type 0
  Refused s p =
      ((c : Conversion D) → p.0 ≢ ok c) × (p.1.conversions ≡ s.conversions) × (p.1.paid ≡ s.paid)

  claimed-Refused :
      (w : Wallet) (wallet_id : String) (s : Market D) (p : Result (Quote D) × Market D)
      → ((q : Quote D) → p.0 ≢ ok q)
      → p.1.conversions ≡ s.conversions
      → p.1.paid ≡ s.paid
      → Refused s (continue p (λ q. check_quote sv tenant w q >> convert sv tenant wallet_id q))
  claimed-Refused w wallet_id s (ok q, s') no_claim f g = absurd (no_claim q refl)
  claimed-Refused w wallet_id s (err e, s') no_claim f g = (λ c. cc, f, g)

  claim_quote-makes_none :
      (id : String) (s : Market D)
      → ((claim_quote id s).1.conversions ≡ s.conversions) × ((claim_quote id s).1.paid ≡ s.paid)
  unfolding claim_quote mark_entry
  claim_quote-makes_none id s = ground arith

  execute-Refused :
      (id wallet_id : String) (s : Market D)
      → IsSpent id s
      → Refused s (execute_conversion sv tenant wallet_id id s)
  unfolding execute_conversion
  execute-Refused id wallet_id s h =
      let s' = (on_world (sv.find_wallet wallet_id) s).1 in
      let none = claim_quote-makes_none id s' in
      continue-holds (Refused s) (on_world (sv.find_wallet wallet_id) s) _
        (λ e. (λ c. cc, refl, refl))
        (λ w.
          claimed-Refused w wallet_id s (claim_quote id s') (λ q. claim-spent id s' q h) none.0
            none.1)

  unfoldable pub happen : Event → Market D → Market D
  happen (execute wallet_id quote_id) s = (execute_conversion sv tenant wallet_id quote_id s).1
  happen (wait n) s = record s { world = record s.world { now = s.world.now + n } }

  unfoldable pub replay : List Event → Market D → Market D
  unfolding happen
  replay [] s = s
  replay (e ∷ es) s = replay es (happen e s)

  replay-IsSpent :
      (id : String) (es : List Event) (s : Market D) → IsSpent id s → IsSpent id (replay es s)
  unfolding replay
  replay-IsSpent id [] s h = h
  replay-IsSpent id (execute wallet_id quote_id ∷ es) s h =
      replay-IsSpent id es (execute_conversion sv tenant wallet_id quote_id s).1
        (execute-IsSpent id wallet_id quote_id s h)
  replay-IsSpent id (wait n ∷ es) s h =
      replay-IsSpent id es (record s { world = record s.world { now = s.world.now + n } }) h

  -- Once a quote under a key of its own was converted, every later conversion of it, into whatever
  -- wallet, fails, records no conversion and pays nothing, whatever conversions of whatever quotes
  -- and whatever waits come between.
  pub quote_once :
      (id wallet_id other_id : String) (es : List Event) (s : Market D) (c : Conversion D)
      → count (λ e. e.key == quote_key id) s.quotes ≤ 1
      → (execute_conversion sv tenant wallet_id id s).0 ≡ ok c
      → let s' = replay es (execute_conversion sv tenant wallet_id id s).1 in
        Refused s' (execute_conversion sv tenant other_id id s')
  quote_once id wallet_id other_id es s c one h =
      let s1 = (execute_conversion sv tenant wallet_id id s).1 in
      execute-Refused id other_id (replay es s1)
        (replay-IsSpent id es s1 (execute-spends id wallet_id s c one h))
