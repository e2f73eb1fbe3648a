-- ===== src/Cleanup/Due.antt =====
-- Which watches the clean-up ends: server/src/services/invoice_cleanup.rs.
use ethpayserver.Base.{
  All, ◌+◌, ◌<◌, sym, ap, ◌∙◌, Any, ℕ, ◌≡◌, refl, ◌⊎◌, Bool, true, false, ◌&&◌, ◌==◌, ==_iff,
  Bool-cases, inl, inr, Option, none, some, List, [], ◌∷◌, ◌++◌, map, any,
}
use ethpayserver.Base.Dict.{get}
use ethpayserver.Database.Rows.{
  InvoiceData, WatchRow, World, Notice, unwatch, expired, paid, cancelled,
}
use ethpayserver.Base.Text.{eq_ignore_case}
use ethpayserver.Database.Settings.{same_token, is_watch_of}
use ethpayserver.Webhook.Calls.{or-right, or_mono}
use ethpayserver.Cleanup.Watched.{CleanupAddressInfo, deactivate_row}
use ethpayserver.Cleanup.Selected.{IsOwned}
use ethpayserver.Cleanup.Addresses.{Reading, CleanupConfig, parse_token}
use ethpayserver.Cleanup.Overdue.{IsOverdue}

-- The invoice of its watch has been expired for longer than the grace period, is paid with every
-- payment unconfirmed or confirmed before both the configured period and that of its chain, or is
-- cancelled.
pub data IsDue (config : CleanupConfig) (x : Reading) (w : World) (info : CleanupAddressInfo)
    : Type 0 where
  past_grace :
      (inv : InvoiceData)
      → IsOwned w info inv
      → inv.status ≡ expired
      → inv.expires_at + config.unwatch_grace_period_secs < w.now
      → IsDue config x w info
  settled :
      (inv : InvoiceData)
      → IsOwned w info inv
      → inv.status ≡ paid
      → All (IsOverdue config x w.now info.invoice_id) w.payments
      → IsDue config x w info
  called_off :
      (inv : InvoiceData) → IsOwned w info inv → inv.status ≡ cancelled → IsDue config x w info

abbrev eq_token : Option ℕ → Option ℕ → Bool
eq_token none none = true
eq_token (some a) (some b) = a == b
eq_token none (some b) = false
eq_token (some a) none = false

abbrev pub is_command : ℕ → ℕ → Option ℕ → Notice → Bool
is_command chain_id addr token (unwatch c a t) = c == chain_id && a == addr && eq_token t token
is_command chain_id addr token _ = false

eq_token_refl : (token : Option ℕ) → eq_token token token ≡ true
eq_token_refl none = refl
eq_token_refl (some a) = (==_iff a a).1 refl

pub command-own :
    (chain_id addr : ℕ) (token : Option ℕ)
    → is_command chain_id addr token (unwatch chain_id addr token) ≡ true
command-own chain_id addr token =
    rw ((==_iff chain_id chain_id).1 refl, (==_iff addr addr).1 refl, eq_token_refl token) refl

-- An ended watch is no watch of any address.
pub ended-no-watch :
    (info : CleanupAddressInfo) (r : WatchRow)
    → is_watch_of info.address info.chain_id info.token_address (record r { is_active = false })
      ≡ false
unfolding is_watch_of
ended-no-watch info r =
    and-no (eq_ignore_case r.address info.address) (r.chain_id == info.chain_id)
      (same_token r.token_address info.token_address)
  where
    and-no : (a b c : Bool) → (a && b && c && false) ≡ false
    and-no true true true = refl
    and-no true true false = refl
    and-no true false c = refl
    and-no false b c = refl

module _ (config : CleanupConfig) (x : Reading) (w0 : World) where
  -- The monitor was told to stop watching the address.
  abbrev pub IsTold : List Notice → CleanupAddressInfo → Type 0
  IsTold sent info =
      (addr : ℕ) × (eip155 : ℕ) × (x.parse_address info.address ≡ some addr)
      × (x.evm_chain_id info.chain_id ≡ some eip155)
      × (any (is_command eip155 addr (parse_token config x info.token_address)) sent ≡ true)

  -- A watch stays, or it ends for an address that is due, behind the command to the monitor.
  abbrev pub Ends : List Notice → WatchRow → WatchRow → Type 0
  Ends sent r r' =
      (r' ≡ r)
      ⊎ ((r' ≡ record r { is_active = false })
          × ((info : CleanupAddressInfo) × IsDue config x w0 info
              × (is_watch_of info.address info.chain_id info.token_address r ≡ true)
              × IsTold sent info))

  abbrev pub Pairs : List Notice → List WatchRow → List WatchRow → Type 0
  Pairs sent [] [] = Unit
  Pairs sent (r ∷ rows) (r' ∷ rows') = Ends sent r r' × Pairs sent rows rows'
  Pairs sent [] (r' ∷ rows') = ⊥
  Pairs sent (r ∷ rows) [] = ⊥

  pub record IsClean (w : World) : Type 0 where
    pub invoices : w.invoices ≡ w0.invoices
    pub payments : w.payments ≡ w0.payments
    pub now : w.now ≡ w0.now
    pub options : w.options ≡ w0.options
    pub watches : Pairs w.sent w0.watches w.watches

  any-append :
      (p : Notice → Bool) (sent : List Notice) (n : Notice)
      → any p sent ≡ true
      → any p (sent ++ n ∷ []) ≡ true
  any-append p [] n h = cc h
  any-append p (m ∷ sent) n h =
      or_mono (p m) (any p sent) (any p (sent ++ n ∷ [])) (any-append p sent n) h

  pub any-last :
      (p : Notice → Bool) (sent : List Notice) (n : Notice)
      → p n ≡ true
      → any p (sent ++ n ∷ []) ≡ true
  any-last p [] n h = rw h refl
  any-last p (m ∷ sent) n h = or-right (p m) (any p (sent ++ n ∷ [])) (any-last p sent n h)

  grow-Ends :
      (sent : List Notice) (n : Notice) (r r' : WatchRow)
      → Ends sent r r'
      → Ends (sent ++ n ∷ []) r r'
  grow-Ends sent n r r' (inl same) = inl same
  grow-Ends sent n r r' (inr (ended, (info, due, match, (addr, eip155, parsed, evm, told)))) =
      inr (ended, (info, due, match, (addr, eip155, parsed, evm, any-append _ sent n told)))

  pub grow-Pairs :
      (sent : List Notice) (n : Notice) (rows rows' : List WatchRow)
      → Pairs sent rows rows'
      → Pairs (sent ++ n ∷ []) rows rows'
  grow-Pairs sent n [] [] h = tt
  grow-Pairs sent n (r ∷ rows) (r' ∷ rows') h =
      (grow-Ends sent n r r' h.0, grow-Pairs sent n rows rows' h.1)
  grow-Pairs sent n [] (r' ∷ rows') h = h
  grow-Pairs sent n (r ∷ rows) [] h = h

  -- A watch that is active now was there before.
  Ends-active :
      (sent : List Notice) (r r' q : WatchRow)
      → Ends sent r r'
      → r' ≡ q
      → q.is_active ≡ true
      → r ≡ q
  Ends-active sent r r' q (inl same) here active = sym same ∙ here
  Ends-active sent r r' q (inr (ended, reason)) here active =
      cc (ap (λ v. v.is_active) ended, ap (λ v. v.is_active) here, active)

  Pairs-Any :
      (sent : List Notice) (rows rows' : List WatchRow) (q : WatchRow)
      → Pairs sent rows rows'
      → Any (λ v. v ≡ q) rows'
      → q.is_active ≡ true
      → Any (λ v. v ≡ q) rows
  Pairs-Any sent [] [] q h there active = there
  Pairs-Any sent (r ∷ rows) (r' ∷ rows') q h (inl here) active =
      inl (Ends-active sent r r' q h.0 here active)
  Pairs-Any sent (r ∷ rows) (r' ∷ rows') q h (inr there) active =
      inr (Pairs-Any sent rows rows' q h.1 there active)
  Pairs-Any sent [] (r' ∷ rows') q h there active = absurd h
  Pairs-Any sent (r ∷ rows) [] q h there active = absurd h

  -- Whose a watch is now, its it was before.
  pub own-before :
      (w : World) (info : CleanupAddressInfo) (inv : InvoiceData)
      → IsClean w
      → IsOwned w info inv
      → IsOwned w0 info inv
  own-before w info inv h own = record {
    watch = own.watch;
    there = Pairs-Any w.sent w0.watches w.watches own.watch h.watches own.there own.active;
    active = own.active;
    address = own.address;
    chain_id = own.chain_id;
    token_address = own.token_address;
    option = own.option;
    found = ap (get own.watch.payment_option_id) (sym h.options) ∙ own.found;
    invoice_id = own.invoice_id;
    invoice = ap (get own.option.invoice_id) (sym h.invoices) ∙ own.invoice;
  }

  module _ (info : CleanupAddressInfo) (due : IsDue config x w0 info) (sent : List Notice)
      (told : IsTold sent info) where
    abbrev ended : WatchRow → WatchRow
    ended = deactivate_row info.address info.chain_id info.token_address

    end-same : (r : WatchRow) → Ends sent r (ended r)
    unfolding deactivate_row
    end-same r = elim (Bool-cases (is_watch_of info.address info.chain_id info.token_address r)) [
      | inl match ↦ simp match (inr (refl, (info, due, match, told)))
      | inr other ↦ simp other (inl refl)
    ]

    end-Ends : (r r' : WatchRow) → Ends sent r r' → Ends sent r (ended r')
    unfolding deactivate_row
    end-Ends r r' (inl same) = rw same (end-same r)
    end-Ends r r' (inr (gone, reason)) = rw gone (simp (ended-no-watch info r) (inr (refl, reason)))

    pub end-Pairs :
        (rows rows' : List WatchRow) → Pairs sent rows rows' → Pairs sent rows (map ended rows')
    end-Pairs [] [] h = tt
    end-Pairs (r ∷ rows) (r' ∷ rows') h = (end-Ends r r' h.0, end-Pairs rows rows' h.1)
    end-Pairs [] (r' ∷ rows') h = h
    end-Pairs (r ∷ rows) [] h = h
