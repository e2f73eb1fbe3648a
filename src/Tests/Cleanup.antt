-- ===== src/Tests/Cleanup.antt =====
-- A clean-up of the shop, with its invoice cancelled.
use ethpayserver.Base.{arith, ◌≡◌, refl, none, some, [], ◌∷◌, false}
use ethpayserver.Database.Rows.{cancelled, World, unwatch}
use ethpayserver.Database.Monad.{ok, call, notify}
use ethpayserver.Database.Settings.{is_watch_of}
use ethpayserver.Cleanup.Watched.{joined, select_rows, is_past_grace, was_cancelled}
use ethpayserver.Cleanup.Addresses.{
  Reading, CleanupConfig, cleanup_expired_addresses, cleanup_cancelled_addresses, cleanup_addresses,
}
use ethpayserver.Cleanup.Due.{IsClean}
use ethpayserver.Cleanup.Complete.{Few}
use ethpayserver.Cleanup.Cleared.{IsPast, IsClear, cleanup_clears}
use ethpayserver.Cleanup.Kept.{cleanup_addresses-IsClean}
use ethpayserver.Tests.Fixed.{count}
use ethpayserver.Tests.Shop.{coffee, watch, shop}

abbrev config : CleanupConfig
config = record { unwatch_grace_period_secs = 300; paid_unwatch_grace_period_secs = 1800 }

abbrev reading : Reading
reading = record { parse_address = count; evm_chain_id = some }

abbrev closed : World
closed = record shop { invoices = (1, record coffee { status = cancelled }) ∷ [] }

closed_unwatches : (cleanup_addresses config reading closed).1.sent ≡ unwatch 8453 4 none ∷ []
unfolding cleanup_addresses call notify is_watch_of
closed_unwatches = refl

closed_counts :
    (cleanup_addresses config reading closed).0
    ≡ ok (record { expired_count = 0; paid_count = 0; cancelled_count = 1 })
unfolding cleanup_addresses call notify is_watch_of
closed_counts = refl

closed_ends :
    (cleanup_addresses config reading closed).1.watches ≡ record watch { is_active = false } ∷ []
unfolding cleanup_addresses call notify is_watch_of
closed_ends = refl

cleanup_addresses-IsClean_example :
    IsClean config reading closed (cleanup_addresses config reading closed).1
cleanup_addresses-IsClean_example = cleanup_addresses-IsClean config reading closed

closed-Few_expired : Few (is_past_grace 300 200) closed
unfolding select_rows joined
closed-Few_expired = omega arith

closed-Few_cancelled : Few was_cancelled closed
unfolding select_rows joined
closed-Few_cancelled = omega arith

cleanup_clears_example :
    IsClear reading (IsPast config 200) (cleanup_expired_addresses config reading closed).1
    × IsClear reading
        (λ inv. inv.status ≡ cancelled)
        (cleanup_cancelled_addresses config reading closed).1
cleanup_clears_example =
    cleanup_clears config reading closed (λ n. refl) closed-Few_expired closed-Few_cancelled
