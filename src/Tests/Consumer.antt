-- ===== src/Tests/Consumer.antt =====
-- Runs of the event consumer.
use ethpayserver.Base.{ℕ, ◌≡◌, refl, none, some, List, [], ◌∷◌}
use ethpayserver.Event.{MonitorEvent}
use ethpayserver.Outbox.{EventEnvelope}
use ethpayserver.Database.Payments.Received.{IsReceived}
use ethpayserver.Consumer.Resume.{handle_event, consume}
use ethpayserver.Consumer.Resume.Exact.{IsExact, consume-IsExact}
use ethpayserver.Consumer.Invariants.Cursors.{handle_event-cursors}
use ethpayserver.Consumer.Invariants.Received.{handle_event-IsReceived}
use ethpayserver.Tests.Fixed.{fixed}
use ethpayserver.Tests.Shop.{
  services, operator, shop, failing, failing-IsReceived, detected, confirmed,
}

abbrev envelope : ℕ → MonitorEvent → EventEnvelope
envelope n e = record {
  chain_id = 8453;
  cursor = record { epoch = 7; seq = n; block_height = 90 };
  event = e;
}

abbrev stream : List EventEnvelope
stream = envelope 4 detected ∷ envelope 5 confirmed ∷ envelope 6 confirmed ∷ []

consume-IsExact_example :
    IsExact
      (handle_event fixed services none)
      operator
      7
      (handle_event-cursors fixed services none)
      4
      []
      stream
      (consume (handle_event fixed services none) operator 7 stream [] shop)
consume-IsExact_example =
    consume-IsExact (handle_event fixed services none) operator 7
      (handle_event-cursors fixed services none) 4 7 stream [] shop (refl, (refl, (refl, refl)))
      refl tt

handle_event-cursors_example :
    (handle_event fixed services (some services) confirmed failing).1.cursors ≡ failing.cursors
handle_event-cursors_example = handle_event-cursors fixed services (some services) confirmed failing

handle_event-IsReceived_example :
    IsReceived fixed (handle_event fixed services none detected failing).1
handle_event-IsReceived_example =
    handle_event-IsReceived fixed services none detected failing failing-IsReceived
