-- ===== src/EventItems/Tests.antt =====
-- The theorems on shared lists applied to a small database
-- (backend/src/event-items/event-items.service.ts).
use event_now.Prelude.{◌≡◌, false, refl, arith}
use event_now.Prelude.Outcome.{final}
use event_now.EventItems.{claim_item}
use event_now.EventItems.Claims.{claim_item-keeps}
use event_now.Tests.{shared, bread}

claim_item-keeps_example :
    (final (claim_item (λ a b. false) 9 0 0 shared)).event_item ≡ shared.event_item
claim_item-keeps_example =
    claim_item-keeps (λ a b. false) 9 0 0 7 bread shared refl refl refl (omega arith)
