-- ===== src/Core/EventBus/Tests.antt =====
-- A run of the event bus.
use bbs.Prelude.{ℕ, ◌≡◌, List, [], ◌∷◌, nat_eq}
use bbs.Text.{codes}
use bbs.Core.EventBus.{targets}
use bbs.Core.EventBus.Spec.{
  Call, subscribes, unsubscribes, after, standing, heard_as, count, targets-standing,
}

abbrev calls : List (Call ℕ)
calls =
    subscribes (codes "session.connected") 7
    ∷ unsubscribes (codes "chat") 7
    ∷ subscribes (codes "session") 7
    ∷ []

targets-standing_example :
    count {C = ℕ} 7 (targets (after calls) (codes "session.connected"))
    ≡ standing calls 7 (heard_as (codes "session.connected"))
targets-standing_example = targets-standing calls (codes "session.connected") 7
