-- ===== src/Examples/Delivering.antt =====
-- Status facts in several orders.
use mathlib.Core.List.{Permᴰ}
use whats.Base.{◌≤◌, ◌≡◌, refl, ◌⊎◌, [], ◌∷◌, ◌++◌}
use whats.Inbox.Delivery.{
  DeliveryState, unknown_conflict, Status, rank, fact_rank, fact_state, scan_fact, scan, start,
  verdict, delivery_projection,
}
use whats.Inbox.Delivery.Laws.{delivery_projection-perm, delivery_projection_mono}
use whats.Inbox.Delivery.Replay.{delivery_projection-replay}

-- A failure after the message was read is a conflict.
late_failure :
    delivery_projection DeliveryState.accepted (Status.read ∷ Status.failed ∷ []) ≡ unknown_conflict
unfolding delivery_projection scan scan_fact start verdict rank fact_rank fact_state
late_failure = refl

delivery_projection-perm_example :
    delivery_projection DeliveryState.accepted (Status.read ∷ Status.sent ∷ [])
    ≡ delivery_projection DeliveryState.accepted (Status.sent ∷ Status.read ∷ [])
delivery_projection-perm_example =
    delivery_projection-perm DeliveryState.accepted (Status.read ∷ Status.sent ∷ [])
      (Status.sent ∷ Status.read ∷ []) ∣ Permᴰ.swap refl refl ∣₁

delivery_projection_mono_example :
    (delivery_projection DeliveryState.read (Status.sent ∷ []) ≡ DeliveryState.failed)
    ⊎ (delivery_projection DeliveryState.read (Status.sent ∷ []) ≡ unknown_conflict)
    ⊎ (rank DeliveryState.read ≤ rank (delivery_projection DeliveryState.read (Status.sent ∷ [])))
delivery_projection_mono_example = delivery_projection_mono DeliveryState.read (Status.sent ∷ [])

delivery_projection-replay_example :
    delivery_projection
      (delivery_projection DeliveryState.accepted (Status.delivered ∷ []))
      ((Status.delivered ∷ []) ++ (Status.failed ∷ []))
    ≡ delivery_projection DeliveryState.accepted ((Status.delivered ∷ []) ++ (Status.failed ∷ []))
delivery_projection-replay_example =
    delivery_projection-replay DeliveryState.accepted (Status.delivered ∷ []) (Status.failed ∷ [])
