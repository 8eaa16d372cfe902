-- ===== src/Inbox/Delivery/Laws.antt =====
-- The projection does not depend on the order in which the facts arrive.
use mathlib.Core.List.{Perm, Permᴰ}
use mathlib.Core.Logic.{∥∥₁_elim}
use whats.Base.{◌≤◌, ◌≡◌, refl, ◌∙◌, ap, ◌⊎◌, true, List, [], ◌∷◌, arith}
use whats.Inbox.Delivery.{
  DeliveryState, unknown_conflict, Status, Scan, rank, scan_fact, scan, start, verdict,
  delivery_projection,
}

DeliveryState-set : IsSet DeliveryState
DeliveryState-set = hlevel

Scan-set : IsSet Scan
Scan-set = hlevel

scan_fact_comm :
    (s : Scan) (f g : Status) → scan_fact (scan_fact s f) g ≡ scan_fact (scan_fact s g) f
unfolding scan_fact
scan_fact_comm s f g = ground arith

scan-permᴰ : {fs gs : List Status} → Permᴰ fs gs → (s : Scan) → scan s fs ≡ scan s gs
unfolding scan
scan-permᴰ Permᴰ.nil s = refl
scan-permᴰ (Permᴰ.cons {a = f} {l₁ = fs} e p) s = rw (← e) (scan-permᴰ p (scan_fact s f))
scan-permᴰ (Permᴰ.swap {a = f} {b = g} {l = fs} e d) s =
    rw (← e, ← d) (ap (λ t. scan t fs) (scan_fact_comm s f g))
scan-permᴰ (Permᴰ.trans p q) s = scan-permᴰ p s ∙ scan-permᴰ q s

-- Facts in any order project to the same state.
pub delivery_projection-perm :
    (current : DeliveryState) (fs gs : List Status)
    → Perm fs gs
    → delivery_projection current fs ≡ delivery_projection current gs
unfolding delivery_projection
delivery_projection-perm current fs gs p =
    ∥∥₁_elim p (DeliveryState-set _ _) (λ q. ap verdict (scan-permᴰ q (start current)))

-- One scan covers another if it has seen as much.
pub record Covered (s t : Scan) : Type 0 where
  pub lower : rank s.best ≤ rank t.best
  pub failed : s.failed ≡ true → t.failed ≡ true
  pub unknown : s.unknown ≡ true → t.unknown ≡ true

pub scan_fact-Covered : (s : Scan) (f : Status) → Covered s (scan_fact s f)
unfolding scan_fact
scan_fact-Covered s f = ground arith

pub scan-Covered : (s : Scan) (fs : List Status) → Covered s (scan s fs)
unfolding scan
scan-Covered s [] = record { lower = omega arith; failed = λ h. h; unknown = λ h. h }
scan-Covered s (f ∷ fs) = ground (arith, scan_fact-Covered s f, scan-Covered (scan_fact s f) fs)

-- A projection that is neither failed nor in conflict has no lower rank than the state it starts
-- from.
pub delivery_projection_mono :
    (current : DeliveryState) (fs : List Status)
    → (delivery_projection current fs ≡ DeliveryState.failed)
      ⊎ (delivery_projection current fs ≡ unknown_conflict)
      ⊎ (rank current ≤ rank (delivery_projection current fs))
unfolding delivery_projection start verdict rank
delivery_projection_mono current fs = ground (arith, (scan-Covered (start current) fs).lower)
