-- ===== src/Inbox/Evaluation/Laws.antt =====
-- When the method `evaluate` of backend/internal/inbox/guard.go allows a message, and for how long.
use whats.Base.{◌+◌, ◌*◌, ◌≤◌, ◌<◌, ◌≡◌, ◌↔◌, true, some, arith}
use whats.Inbox.Time.{Time, second}
use whats.Inbox.Guard.Laws.{IsAdmissible, evaluate-allowed_iff}
use whats.Inbox.Store.{Uuid, Db}
use whats.Inbox.Evaluation.{
  Session, Access, LiveConfig, Conversation, SendInput, current_policy, policy_to, policy_review,
  evaluate_scope, guard_input, sender_binding,
}

module _ (access : Access) (live : LiveConfig) (db : Db) (v : Session) (member : Uuid)
    (c : Conversation) (input : SendInput) where
  pub evaluate_scope-allowed_iff :
      (now : Time)
      → ((evaluate_scope access live db now v member c input).allowed ≡ true) ↔ (
          IsAdmissible (guard_input access live db now v member c input)
          × (sender_binding live db c ≡ true))
  unfolding evaluate_scope
  evaluate_scope-allowed_iff now =
      let i = guard_input access live db now v member c input in
      (
        λ h. ((evaluate-allowed_iff i).0 (ground arith), ground arith),
        λ (admissible, bound).
            let allowed = (evaluate-allowed_iff i).1 admissible in ground (arith, allowed, bound),
      )

  IsAdmissible-later :
      (now again window : Time)
      → IsAdmissible (guard_input access live db now v member c input)
      → c.window_expires_at ≡ some window
      → now ≤ again
      → again + 5 * second < window
      → again < policy_review (current_policy db.policies)
      → again + live.delivery_bound < policy_to (current_policy db.policies)
      → IsAdmissible (guard_input access live db again v member c input)
  unfolding guard_input
  IsAdmissible-later now again window a known forth before reviewed covered =
      let s = a.scope in
      let t = a.service_text in
      let p = a.policy in
      record {
        scope = record {
          authorized = s.authorized;
          enabled = s.enabled;
          not_suppressed = s.not_suppressed;
          same_assignment = s.same_assignment;
          not_bot = s.not_bot;
        };
        service_text = record { text = t.text; service = t.service };
        window = record {
          trusted = a.window.trusted;
          expiry = window;
          known = known;
          stays_open = before;
        };
        policy = record {
          policy_starts = p.policy_starts;
          started = ground (arith, p.started);
          reviewed = reviewed;
          latest = again + live.delivery_bound;
          horizon = ground (arith, p.horizon);
          forward = omega arith;
          covered = covered;
        };
      }

  -- A message that is allowed stays so while the window is open for more than five seconds and the
  -- policy is reviewed and prices the delivery.
  pub evaluate_scope-later :
      (now again window : Time)
      → (evaluate_scope access live db now v member c input).allowed ≡ true
      → c.window_expires_at ≡ some window
      → now ≤ again
      → again + 5 * second < window
      → again < policy_review (current_policy db.policies)
      → again + live.delivery_bound < policy_to (current_policy db.policies)
      → (evaluate_scope access live db again v member c input).allowed ≡ true
  evaluate_scope-later now again window allowed known forth before reviewed covered =
      let (admissible, bound) = (evaluate_scope-allowed_iff now).0 allowed in
      (evaluate_scope-allowed_iff again).1
        (IsAdmissible-later now again window admissible known forth before reviewed covered, bound)
