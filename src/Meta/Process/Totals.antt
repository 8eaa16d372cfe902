-- ===== src/Meta/Process/Totals.antt =====
-- Counting the attempts that the waiting events have left.
use whats.Base.{
  ◌≡◌, refl, sym, ap, ◌∙◌, inl, inr, ◌-◌, ◌+◌, ℕ, Bool, true, false, not, ◌&&◌, List, [], ◌∷◌, some,
  arith, Bool-cases, any, find, ◌==◌, nat_eq, nat_beq_iff, if◌then◌else◌,
}
use whats.Inbox.Store.{Uuid, update_where}
use whats.Inbox.Store.Updates.{any-update_where}
use whats.Meta.Events.{EventState, queued, processing, retry_wait, WebhookEvent}

abbrev pub is_waiting : EventState → Bool
is_waiting state = elim state [ queued ↦ true | processing ↦ true | retry_wait ↦ true | _ ↦ false ]

-- How many more times an event can be processed, at most.
unfoldable pub budget : WebhookEvent → ℕ
budget e = if is_waiting e.state then 1 + (8 - e.attempt_count) else 0

abbrev pub total : List WebhookEvent → ℕ
total [] = 0
total (e ∷ es) = budget e + total es

abbrev pub has_event : Uuid → List WebhookEvent → Bool
has_event id es = any (λ e. e.id == id) es

abbrev pub ids_differ : List WebhookEvent → Bool
ids_differ [] = true
ids_differ (e ∷ es) = not (has_event e.id es) && ids_differ es

update-absent :
    (id : Uuid) (f : WebhookEvent → WebhookEvent) (es : List WebhookEvent)
    → has_event id es ≡ false
    → total (update_where (λ x. x.id == id) f es) ≡ total es
update-absent id f [] h = refl
update-absent id f (e ∷ es) h = ground (arith, update-absent id f es (ground arith))

pub find-has_event :
    (test : WebhookEvent → Bool) (es : List WebhookEvent) {e : WebhookEvent}
    → find test es ≡ some e
    → has_event e.id es ≡ true
find-has_event test [] h = absurd (ground arith)
find-has_event test (x ∷ xs) {e} h = elim (Bool-cases (test x)) [
  | inl hit ↦ let same : x ≡ e = ground arith in ground (arith, nat_beq_iff x.id e.id)
  | inr miss ↦ ground (arith, find-has_event test xs {e = e} (ground arith))
]

-- Changing the one event that is found changes the total by the change of its budget.
pub total-update_where :
    (test : WebhookEvent → Bool) (f : WebhookEvent → WebhookEvent) (es : List WebhookEvent)
    {e : WebhookEvent}
    → ids_differ es ≡ true
    → find test es ≡ some e
    → total (update_where (λ x. x.id == e.id) f es) + budget e ≡ total es + budget (f e)
total-update_where test f [] d h = absurd (ground arith)
total-update_where test f (x ∷ xs) {e} d h = elim (Bool-cases (test x)) [
  | inl hit ↦
      let same : x ≡ e = ground arith in
      let self : (x.id == e.id) ≡ true = ground (arith, nat_beq_iff x.id e.id) in
      let mine : has_event x.id xs ≡ false = ground arith in
      let absent : has_event e.id xs ≡ false = ap (λ y. has_event y.id xs) (sym same) ∙ mine in
      let before = ap budget same in
      let after = ap (λ y. budget (f y)) same in
      ground (arith, self, update-absent e.id f xs absent, before, after)
  | inr miss ↦
      let later : find test xs ≡ some e = ground arith in
      let there = find-has_event test xs later in
      let other : (x.id == e.id) ≡ false = ground (arith, nat_beq_iff x.id e.id) in
      ground (arith, other, total-update_where test f xs (ground arith) later)
]

pub ids_differ-update_where :
    (id : Uuid) (f : WebhookEvent → WebhookEvent) (es : List WebhookEvent)
    → ((e : WebhookEvent) → (f e).id ≡ e.id)
    → ids_differ (update_where (λ x. x.id == id) f es) ≡ ids_differ es
ids_differ-update_where id f [] keep = refl
ids_differ-update_where id f (e ∷ es) keep =
    let fresh : (x : Uuid) → has_event x (update_where (λ y. y.id == id) f es) ≡ has_event x es =
      λ x.
        any-update_where (λ y. y.id == x) (λ y. y.id == id) f es (λ y. ap (λ z. z == x) (keep y)) in
    let rest = ids_differ-update_where id f es keep in
    elim (Bool-cases (e.id == id)) [
      | inl hit ↦ rw (hit, keep e, fresh e.id, rest) refl
      | inr miss ↦ rw (miss, fresh e.id, rest) refl
    ]

-- The row that is changed is the one that is found there afterwards.
pub find-updated :
    (test : WebhookEvent → Bool) (f : WebhookEvent → WebhookEvent) (es : List WebhookEvent)
    {e : WebhookEvent}
    → ((x : WebhookEvent) → (f x).id ≡ x.id)
    → find test es ≡ some e
    → ids_differ es ≡ true
    → find (λ x. x.id == e.id) (update_where (λ x. x.id == e.id) f es) ≡ some (f e)
find-updated test f [] keep h d = absurd (ground arith)
find-updated test f (x ∷ xs) {e} keep h d = elim (Bool-cases (test x)) [
  | inl hit ↦
      let same : x ≡ e = ground arith in
      let self : (x.id == e.id) ≡ true = ground (arith, nat_beq_iff x.id e.id) in
      let kept : ((f x).id == e.id) ≡ true = ap (λ z. z == e.id) (keep x) ∙ self in
      let after : f x ≡ f e = ap f same in rw (self, kept, after) refl
  | inr miss ↦
      let later : find test xs ≡ some e = ground arith in
      let there = find-has_event test xs later in
      let other : (x.id == e.id) ≡ false = ground (arith, nat_beq_iff x.id e.id) in
      rw (other, other) (find-updated test f xs keep later (ground arith))
]
