-- ===== src/Meta/Snapshot/Observed.antt =====
-- The phones of a snapshot are different ones.
use whats.Base.{
  ◌≡◌, refl, inl, inr, Bool, true, not, ◌&&◌, ◌||◌, List, [], ◌∷◌, Option, none, some, ok, arith,
  Bool-cases, >>=-eq-ok, any, ◌==◌, nat_eq, list_eq,
}
use whats.Inbox.Text.{Text}
use whats.Meta.Send.{is_numeric_id}
use whats.Meta.Snapshot.{GraphPhone, Fields, Network, profile_of, phone_loop}

-- Each phone has a numeric identifier that is none of those seen before it.
abbrev pub all_new : List Text → List (GraphPhone × Fields) → Bool
all_new seen [] = true
all_new seen (p ∷ ps) =
    is_numeric_id p.0.id && not (any (λ s. s == p.0.id) seen) && all_new (p.0.id ∷ seen) ps

pub phone_loop-all_new :
    (version : Text) (net : Network) (seen : List Text) (items : List (Option GraphPhone))
    {observed : List (GraphPhone × Fields)}
    → phone_loop version net seen items ≡ ok observed
    → all_new seen observed ≡ true
unfolding phone_loop
phone_loop-all_new version net seen [] {observed} h =
    let same : observed ≡ [] = ground arith in rw same refl
phone_loop-all_new version net seen (none ∷ ps) h = absurd (ground arith)
phone_loop-all_new version net seen (some p ∷ ps) {observed} h =
    elim (Bool-cases (not (is_numeric_id p.id) || any (λ s. s == p.id) seen)) [
      | inl refused ↦ absurd (ground arith)
      | inr fine ↦
          let (fields, first, h1) = >>=-eq-ok (profile_of version net p.id) _ (rw fine at h) in
          let (rest, later, h2) = >>=-eq-ok (phone_loop version net (p.id ∷ seen) ps) _ h1 in
          let same : observed ≡ (p, fields) ∷ rest = ground arith in
          let new = phone_loop-all_new version net (p.id ∷ seen) ps later in
          rw same (ground (arith, fine, new))
    ]
