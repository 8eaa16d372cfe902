-- ===== src/Meta/Graph/Pages.antt =====
-- Following pages comes to an end, whatever Meta answers.
use whats.Base.{
  ◌≡◌, refl, ap, ◌∙◌, inl, inr, ◌⊎◌, ◌≤◌, ◌+◌, ℕ, zero, suc, Bool, true, false, not, ◌&&◌, List, [],
  ◌∷◌, Option, Result, ok, arith, length, nat_eq, list_eq,
}
use whats.Inbox.Text.{Text}
use whats.Meta.Graph.{
  Exchange, GraphError, Page, Paged, page_loop, pages, is_seen, Turn, turn, stops, follows,
}

abbrev pub cursors_differ : List Text → Bool
cursors_differ [] = true
cursors_differ (c ∷ cs) = not (is_seen c cs) && cursors_differ cs

-- The cursors differ, so no page is asked for twice; there are at most as many requests as given, and
-- a result holds at most 10000 items.
pub record IsBounded {A : Type 0} (limit : ℕ) (p : Paged A) : Type 0 where
  pub is_short : length p.0 ≤ limit
  pub is_distinct : cursors_differ p.0 ≡ true
  pub is_small : (items : List A) → p.1 ≡ ok items → length items ≤ 10000

Turn-cases :
    {A : Type 0} (m : Turn A)
    → ((r : Result GraphError (List A)) × (m ≡ stops r))
      ⊎ ((c : Text) × (out : List A) × (m ≡ follows c out))
Turn-cases (stops r) = inl (r, refl)
Turn-cases (follows c out) = inr (c, out, refl)

module _ {A : Type 0} (version path : Text) (fetch : ℕ → Text → Exchange (Option (Page A))) where
  turn-small :
      (page : ℕ) (seen : List Text) (cursor : Text) (out items : List A)
      → turn version path fetch page seen cursor out ≡ stops (ok items)
      → length items ≤ 10000
  unfolding turn
  turn-small page seen cursor out items h = ground arith

  turn-fresh :
      (page : ℕ) (seen : List Text) (cursor c : Text) (out out' : List A)
      → turn version path fetch page seen cursor out ≡ follows c out'
      → is_seen c seen ≡ false
  unfolding turn
  turn-fresh page seen cursor c out out' h = ground arith

  page_loop-IsBounded :
      (left page : ℕ) (seen : List Text) (cursor : Text) (out : List A)
      → is_seen cursor seen ≡ false
      → cursors_differ seen ≡ true
      → IsBounded (left + length seen) (page_loop version path fetch left page seen cursor out)
  unfolding page_loop
  page_loop-IsBounded zero page seen cursor out fresh distinct = record {
    is_short = ground arith;
    is_distinct = distinct;
    is_small = λ items h. absurd (ground arith);
  }
  page_loop-IsBounded (suc left) page seen cursor out fresh distinct =
      let both : cursors_differ (cursor ∷ seen) ≡ true = ground arith in
      elim (Turn-cases (turn version path fetch page (cursor ∷ seen) cursor out)) [
        | inl (r, ended) ↦
            rw (page_loop, ended)
              (record {
                is_short = ground arith;
                is_distinct = both;
                is_small = λ items h.
                    turn-small page (cursor ∷ seen) cursor out items (ended ∙ ap stops h);
              })
        | inr (c, out', followed) ↦
            let new = turn-fresh page (cursor ∷ seen) cursor c out out' followed in
            let rest = page_loop-IsBounded left (page + 1) (cursor ∷ seen) c out' new both in
            rw (page_loop, followed)
              (record {
                is_short = ground (arith, rest.is_short);
                is_distinct = rest.is_distinct;
                is_small = rest.is_small;
              })
      ]

  -- Whatever the network answers, following pages makes at most a hundred requests, no two with
  -- the same cursor, and a result holds at most ten thousand items.
  pub pages-IsBounded : IsBounded 100 (pages version path fetch)
  unfolding pages
  pages-IsBounded = page_loop-IsBounded 100 0 [] [] [] refl refl
