-- ===== src/Inbox/Store/Updates.antt =====
-- What an update of some rows of a table leaves as it was.
use whats.Base.{◌≡◌, refl, inl, inr, Bool, List, [], ◌∷◌, Bool-cases, any}
use whats.Inbox.Store.{update_where}

-- An update that keeps a test keeps whether some row passes it.
pub any-update_where :
    {A : Type 0} (p test : A → Bool) (f : A → A) (xs : List A)
    → ((x : A) → p (f x) ≡ p x)
    → any p (update_where test f xs) ≡ any p xs
any-update_where p test f [] same = refl
any-update_where p test f (x ∷ xs) same = elim (Bool-cases (test x)) [
  | inl hit ↦ rw (hit, same x, any-update_where p test f xs same) refl
  | inr miss ↦ rw (miss, any-update_where p test f xs same) refl
]
