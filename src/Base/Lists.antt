-- ===== src/Base/Lists.antt =====
-- Lists by Boolean tests and native numbers, and membership by recursion.
use Prim.Native.Nat.{ℕ, suc, ◌+◌, ◌≤◌}
use mathlib.Core.Path.{◌≡◌, refl, sym, ap, ◌∙◌}
use mathlib.Core.Logic.{◌⊎◌, inl, inr}
use mathlib.Core.Bool.{Bool, true, false, ◌&&◌, ◌||◌}
use mathlib.Core.List.{List, [], ◌∷◌, ◌++◌}
use mathlib.Core.Option.{Option, none, some, some_inj}
use native.Mathlib.Omega.{arith}
use package.whats.Base.Tests.{if◌then◌else◌, Bool-cases}

module _ {ℓ} {A : Type ℓ} where
  abbrev pub length : List A → ℕ
  length [] = 0
  length (x ∷ xs) = suc (length xs)

  abbrev pub filter : (A → Bool) → List A → List A
  filter p [] = []
  filter p (x ∷ xs) = if p x then x ∷ filter p xs else filter p xs

  abbrev pub find : (A → Bool) → List A → Option A
  find p [] = none
  find p (x ∷ xs) = if p x then some x else find p xs

  abbrev pub any : (A → Bool) → List A → Bool
  any p [] = false
  any p (x ∷ xs) = p x || any p xs

  abbrev pub all : (A → Bool) → List A → Bool
  all p [] = true
  all p (x ∷ xs) = p x && all p xs

  pub length-append : (xs ys : List A) → length (xs ++ ys) ≡ length xs + length ys
  length-append [] ys = omega arith
  length-append (x ∷ xs) ys = omega (arith, length-append xs ys)

  pub length-filter_le : (p : A → Bool) (xs : List A) → length (filter p xs) ≤ length xs
  length-filter_le p [] = omega arith
  length-filter_le p (x ∷ xs) = ground (arith, length-filter_le p xs)

-- A predicate on all members, and one on some member, by recursion: the tactics read them.
abbrev pub All {ℓ κ} : {A : Type ℓ} → (A → Type κ) → List A → Type κ
All P [] = Unit
All P (x ∷ xs) = P x × All P xs

abbrev pub Any {ℓ} : {A : Type ℓ} → (A → Type 0) → List A → Type 0
Any P [] = ⊥
Any P (x ∷ xs) = P x ⊎ Any P xs

pub All-find :
    {A : Type 0} (P : A → Type 0) (test : A → Bool) (xs : List A) {x : A}
    → All P xs
    → find test xs ≡ some x
    → P x
All-find P test [] all h = cc
All-find P test (y ∷ ys) {x} (here, rest) h = elim (Bool-cases (test y)) [
  | inl hit ↦ rw (let same : x ≡ y = some_inj.0 (sym h ∙ rw hit refl) in same) here
  | inr miss ↦ All-find P test ys rest (sym (rw miss refl) ∙ h)
]

pub find-holds :
    {A : Type 0} (test : A → Bool) (xs : List A) {x : A} → find test xs ≡ some x → test x ≡ true
find-holds test [] h = cc
find-holds test (y ∷ ys) {x} h = elim (Bool-cases (test y)) [
  | inl hit ↦ ap test (some_inj.0 (sym h ∙ rw hit refl)) ∙ hit
  | inr miss ↦ find-holds test ys (sym (rw miss refl) ∙ h)
]
