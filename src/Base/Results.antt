-- ===== src/Base/Results.antt =====
-- Results of Go functions that return a value and an error, and chains of early returns.
use mathlib.Core.Path.{◌≡◌, refl}
use mathlib.Core.Logic.{◌↔◌, ◌⊎◌, inl, inr}
use mathlib.Core.Bool.{Bool, true, false}
use mathlib.Core.Option.{Option, none, some}

pub data Result {ℓ} (E A : Type ℓ) : Type ℓ where
  err : E → Result E A
  ok : A → Result E A

-- `if test { return nil, e }`
abbrev pub fail_if {ℓ} : {E : Type ℓ} → Bool → E → Result E (Unit {ℓ})
fail_if test e = elim test [ true ↦ err e | false ↦ ok tt ]

infixl 5 ◌>>=◌ ◌>>◌
abbrev pub ◌>>=◌ {ℓ} : {E A B : Type ℓ} → Result E A → (A → Result E B) → Result E B
err e >>= next = err e
ok value >>= next = next value

abbrev pub ◌>>◌ {ℓ} : {E B : Type ℓ} → Result E (Unit {ℓ}) → Result E B → Result E B
err e >> rest = err e
ok _ >> rest = rest

-- The value of an optional row or parse, or the error for its absence.
abbrev pub or_fail {ℓ} : {E A : Type ℓ} → Option A → E → Result E A
or_fail none e = err e
or_fail (some a) e = ok a

-- `if test { return block(code) }`, in order: the first refusal counts.
abbrev pub deny_if {ℓ} : {E : Type ℓ} → Bool → E → Option E
deny_if true e = some e
deny_if false e = none

infixr 20 ◌<|>◌
abbrev pub ◌<|>◌ {ℓ} : {E : Type ℓ} → Option E → Option E → Option E
none <|> d = d
some e <|> d = some e

pub <|>-eq-none_iff {ℓ} :
    {E : Type ℓ} (c d : Option E) → ((c <|> d) ≡ none) ↔ ((c ≡ none) × (d ≡ none))
<|>-eq-none_iff none d = (λ h. (refl, h), λ h. h.1)
<|>-eq-none_iff (some e) d = (λ h. cc, λ h. cc)

pub deny_if-eq-none_iff {ℓ} : {E : Type ℓ} (b : Bool) (e : E) → (deny_if b e ≡ none) ↔ (b ≡ false)
deny_if-eq-none_iff true e = (λ h. cc, λ h. cc)
deny_if-eq-none_iff false e = (λ h. refl, λ h. refl)

pub >>=-eq-ok {ℓ} :
    {E A B : Type ℓ} (first : Result E A) (next : A → Result E B) {done : B}
    → (first >>= next) ≡ ok done
    → (value : A) × (first ≡ ok value) × (next value ≡ ok done)
>>=-eq-ok (err e) next h = cc
>>=-eq-ok (ok value) next h = (value, refl, h)

pub Result-cases {ℓ} :
    {E A : Type ℓ} (m : Result E A) → ((e : E) × (m ≡ err e)) ⊎ ((a : A) × (m ≡ ok a))
Result-cases (ok a) = inr (a, refl)
Result-cases (err e) = inl (e, refl)
