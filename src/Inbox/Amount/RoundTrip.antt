-- ===== src/Inbox/Amount/RoundTrip.antt =====
-- Amounts read back from `FloatString(8)`, and their bound.
use native.Mathlib.Nat.{pow-suc, pow-le-pow_right, mul-le-mul_right}
use native.Mathlib.Numerals.{add-one}
use whats.Base.{
  ℕ, zero, suc, ◌+◌, ◌-◌, ◌*◌, ◌/◌, ◌%◌, ◌^◌, ◌≤◌, ◌<◌, ◌≡◌, refl, ◌∙◌, ap, Bool, true, [], ◌∷◌,
  ◌++◌, Option, none, some, arith, length, length-append, all, ◌==◌, nat_eq, Bool-cases, inl, inr,
  if◌then◌else◌,
}
use whats.Inbox.Text.{Text, is_digit}
use whats.Inbox.Amount.{
  Units, is_digits, split_point, digits_value, amount_parts, amount, low_digits, decimal,
  float_string_8,
}

digits_value-snoc :
    (acc : ℕ) (s : Text) (c : ℕ)
    → digits_value acc (s ++ c ∷ []) ≡ 10 * digits_value acc s + (c - b'0')
unfolding digits_value
digits_value-snoc acc [] c = refl
digits_value-snoc acc (d ∷ s) c = digits_value-snoc (10 * acc + (d - b'0')) s c

all-snoc :
    (p : ℕ → Bool) (s : Text) (c : ℕ) → all p s ≡ true → p c ≡ true → all p (s ++ c ∷ []) ≡ true
all-snoc p [] c h k = ground arith
all-snoc p (d ∷ s) c h k = ground (arith, all-snoc p s c)

digit-is_digit : (v : ℕ) → is_digit (b'0' + v % 10) ≡ true
unfolding is_digit
digit-is_digit v = ground arith

all-low_digits : (n v : ℕ) → all is_digit (low_digits n v) ≡ true
unfolding low_digits
all-low_digits zero v = refl
all-low_digits (suc n) v =
    all-snoc is_digit (low_digits n (v / 10)) _ (all-low_digits n (v / 10)) (digit-is_digit v)

length-low_digits : (n v : ℕ) → length (low_digits n v) ≡ n
unfolding low_digits
length-low_digits zero v = refl
length-low_digits (suc n) v = omega (
  arith,
  length-append (low_digits n (v / 10)) ((b'0' + v % 10) ∷ []),
  length-low_digits n (v / 10),
)

digits_value-low_digits : (n v : ℕ) → v < 10 ^ n → digits_value 0 (low_digits n v) ≡ v
unfolding low_digits
digits_value-low_digits zero v h = unfold digits_value in omega arith
digits_value-low_digits (suc n) v h =
    rw (digits_value-snoc 0 (low_digits n (v / 10)) (b'0' + v % 10))
      (omega (arith, digits_value-low_digits n (v / 10) (omega (arith, pow-suc 10 n))))

all-decimal : (fuel v : ℕ) → all is_digit (decimal fuel v) ≡ true
unfolding decimal
all-decimal zero v = refl
all-decimal (suc f) v = elim (Bool-cases (v / 10 == 0)) [
  | inl last ↦ rw last (all-snoc is_digit [] _ refl (digit-is_digit v))
  | inr more ↦
      rw more (all-snoc is_digit (decimal f (v / 10)) _ (all-decimal f (v / 10)) (digit-is_digit v))
]

digits_value-decimal : (fuel v : ℕ) → v < fuel → digits_value 0 (decimal fuel v) ≡ v
unfolding decimal
digits_value-decimal zero v h = absurd (omega arith)
digits_value-decimal (suc f) v h = elim (Bool-cases (v / 10 == 0)) [
  | inl last ↦ rw last (unfold digits_value in ground arith)
  | inr more ↦ rw more (
      rw (digits_value-snoc 0 (decimal f (v / 10)) (b'0' + v % 10))
        (omega (arith, digits_value-decimal f (v / 10) (ground arith))))
]

length-decimal : (fuel v k : ℕ) → v < 10 ^ suc k → length (decimal fuel v) ≤ suc k
unfolding decimal
length-decimal zero v k h = omega arith
length-decimal (suc f) v zero h = elim (Bool-cases (v / 10 == 0)) [
  | inl last ↦ rw last (omega arith)
  | inr more ↦ absurd (ground arith)
]
length-decimal (suc f) v (suc k) h = elim (Bool-cases (v / 10 == 0)) [
  | inl last ↦ rw last (omega arith)
  | inr more ↦ rw more (
      omega (
        arith,
        length-append (decimal f (v / 10)) ((b'0' + v % 10) ∷ []),
        length-decimal f (v / 10) k (omega (arith, pow-suc 10 (suc k))),
      ))
]

decimal-pos : (fuel v : ℕ) → 1 ≤ length (decimal (suc fuel) v)
unfolding decimal
decimal-pos f v =
    omega
      (arith, length-append (if v / 10 == 0 then [] else decimal f (v / 10)) ((b'0' + v % 10) ∷ []))

split_point-append :
    (s rest : Text) → all is_digit s ≡ true → split_point (s ++ b'.' ∷ rest) ≡ (s, some rest)
unfolding split_point is_digit
split_point-append [] rest h = refl
split_point-append (c ∷ s) rest h = ground (arith, split_point-append s rest)

is_digits-eq-true :
    (n : ℕ) (s : Text) → all is_digit s ≡ true → 1 ≤ length s → length s ≤ n → is_digits n s ≡ true
unfolding is_digits
is_digits-eq-true n s a b c = ground arith

amount_parts-eq-some :
    (whole frac : Text)
    → is_digits 16 whole ≡ true
    → is_digits 8 frac ≡ true
    → amount_parts (whole, some frac)
      ≡ some (digits_value 0 whole * 10 ^ 8 + digits_value 0 frac * 10 ^ (8 - length frac))
unfolding amount_parts
amount_parts-eq-some whole frac a b = ground arith

-- An amount below 10^16 is read back from the text that FloatString(8) gives it.
pub amount-float_string_8 : (v : Units) → v < 10 ^ 24 → amount (float_string_8 v) ≡ some v
unfolding amount float_string_8
amount-float_string_8 v h =
    let whole = decimal (v / 10 ^ 8 + 1) (v / 10 ^ 8) in
    let frac = low_digits 8 (v % 10 ^ 8) in
    let whole_digits = all-decimal (v / 10 ^ 8 + 1) (v / 10 ^ 8) in
    let whole_ok =
      is_digits-eq-true 16 whole whole_digits (rw add-one (decimal-pos (v / 10 ^ 8) (v / 10 ^ 8)))
        (length-decimal (v / 10 ^ 8 + 1) (v / 10 ^ 8) 15 (omega arith)) in
    let frac_ok =
      is_digits-eq-true 8 frac (all-low_digits 8 (v % 10 ^ 8))
        (omega (arith, length-low_digits 8 (v % 10 ^ 8)))
        (omega (arith, length-low_digits 8 (v % 10 ^ 8))) in
    rw (split_point-append whole frac whole_digits) (
      amount_parts-eq-some whole frac whole_ok frac_ok
      ∙ ap some (
          rw
            (
              length-low_digits 8 (v % 10 ^ 8),
              digits_value-low_digits 8 (v % 10 ^ 8) (omega arith),
              digits_value-decimal (v / 10 ^ 8 + 1) (v / 10 ^ 8) (omega arith),
            )
            (omega arith)))

digits_value-lt :
    (acc : ℕ) (s : Text) → all is_digit s ≡ true → digits_value acc s < (acc + 1) * 10 ^ length s
unfolding digits_value is_digit
digits_value-lt acc [] h = omega arith
digits_value-lt acc (c ∷ s) h =
    let small : c - b'0' ≤ 9 = ground arith in
    let rest = digits_value-lt (10 * acc + (c - b'0')) s (ground arith) in
    rw pow-suc (omega (arith, rest, mul-le-mul_right (10 ^ length s) small))

is_digits-all : (n : ℕ) (s : Text) → is_digits n s ≡ true → (all is_digit s ≡ true) × (length s ≤ n)
unfolding is_digits
is_digits-all n s h = (ground arith, ground arith)

digits_value-lt_pow : (n : ℕ) (s : Text) → is_digits n s ≡ true → digits_value 0 s < 10 ^ n
digits_value-lt_pow n s h =
    let (digits, short) = is_digits-all n s h in
    omega (arith, digits_value-lt 0 s digits, pow-le-pow_right {n = 10} (omega arith) short)

-- `10 ^ n` for the places that a fraction has, and the rest of the eight.
places-scale : (n : ℕ) → n ≤ 8 → (10 ^ n * 10 ^ (8 - n) ≡ 10 ^ 8) × (1 ≤ 10 ^ (8 - n))
places-scale zero h = (refl, omega arith)
places-scale (suc zero) h = (refl, omega arith)
places-scale (suc (suc zero)) h = (refl, omega arith)
places-scale (suc (suc (suc zero))) h = (refl, omega arith)
places-scale (suc (suc (suc (suc zero)))) h = (refl, omega arith)
places-scale (suc (suc (suc (suc (suc zero))))) h = (refl, omega arith)
places-scale (suc (suc (suc (suc (suc (suc zero)))))) h = (refl, omega arith)
places-scale (suc (suc (suc (suc (suc (suc (suc zero))))))) h = (refl, omega arith)
places-scale (suc (suc (suc (suc (suc (suc (suc (suc zero)))))))) h = (refl, omega arith)
places-scale (suc (suc (suc (suc (suc (suc (suc (suc (suc n))))))))) h = absurd (omega arith)

amount_parts-lt :
    (parts : Text × Option Text) {v : Units} → amount_parts parts ≡ some v → v < 10 ^ 24
unfolding amount_parts
amount_parts-lt (whole, none) h = ground (arith, digits_value-lt_pow 16 whole)
amount_parts-lt (whole, some frac) h =
    let whole_ok : is_digits 16 whole ≡ true = ground arith in
    let frac_ok : is_digits 8 frac ≡ true = ground arith in
    let scaled = places-scale (length frac) (is_digits-all 8 frac frac_ok).1 in
    let below = digits_value-lt 0 frac (is_digits-all 8 frac frac_ok).0 in
    let product =
      mul-le-mul_right (10 ^ (8 - length frac))
        (let p : digits_value 0 frac + 1 ≤ 10 ^ length frac = omega (arith, below) in p) in
    ground (arith, digits_value-lt_pow 16 whole whole_ok, scaled, product)

-- Every text that is accepted as an amount has a value below 10^16.
pub amount-lt : (s : Text) {v : Units} → amount s ≡ some v → v < 10 ^ 24
unfolding amount
amount-lt s h = amount_parts-lt (split_point s) h
