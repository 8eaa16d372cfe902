-- ===== src/Inbox/Time.antt =====
-- `time.Time` and `time.Duration`. A time is the number of nanoseconds since Go's zero time, so
-- `IsZero` tests for 0; the tests of the program compare two times, or a difference with a
-- constant, which the saturation of `Sub` at 292 years does not change.
use whats.Base.{ℕ, ◌+◌, ◌*◌, Bool, ltb, leb, ◌==◌, nat_eq}

abbrev pub Time : Type 0
Time = ℕ

abbrev pub Duration : Type 0
Duration = ℕ

abbrev pub is_zero : Time → Bool
is_zero t = t == 0

abbrev pub before : Time → Time → Bool
before a b = ltb a b

abbrev pub after : Time → Time → Bool
after a b = ltb b a

-- `a.Sub(b) <= d`
abbrev pub sub_le : Time → Time → Duration → Bool
sub_le a b d = leb a (b + d)

-- `a.Sub(b) < d`
abbrev pub sub_lt : Time → Time → Duration → Bool
sub_lt a b d = ltb a (b + d)

abbrev pub second : Duration
second = 1000000000

abbrev pub minute : Duration
minute = 60 * second

abbrev pub hour : Duration
hour = 60 * minute
