-- ===== src/Inbox/Live.antt =====
-- The configuration of the sender: `LoadLive` of backend/internal/inbox/config.go. The environment, the
-- file and the parser of times are parameters.
use whats.Base.{
  ℕ, Bool, not, ◌&&◌, [], ◌∷◌, Option, Result, ok, ◌>>=◌, ◌>>◌, fail_if, or_fail, ◌==◌, nat_eq,
  list_eq, if◌then◌else◌,
}
use whats.Inbox.Error.{Error, validation}
use whats.Inbox.Time.{Time, Duration, is_zero}
use whats.Inbox.Text.{Text, is_space, identity_digits}
use whats.Inbox.Interval.{service_delivery_ttl}

-- The fields that `LoadLive` sets.
pub record LoadedConfig : Type 0 where
  pub enabled : Bool
  pub recipient : Text
  pub delivery_bound : Duration
  pub acceptance_not_before : Time

-- The variables, with the file that `INBOX_TEST_RECIPIENT_FILE` names, `none` if it cannot be read.
pub record Variables : Type 0 where
  pub enabled : Text
  pub test_recipient : Text
  pub recipient_file : Text
  pub not_before : Text
  pub read_file : Text → Option Text
  pub parse_time : Text → Option Time

unfoldable pub trim_left : Text → Text
trim_left [] = []
trim_left (c ∷ v) = if is_space c then trim_left v else c ∷ v

abbrev pub keep_word : ℕ → Text → Text
keep_word c rest = elim rest [ [] ↦ if is_space c then [] else c ∷ [] | d ∷ v ↦ c ∷ d ∷ v ]

unfoldable pub trim_right : Text → Text
trim_right [] = []
trim_right (c ∷ v) = keep_word c (trim_right v)

abbrev pub trim_prefix : ℕ → Text → Text
trim_prefix c v = elim v [ [] ↦ [] | d ∷ rest ↦ if d == c then rest else d ∷ rest ]

-- The recipient of the file: no byte order mark, no space around it, no plus sign.
unfoldable pub clean_recipient : Text → Text
clean_recipient raw = trim_prefix 43 (trim_right (trim_left (trim_prefix 0xfeff raw)))

abbrev pub word_true : Text
word_true = 116 ∷ 114 ∷ 117 ∷ 101 ∷ []

abbrev pub word_false : Text
word_false = 102 ∷ 97 ∷ 108 ∷ 115 ∷ 101 ∷ []

-- Every error of the configuration is `validation`.
unfoldable pub load_recipient : Variables → Result Error Text
load_recipient vars =
    if vars.recipient_file == []
    then ok []
    else or_fail (vars.read_file vars.recipient_file) validation >>= λ raw.
        fail_if (not (identity_digits (clean_recipient raw))) validation >> ok (clean_recipient raw)

unfoldable pub load_start : Variables → Result Error Time
load_start vars =
    if vars.not_before == [] then ok 0 else or_fail (vars.parse_time vars.not_before) validation

-- `LoadLive`
unfoldable pub load_live : Variables → Result Error LoadedConfig
load_live vars = do
  fail_if
      (not (vars.enabled == [])
        && not (vars.enabled == word_false)
        && not (vars.enabled == word_true))
      validation
  let enabled = vars.enabled == word_true
  fail_if (not (vars.test_recipient == [])) validation
  recipient ← load_recipient vars
  fail_if (enabled && recipient == []) validation
  start ← load_start vars
  fail_if (enabled && is_zero start) validation
  ok record {
    enabled = enabled;
    recipient = recipient;
    delivery_bound = service_delivery_ttl;
    acceptance_not_before = start;
  }
