-- ===== src/Inbox/Delivery.antt =====
-- The delivery state that the status facts of a message project to: `deliveryProjection` and the
-- normalisation of a status in `materializeStatus`, backend/internal/inbox/materialize.go.
pub mod Laws
pub mod Replay
use whats.Base.{
  ℕ, ◌-◌, Bool, false, true, ◌&&◌, ◌||◌, List, [], ◌∷◌, map, ltb, leb, ◌==◌, nat_eq, list_eq,
  if◌then◌else◌,
}
use whats.Inbox.Text.{Text}

-- `app.messages.delivery_state`; a received message never leaves `received`.
pub data DeliveryState : Type 0 where
  received pending_local uncertain accepted sent delivered read failed unknown_conflict :
      DeliveryState

-- `app.message_statuses.status`
pub data Status : Type 0 where
  sent delivered read failed unknown : Status

-- `strings.ToUpper` as far as its result can be an ASCII letter: U+0131 and U+017F are the letters
-- outside ASCII whose upper case is in it.
unfoldable pub upper_char : ℕ → ℕ
upper_char c =
    if leb b'a' c && leb c b'z'
    then c - 32
    else if c == 0x131
    then b'I'
    else if c == 0x17f
    then b'S'
    else c

unfoldable pub to_upper : Text → Text
unfolding upper_char
to_upper s = map upper_char s

-- The codes of the words that the program compares with.
abbrev sent_word : Text
sent_word = b'S' ∷ b'E' ∷ b'N' ∷ b'T' ∷ []

abbrev delivered_word : Text
delivered_word = b'D' ∷ b'E' ∷ b'L' ∷ b'I' ∷ b'V' ∷ b'E' ∷ b'R' ∷ b'E' ∷ b'D' ∷ []

abbrev read_word : Text
read_word = b'R' ∷ b'E' ∷ b'A' ∷ b'D' ∷ []

abbrev failed_word : Text
failed_word = b'F' ∷ b'A' ∷ b'I' ∷ b'L' ∷ b'E' ∷ b'D' ∷ []

-- The `switch` on the upper-case status: anything else is UNKNOWN.
unfoldable pub normal_status : Text → Status
unfolding to_upper
normal_status text =
    let word = to_upper text in
    if word == sent_word
    then Status.sent
    else if word == delivered_word
    then Status.delivered
    else if word == read_word
    then Status.read
    else if word == failed_word
    then Status.failed
    else unknown

-- `rank`; a key that the map lacks has rank 0.
unfoldable pub rank : DeliveryState → ℕ
rank accepted = 1
rank DeliveryState.sent = 2
rank DeliveryState.delivered = 3
rank DeliveryState.read = 4
rank _ = 0

unfoldable pub fact_rank : Status → ℕ
fact_rank Status.sent = 2
fact_rank Status.delivered = 3
fact_rank Status.read = 4
fact_rank _ = 0

-- `best = f`, which runs only for a fact of positive rank.
unfoldable pub fact_state : Status → DeliveryState → DeliveryState
fact_state Status.sent best = DeliveryState.sent
fact_state Status.delivered best = DeliveryState.delivered
fact_state Status.read best = DeliveryState.read
fact_state Status.failed best = best
fact_state unknown best = best

abbrev pub is_failed : Status → Bool
is_failed Status.failed = true
is_failed _ = false

abbrev pub is_unknown : Status → Bool
is_unknown unknown = true
is_unknown _ = false

-- The variables of the loop.
pub record Scan : Type 0 where
  pub best : DeliveryState
  pub failed : Bool
  pub unknown : Bool

unfoldable pub scan_fact : Scan → Status → Scan
unfolding rank fact_rank fact_state
scan_fact s f = record {
  best = if ltb (rank s.best) (fact_rank f) then fact_state f s.best else s.best;
  failed = is_failed f || s.failed;
  unknown = is_unknown f || s.unknown;
}

unfoldable pub scan : Scan → List Status → Scan
scan s [] = s
scan s (f ∷ fs) = scan (scan_fact s f) fs

unfoldable pub start : DeliveryState → Scan
start DeliveryState.failed = record { best = DeliveryState.failed; failed = true; unknown = false }
start unknown_conflict = record { best = unknown_conflict; failed = false; unknown = true }
start current = record { best = current; failed = false; unknown = false }

unfoldable pub verdict : Scan → DeliveryState
unfolding rank
verdict s =
    if s.unknown || (s.failed && leb 3 (rank s.best))
    then unknown_conflict
    else if s.failed
    then DeliveryState.failed
    else s.best

unfoldable pub delivery_projection : DeliveryState → List Status → DeliveryState
delivery_projection current facts = verdict (scan (start current) facts)
