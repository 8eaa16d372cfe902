-- ===== src/Inbox/Content.antt =====
-- What is read of an inbound message: `providerTime`, `windowBasis` and `typedContent`,
-- backend/internal/inbox/materialize.go.
use whats.Base.{
  ℕ, ◌+◌, ◌*◌, String, Bool, not, ◌&&◌, ◌||◌, List, [], ◌∷◌, Option, none, some, ltb, leb, all,
  ◌==◌, nat_eq, string_eq, list_eq, if◌then◌else◌,
}
use whats.Inbox.Time.{Time, second, before, after}
use whats.Inbox.Text.{Text, valid_text, is_digit}
use whats.Inbox.Amount.{digits_value}
use whats.Inbox.Delivery.{to_upper}

-- The Unix epoch, in seconds from Go's zero time.
abbrev epoch : ℕ
epoch = 62135596800

-- The digits behind an optional plus sign. A minus sign leads to no positive number.
unfoldable pub unsigned : Text → Text
unsigned [] = []
unsigned (c ∷ v) = if c == b'+' then v else c ∷ v

-- `providerTime`: decimal seconds from the epoch, up to the year 9999.
unfoldable pub provider_time : Text → Option Time
provider_time v =
    let digits = unsigned v in
    let seconds = digits_value 0 digits in
    if not (digits == []) && all is_digit digits && ltb 0 seconds && leb seconds 253402300799
    then some ((seconds + epoch) * second)
    else none

-- `windowBasis`
unfoldable pub window_basis : Option Time → Time → Time → Option Time
window_basis none ingress now = none
window_basis (some provider) ingress now =
    if after provider (ingress + 5 * second) || after provider now
    then none
    else if before ingress provider
    then some ingress
    else some provider

-- `inboundMessage`, with what the rest of its JSON decides: whether the subtree of its type can be
-- decoded, and whether the database can store the content.
pub record Inbound : Type 0 where
  pub id : Text
  pub from : Text
  pub kind : Text
  pub timestamp : Text
  pub body : Text
  pub context : Text
  pub has_subtree : Bool
  pub storable : Bool

abbrev text_word : Text
text_word = b'T' ∷ b'E' ∷ b'X' ∷ b'T' ∷ []

abbrev media_words : List (Text × String)
media_words =
    (b'I' ∷ b'M' ∷ b'A' ∷ b'G' ∷ b'E' ∷ [], "IMAGE")
    ∷ (b'V' ∷ b'I' ∷ b'D' ∷ b'E' ∷ b'O' ∷ [], "VIDEO")
    ∷ (b'A' ∷ b'U' ∷ b'D' ∷ b'I' ∷ b'O' ∷ [], "AUDIO")
    ∷ (b'D' ∷ b'O' ∷ b'C' ∷ b'U' ∷ b'M' ∷ b'E' ∷ b'N' ∷ b'T' ∷ [], "DOCUMENT")
    ∷ (b'S' ∷ b'T' ∷ b'I' ∷ b'C' ∷ b'K' ∷ b'E' ∷ b'R' ∷ [], "STICKER")
    ∷ []

abbrev typed_words : List (Text × String)
typed_words =
    (b'C' ∷ b'O' ∷ b'N' ∷ b'T' ∷ b'A' ∷ b'C' ∷ b'T' ∷ b'S' ∷ [], "CONTACTS")
    ∷ (b'L' ∷ b'O' ∷ b'C' ∷ b'A' ∷ b'T' ∷ b'I' ∷ b'O' ∷ b'N' ∷ [], "LOCATION")
    ∷ (b'R' ∷ b'E' ∷ b'A' ∷ b'C' ∷ b'T' ∷ b'I' ∷ b'O' ∷ b'N' ∷ [], "REACTION")
    ∷ (
      b'I' ∷ b'N' ∷ b'T' ∷ b'E' ∷ b'R' ∷ b'A' ∷ b'C' ∷ b'T' ∷ b'I' ∷ b'V' ∷ b'E' ∷ [],
      "INTERACTIVE",
    )
    ∷ (b'T' ∷ b'E' ∷ b'M' ∷ b'P' ∷ b'L' ∷ b'A' ∷ b'T' ∷ b'E' ∷ [], "TEMPLATE")
    ∷ []

abbrev pub lookup : Text → List (Text × String) → Option String
lookup w [] = none
lookup w ((v, name) ∷ rest) = if v == w then some name else lookup w rest

-- `typedContent`: the kind and the text. The content itself is stored and not read.
unfoldable pub typed_content : Inbound → String × Text
typed_content m =
    let kind = to_upper m.kind in
    if kind == text_word
    then if valid_text m.body 4096 then ("TEXT", m.body) else ("UNKNOWN", [])
    else elim (lookup kind media_words) [
      | some name ↦ (name, [])
      | none ↦ elim (lookup kind typed_words) [
        | some name ↦ if m.has_subtree then (name, []) else ("UNKNOWN", [])
        | none ↦ ("UNKNOWN", [])
      ]
    ]
