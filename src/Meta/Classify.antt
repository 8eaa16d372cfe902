-- ===== src/Meta/Classify.antt =====
-- `classifyField` and `classify` of backend/internal/meta/processor.go.
use whats.Base.{
  ◌+◌, Bool, true, false, not, ◌||◌, List, [], ◌∷◌, ◌++◌, Option, none, some, ltb, length, any,
  ◌==◌, nat_eq, list_eq, if◌then◌else◌,
}
use whats.Inbox.Text.{Text, byte_length}
use whats.Inbox.Events.{◌>>=◌}
use whats.Meta.Send.{is_numeric_id}
use whats.Meta.Events.{
  text, StatusNote, Observed, Change, Entry, Envelope, Class, messaging_class, asset_class,
  inbound_class, status_class, unknown_class, Fact, EventState, processed, unknown, invalid,
}

abbrev pub asset_fields : List Text
asset_fields =
    text "phone_number_name_update"
    ∷ text "phone_number_quality_update"
    ∷ text "account_update"
    ∷ text "account_review_update"
    ∷ text "message_template_status_update"
    ∷ text "message_template_quality_update"
    ∷ []

unfoldable pub classify_field : Text → Class
classify_field field =
    if field == text "messages"
    then messaging_class
    else if any (λ f. f == field) asset_fields
    then asset_class
    else unknown_class

-- The facts so far, and whether something was not known. `none` is `INVALID`.
abbrev pub Seen : Type 0
Seen = List Fact × Bool

module _ (hash : Text → Text) where
  abbrev pub unknown_fact : Text → Text → Text → Fact
  unknown_fact waba phone key = record {
    waba = waba;
    phone = phone;
    class = unknown_class;
    key = hash key;
    uncertain = true;
  }

  abbrev pub inbound_fact : Text → Text → Text → Fact
  inbound_fact waba phone id = record {
    waba = waba;
    phone = phone;
    class = inbound_class;
    key = hash (text "inbound:" ++ phone ++ text ":" ++ id);
    uncertain = false;
  }

  -- `strings.Join` with the byte zero
  abbrev pub status_key : Text → StatusNote → Text
  status_key phone m =
      text "status"
      ++ 0 ∷ phone
      ++ 0 ∷ m.id
      ++ 0 ∷ m.status
      ++ 0 ∷ m.timestamp
      ++ 0 ∷ m.errors
      ++ 0 ∷ m.pricing
      ++ 0 ∷ m.conversation

  abbrev pub status_fact : Text → Text → StatusNote → Fact
  status_fact waba phone m = record {
    waba = waba;
    phone = phone;
    class = status_class;
    key = hash (status_key phone m);
    uncertain = false;
  }

  unfoldable pub message_facts : Text → Text → List (Option Text) → Option (List Fact)
  message_facts waba phone [] = some []
  message_facts waba phone (none ∷ ms) = none
  message_facts waba phone (some id ∷ ms) = message_facts waba phone ms >>= λ rest.
      if id == [] || ltb 2048 (byte_length id)
      then none
      else some (inbound_fact waba phone id ∷ rest)

  unfoldable pub status_facts : Text → Text → List (Option StatusNote) → Option (List Fact)
  status_facts waba phone [] = some []
  status_facts waba phone (none ∷ ms) = none
  status_facts waba phone (some m ∷ ms) = status_facts waba phone ms >>= λ rest.
      if m.id == [] || m.status == [] || m.timestamp == []
      then none
      else some (status_fact waba phone m ∷ rest)

  -- A change of messages: its facts.
  unfoldable pub messaging_facts : Text → Text → Observed → Option Seen
  messaging_facts waba canonical v =
      if not (is_numeric_id v.phone)
      then none
      else message_facts waba v.phone v.messages >>= λ messages.
          status_facts waba v.phone v.statuses >>= λ statuses.
          (let empty = length v.messages + length v.statuses == 0 in
            some (
              (if empty then unknown_fact waba v.phone (waba ++ text ":" ++ canonical) ∷ [] else [])
                  ++ messages
                  ++ statuses,
              empty,
            ))

  unfoldable pub change_facts : Entry → Change → Option Seen
  change_facts e c =
      if c.value == [] || c.field == [] then none else elim (classify_field c.field) [
        | messaging_class ↦ elim c.observed [
          | none ↦ none
          | some v ↦ messaging_facts e.id c.canonical v
        ]
        | asset_class ↦ some (
          record {
            waba = e.id;
            phone = [];
            class = asset_class;
            key =
                hash (e.id ++ text ":" ++ c.field ++ text ":" ++ e.time ++ text ":" ++ c.canonical);
            uncertain = e.time == [];
          }
              ∷ [],
          false,
        )
        | _ ↦ some (
          unknown_fact e.id [] (e.id ++ text ":" ++ c.field ++ text ":" ++ c.canonical) ∷ [],
          true,
        )
      ]

  unfoldable pub classify_changes : Entry → List Change → Seen → Option Seen
  classify_changes e [] seen = some seen
  classify_changes e (c ∷ cs) seen =
      if ltb 10000 (length seen.0)
      then none
      else change_facts e c >>= λ found.
          classify_changes e cs (seen.0 ++ found.0, seen.1 || found.1)

  unfoldable pub classify_entries : List Entry → Seen → Option Seen
  classify_entries [] seen = some seen
  classify_entries (e ∷ es) seen =
      if not (is_numeric_id e.id) || length e.changes == 0
      then none
      else classify_changes e e.changes seen >>= λ seen'. classify_entries es seen'

  -- `classify`, of the envelope if the payload decodes to one
  unfoldable pub classify : Option Envelope → List Fact × EventState
  classify none = ([], invalid)
  classify (some v) =
      if length v.entry == 0 then ([], invalid) else elim (classify_entries v.entry ([], false)) [
        | none ↦ ([], invalid)
        | some (facts, true) ↦ (facts, unknown)
        | some (facts, false) ↦ (facts, processed)
      ]
