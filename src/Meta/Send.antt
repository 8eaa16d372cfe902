-- ===== src/Meta/Send.antt =====
-- The one request of a message: `SendText` of backend/internal/meta/send.go. What the network does
-- is a parameter.
pub mod Outcomes
use whats.Base.{
  ℕ, ◌≤◌, ◌<◌, ◌≡◌, ◌⊎◌, refl, inl, inr, arith, Bool, true, false, not, ◌&&◌, ◌||◌, List, [], ◌∷◌,
  Option, none, some, ltb, leb, length, all, is_none, ◌==◌, nat_eq, list_eq, if◌then◌else◌,
  Bool-cases, Option-cases,
}
use whats.Inbox.Error.{
  Code, invalid_text_request, meta_definite_rejection, meta_rate_limited, dispatch_uncertain,
}
use whats.Inbox.Text.{Text, is_digit, byte_length}
use whats.Inbox.Outcome.{OutcomeState, SendOutcome}

-- The decoded response: its status, the identifiers of its messages, and the code of its error, of
-- which no negative one is known.
pub record Response : Type 0 where
  pub status : ℕ
  pub ids : List Text
  pub error : Option ℕ

-- `client.Do`, the read of at most 65536 bytes, and `json.Unmarshal`
pub data Exchange : Type 0 where
  not_built failed unreadable undecodable : Exchange
  responded : Response → Exchange

-- `numericID`: `^[0-9]{1,32}$`
abbrev pub is_numeric_id : Text → Bool
is_numeric_id v = leb 1 (length v) && leb (length v) 32 && all is_digit v

-- The test before anything is sent; the flag is `g.version == "v26.0"`.
unfoldable pub is_sendable : Bool → Text → Text → Text → Bool
is_sendable version phone recipient body =
    is_numeric_id phone
    && is_numeric_id recipient
    && not (body == [])
    && leb (length body) 4096
    && version

abbrev pub outcome_of : OutcomeState → Code → SendOutcome
outcome_of state code = record { state = state; provider_id = none; code = some code }

abbrev pub is_definite : ℕ → Bool
is_definite c = c == 100 || c == 190 || c == 10 || c == 200 || c == 131047

abbrev pub is_rate_limit : ℕ → Bool
is_rate_limit c = c == 130429 || c == 131056

-- `len(result.Messages) == 1` with an identifier of 1 to 512 bytes
abbrev pub one_id : List Text → Option Text
one_id (id ∷ []) = if leb 1 (byte_length id) && leb (byte_length id) 512 then some id else none
one_id _ = none

abbrev pub uncertain_outcome : SendOutcome
uncertain_outcome = outcome_of OutcomeState.uncertain dispatch_uncertain

abbrev pub accepted_id : Response → Option Text
accepted_id r =
    if leb 200 r.status && ltb r.status 300 && is_none r.error then one_id r.ids else none

-- The `switch` on the code of a client error.
abbrev pub rejection : Response → SendOutcome
rejection r = elim r.error [
  | none ↦ uncertain_outcome
  | some c ↦
      if not (leb 400 r.status && ltb r.status 500)
      then uncertain_outcome
      else if is_definite c
      then outcome_of OutcomeState.rejected meta_definite_rejection
      else if is_rate_limit c
      then outcome_of OutcomeState.rejected meta_rate_limited
      else uncertain_outcome
]

unfoldable pub classify_response : Response → SendOutcome
classify_response r = elim (accepted_id r) [
  | some id ↦ record { state = OutcomeState.accepted; provider_id = some id; code = none }
  | none ↦ rejection r
]

unfoldable pub classify_exchange : Exchange → SendOutcome
classify_exchange not_built = outcome_of OutcomeState.rejected invalid_text_request
classify_exchange failed = uncertain_outcome
classify_exchange unreadable = uncertain_outcome
classify_exchange undecodable = uncertain_outcome
classify_exchange (responded r) = classify_response r

unfoldable pub send_text : Bool → Text → Text → Text → Exchange → SendOutcome
send_text version phone recipient body exchange =
    if not (is_sendable version phone recipient body)
    then outcome_of OutcomeState.rejected invalid_text_request
    else classify_exchange exchange
