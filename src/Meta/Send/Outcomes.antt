-- ===== src/Meta/Send/Outcomes.antt =====
-- The outcomes of `SendText`, backend/internal/meta/send.go.
use whats.Base.{
  ℕ, ◌≤◌, ◌<◌, ◌≡◌, ◌⊎◌, refl, sym, inl, inr, arith, Bool, true, false, ◌&&◌, List, [], ◌∷◌, none,
  some, ltb, leb, any, ◌==◌, nat_eq, Bool-cases, Option-cases,
}
use whats.Inbox.Error.{
  Code, invalid_text_request, meta_definite_rejection, meta_rate_limited, dispatch_uncertain,
}
use whats.Inbox.Text.{Text, byte_length}
use whats.Inbox.Outcome.{OutcomeState, SendOutcome}
use whats.Meta.Send.{
  Response, Exchange, not_built, failed, unreadable, undecodable, responded, is_sendable,
  classify_response, classify_exchange, accepted_id, one_id, is_definite, is_rate_limit,
  uncertain_outcome, send_text,
}

-- A success without an error, for exactly one message, whose identifier has 1 to 512 bytes.
pub record IsAcceptance (r : Response) (id : Text) : Type 0 where
  pub is_success : (200 ≤ r.status) × (r.status < 300)
  pub is_clean : r.error ≡ none
  pub is_only : r.ids ≡ id ∷ []
  pub is_sized : (1 ≤ byte_length id) × (byte_length id ≤ 512)

abbrev pub is_one_of : ℕ → List ℕ → Bool
is_one_of c codes = any (λ k. c == k) codes

-- A client error whose code rules out a delivery: one of five that refuse the message, or one of two
-- that limit the rate.
pub record IsRefusal (r : Response) (code : Code) : Type 0 where
  pub is_client_error : (400 ≤ r.status) × (r.status < 500)
  pub error_code : ℕ
  pub is_given : r.error ≡ some error_code
  pub is_ruled_out :
      ((is_one_of error_code (100 ∷ 190 ∷ 10 ∷ 200 ∷ 131047 ∷ []) ≡ true)
        × (code ≡ meta_definite_rejection))
      ⊎ ((is_one_of error_code (130429 ∷ 131056 ∷ []) ≡ true) × (code ≡ meta_rate_limited))

-- The outcome of a message that may be sent, by what the network did.
pub data Classified : Exchange → SendOutcome → Type 0 where
  unsent :
      Classified not_built record {
        state = OutcomeState.rejected;
        provider_id = none;
        code = some invalid_text_request;
      }
  lost :
      (x : Exchange)
      → (x ≡ failed) ⊎ (x ≡ unreadable) ⊎ (x ≡ undecodable)
      → Classified x record {
        state = OutcomeState.uncertain;
        provider_id = none;
        code = some dispatch_uncertain;
      }
  accepted :
      (r : Response) (id : Text)
      → IsAcceptance r id
      → Classified
          (responded r)
          record { state = OutcomeState.accepted; provider_id = some id; code = none }
  refused :
      (r : Response) (code : Code)
      → IsRefusal r code
      → Classified
          (responded r)
          record { state = OutcomeState.rejected; provider_id = none; code = some code }
  unclear :
      (r : Response)
      → ((id : Text) → ¬ IsAcceptance r id)
      → ((code : Code) → ¬ IsRefusal r code)
      → Classified (responded r) record {
        state = OutcomeState.uncertain;
        provider_id = none;
        code = some dispatch_uncertain;
      }

ids_cases : (ids : List Text) → ((x : Text) × (ids ≡ x ∷ [])) ⊎ (one_id ids ≡ none)
ids_cases [] = inr refl
ids_cases (x ∷ []) = inl (x, refl)
ids_cases (x ∷ y ∷ ids) = inr refl

accepted_id-some : (r : Response) {id : Text} → accepted_id r ≡ some id → IsAcceptance r id
accepted_id-some r {id} h = elim (ids_cases r.ids) [
  | inl (x, one) ↦ record {
    is_success = (ground arith, ground arith);
    is_clean = ground arith;
    is_only = ground arith;
    is_sized = (ground arith, ground arith);
  }
  | inr several ↦ absurd (ground (arith, several))
]

accepted_id-none : (r : Response) → accepted_id r ≡ none → (id : Text) → ¬ IsAcceptance r id
accepted_id-none r h id a =
    let ids = a.is_only in
    let clean = a.is_clean in
    let one : one_id r.ids ≡ some id = rw ids (ground (arith, a.is_sized)) in
    ground (arith, a.is_success, one, clean)

IsRefusal-definite :
    (r : Response) (c : ℕ)
    → r.error ≡ some c
    → (leb 400 r.status && ltb r.status 500 && is_definite c) ≡ true
    → IsRefusal r meta_definite_rejection
IsRefusal-definite r c error h = record {
  is_client_error = (ground arith, ground arith);
  error_code = c;
  is_given = error;
  is_ruled_out = inl (ground arith, refl);
}

IsRefusal-limited :
    (r : Response) (c : ℕ)
    → r.error ≡ some c
    → (leb 400 r.status && ltb r.status 500 && is_rate_limit c) ≡ true
    → IsRefusal r meta_rate_limited
IsRefusal-limited r c error h = record {
  is_client_error = (ground arith, ground arith);
  error_code = c;
  is_given = error;
  is_ruled_out = inr (ground arith, refl);
}

not_IsRefusal :
    (r : Response) (c : ℕ) (code : Code)
    → r.error ≡ some c
    → (leb 400 r.status && ltb r.status 500 && is_definite c) ≡ false
    → (leb 400 r.status && ltb r.status 500 && is_rate_limit c) ≡ false
    → ¬ IsRefusal r code
not_IsRefusal r c code error definite limited a =
    let same : a.error_code ≡ c = ground (arith, a.is_given) in
    elim a.is_ruled_out [
      | inl (listed, _) ↦
          let mine : is_one_of c (100 ∷ 190 ∷ 10 ∷ 200 ∷ 131047 ∷ []) ≡ true =
            rw (sym same) listed in
          ground (arith, a.is_client_error, mine)
      | inr (listed, _) ↦
          let mine : is_one_of c (130429 ∷ 131056 ∷ []) ≡ true = rw (sym same) listed in
          ground (arith, a.is_client_error, mine)
    ]

classify_response-Classified : (r : Response) → Classified (responded r) (classify_response r)
unfolding classify_response
classify_response-Classified r = elim (Option-cases (accepted_id r)) [
  | inr (id, taken) ↦
      let is : classify_response r
          ≡ record { state = OutcomeState.accepted; provider_id = some id; code = none } =
        ground arith in
      rw is (accepted r id (accepted_id-some r taken))
  | inl not_taken ↦ elim (Option-cases r.error) [
    | inl clean ↦
        let is : classify_response r ≡ uncertain_outcome = ground arith in
        rw is (unclear r (accepted_id-none r not_taken) (λ code a. ground (arith, a.is_given)))
    | inr (c, error) ↦ elim (Bool-cases (leb 400 r.status && ltb r.status 500 && is_definite c)) [
      | inl definite ↦
          let is : classify_response r ≡ record {
            state = OutcomeState.rejected;
            provider_id = none;
            code = some meta_definite_rejection;
          } =
            ground arith in
          rw is (refused r meta_definite_rejection (IsRefusal-definite r c error definite))
      | inr open_case ↦
          elim (Bool-cases (leb 400 r.status && ltb r.status 500 && is_rate_limit c)) [
            | inl limited ↦
                let is : classify_response r ≡ record {
                  state = OutcomeState.rejected;
                  provider_id = none;
                  code = some meta_rate_limited;
                } =
                  ground arith in
                rw is (refused r meta_rate_limited (IsRefusal-limited r c error limited))
            | inr other ↦
                let is : classify_response r ≡ uncertain_outcome = ground arith in
                rw is (
                  unclear r (accepted_id-none r not_taken)
                    (λ code. not_IsRefusal r c code error open_case other))
          ]
    ]
  ]
]

classify_exchange-Classified : (x : Exchange) → Classified x (classify_exchange x)
unfolding classify_exchange
classify_exchange-Classified not_built = unsent
classify_exchange-Classified failed = lost failed (inl refl)
classify_exchange-Classified unreadable = lost unreadable (inr (inl refl))
classify_exchange-Classified undecodable = lost undecodable (inr (inr refl))
classify_exchange-Classified (responded r) = classify_response-Classified r

-- A message that fails the test before sending is rejected. Else it is rejected if no request
-- was built, and uncertain if the request failed or its answer could not be read or decoded; it
-- is accepted under an identifier exactly if the answer is a success without an error, for that
-- one identifier of 1 to 512 bytes; it is rejected exactly if the answer is a client error with
-- one of the seven codes that rule out a delivery, as a definite rejection or a rate limit;
-- every other answer is uncertain.
pub send_text-IsClassified :
    (version : Bool) (phone recipient body : Text) (exchange : Exchange)
    → ((is_sendable version phone recipient body ≡ false)
        × (send_text version phone recipient body exchange ≡ record {
          state = OutcomeState.rejected;
          provider_id = none;
          code = some invalid_text_request;
        }))
      ⊎ ((is_sendable version phone recipient body ≡ true)
          × Classified exchange (send_text version phone recipient body exchange))
unfolding send_text
send_text-IsClassified version phone recipient body exchange =
    elim (Bool-cases (is_sendable version phone recipient body)) [
      | inr unfit ↦ inl (unfit, rw unfit refl)
      | inl fit ↦ inr (fit, rw fit (classify_exchange-Classified exchange))
    ]
