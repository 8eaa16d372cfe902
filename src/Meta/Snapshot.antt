-- ===== src/Meta/Snapshot.antt =====
-- What the Graph says of an account and its phones: `Snapshot` of backend/internal/meta/graph.go.
pub mod Observed
use whats.Base.{
  ℕ, ◌+◌, ◌*◌, String, Bool, true, false, not, ◌&&◌, ◌||◌, List, [], ◌∷◌, ◌++◌, map, Option, none,
  some, Result, ok, err, ◌>>=◌, ◌>>◌, fail_if, or_fail, ltb, leb, length, any, find, holds, is_none,
  ◌==◌, nat_eq, string_eq, list_eq, if◌then◌else◌,
}
use whats.Inbox.Time.{Time, minute}
use whats.Inbox.Text.{Text}
use whats.Inbox.Store.{Uuid, Waba, Phone, update_where}
use whats.Meta.Send.{is_numeric_id}
use whats.Meta.Events.{text}
use whats.Meta.Process.{backoff}
use whats.Meta.Graph.{
  Exchange, GraphError, GraphKind, graph_error, invalid_request, invalid_response,
  attempts_exhausted, authentication, permission, Page, Paged, get, pages,
}

-- `WABA` and `Phone`, the columns that are kept; the fields of a profile by their names.
pub record GraphWaba : Type 0 where
  pub id : Text
  pub timezone_id : String

pub record GraphPhone : Type 0 where
  pub id : Text
  pub platform : String

abbrev pub Fields : Type 0
Fields = List (Text × Text)

pub record Snapshot : Type 0 where
  pub waba : GraphWaba
  pub phones : List (GraphPhone × Fields)
  pub subscribed : Bool

-- What the requests come to, by their paths; a part that does not decode is `none`. A subscription is
-- the identifier of its app.
pub record Network : Type 0 where
  pub waba : Text → Exchange (Option GraphWaba)
  pub phones : Text → ℕ → Text → Exchange (Option (Page (Option GraphPhone)))
  pub profiles : Text → ℕ → Text → Exchange (Option (Page (Option Fields)))
  pub subscriptions : Text → ℕ → Text → Exchange (Option (Page (Option Text)))

abbrev pub profile_keys : List Text
profile_keys =
    text "about"
    ∷ text "address"
    ∷ text "description"
    ∷ text "email"
    ∷ text "profile_picture_url"
    ∷ text "websites"
    ∷ text "vertical"
    ∷ text "messaging_product"
    ∷ []

-- `filtered`: the known fields only
unfoldable pub known_fields : List Text → Fields → Fields
known_fields [] fields = []
known_fields (key ∷ keys) fields = elim (find (λ f. f.0 == key) fields) [
  | none ↦ known_fields keys fields
  | some f ↦ (key, f.1) ∷ known_fields keys fields
]

abbrev pub invalid : {A : Type 0} → Result GraphError A
invalid = err (graph_error invalid_response 0 false)

module _ (version : Text) (net : Network) where
  -- The one profile of a phone
  unfoldable pub profile_of : Text → Result GraphError Fields
  profile_of id =
      let path = id ++ text "/whatsapp_business_profile" in
      (pages version path (net.profiles path)).1 >>= λ found. elim found [
        | [] ↦ invalid
        | p ∷ ps ↦ elim ps [
          | [] ↦ elim p [ none ↦ invalid | some fields ↦ ok (known_fields profile_keys fields) ]
          | _ ∷ _ ↦ invalid
        ]
      ]

  -- The loop over the phones
  unfoldable pub phone_loop :
      List Text → List (Option GraphPhone) → Result GraphError (List (GraphPhone × Fields))
  phone_loop seen [] = ok []
  phone_loop seen (none ∷ ps) = invalid
  phone_loop seen (some p ∷ ps) =
      if not (is_numeric_id p.id) || any (λ s. s == p.id) seen
      then invalid
      else profile_of p.id >>= λ fields.
          phone_loop (p.id ∷ seen) ps >>= λ rest. ok ((p, fields) ∷ rest)

  -- The loop over the subscriptions
  unfoldable pub subscribed_loop : Text → Bool → List (Option Text) → Result GraphError Bool
  subscribed_loop app found [] = ok found
  subscribed_loop app found (none ∷ ss) = invalid
  subscribed_loop app found (some id ∷ ss) =
      if id == [] then invalid else subscribed_loop app (found || id == app) ss

  -- `Snapshot`
  unfoldable pub snapshot : Text → Text → Result GraphError Snapshot
  snapshot waba app =
      if not (is_numeric_id waba) || not (is_numeric_id app)
      then err (graph_error invalid_request 0 false)
      else get version (net.waba waba) >>= λ body. elim body [
        | none ↦ invalid
        | some w ↦
            if not (w.id == waba)
            then invalid
            else (let phones_path = waba ++ text "/phone_numbers" in
                let subscribed_path = waba ++ text "/subscribed_apps" in
                (pages version phones_path (net.phones phones_path)).1 >>= λ phones.
                phone_loop [] phones >>= λ observed.
                (pages version subscribed_path (net.subscriptions subscribed_path)).1
                >>= λ subscriptions. subscribed_loop app false subscriptions >>= λ subscribed.
                    ok record { waba = w; phones = observed; subscribed = subscribed })
      ]
