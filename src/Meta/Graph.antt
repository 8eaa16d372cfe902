-- ===== src/Meta/Graph.antt =====
-- Reading Meta's Graph: `get` and `pages` of backend/internal/meta/graph.go. The network is a
-- parameter: what each request comes to.
pub mod Pages
use whats.Base.{
  ℕ, zero, suc, ◌+◌, String, Bool, true, false, not, ◌&&◌, ◌||◌, List, [], ◌∷◌, ◌++◌, Option, none,
  some, Result, ok, err, ltb, leb, length, any, all, is_some, ◌==◌, nat_eq, list_eq, if◌then◌else◌,
}
use whats.Inbox.Text.{Text, byte_length}
use whats.Meta.Events.{text}

pub data GraphKind : Type 0 where
  invalid_request transport response_too_large invalid_response domain authentication : GraphKind
  permission rate_limit transient version_mismatch unsafe_pagination : GraphKind
  pagination_loop pagination_limit attempts_exhausted : GraphKind

-- `GraphError`; of the codes of Meta no negative one is known.
pub record GraphError : Type 0 where
  pub kind : GraphKind
  pub status : ℕ
  pub code : ℕ
  pub subcode : ℕ
  pub retryable : Bool
  pub request_id : Text

abbrev pub graph_error : GraphKind → ℕ → Bool → GraphError
graph_error kind status retryable = record {
  kind = kind;
  status = status;
  code = 0;
  subcode = 0;
  retryable = retryable;
  request_id = [];
}

-- `envelope.Error`
pub record ErrorBody : Type 0 where
  pub code : ℕ
  pub subcode : ℕ
  pub is_transient : Bool

pub record Reply (A : Type 0) : Type 0 where
  pub status : ℕ
  pub request_id : Text
  pub version : Text
  pub error : Option ErrorBody
  pub body : A

-- What a request comes to: it cannot be built, `Do` or the read fails, the body is longer than 2 MiB,
-- it is not JSON, or there is a reply.
pub data Exchange (A : Type 0) : Type 0 where
  not_built failed too_large : Exchange A
  garbled : ℕ → Exchange A
  replied : Reply A → Exchange A

abbrev pub is_diagnostic : ℕ → Bool
is_diagnostic c =
    (leb 48 c && leb c 57)
    || (leb 65 c && leb c 90)
    || (leb 97 c && leb c 122)
    || c == 45
    || c == 95

-- `safeDiagnostic`
unfoldable pub safe_diagnostic : Text → Text
safe_diagnostic v = if leb 1 (length v) && leb (length v) 128 && all is_diagnostic v then v else []

-- The `switch` on a refused request: the kind, and whether to try again.
unfoldable pub refusal : ℕ → ℕ → Bool → GraphKind × Bool
refusal status code is_transient =
    if status == 401 || code == 190 || code == 102
    then (authentication, false)
    else if code == 10 || code == 200 || status == 403
    then (permission, false)
    else if status == 429 || code == 4 || code == 17 || code == 32 || code == 613
    then (rate_limit, true)
    else if leb 500 status || is_transient
    then (transient, true)
    else if status == 400
    then (invalid_request, false)
    else (domain, false)

abbrev pub error_code : Option ErrorBody → ℕ
error_code e = elim e [ none ↦ 0 | some b ↦ b.code ]

abbrev pub refused : {A : Type 0} → Reply A → GraphError
refused r =
    let v =
      refusal r.status (error_code r.error)
        (elim r.error [ none ↦ false | some b ↦ b.is_transient ]) in
    record {
      kind = v.0;
      status = r.status;
      code = error_code r.error;
      subcode = elim r.error [ none ↦ 0 | some b ↦ b.subcode ];
      retryable = v.1;
      request_id = safe_diagnostic r.request_id;
    }

-- `get`
unfoldable pub get : {A : Type 0} → Text → Exchange A → Result GraphError A
get version not_built = err (graph_error invalid_request 0 false)
get version failed = err (graph_error transport 0 true)
get version too_large = err (graph_error response_too_large 0 false)
get version (garbled status) = err (graph_error invalid_response status false)
get version (replied r) =
    if ltb r.status 200 || leb 300 r.status || is_some r.error
    then err (refused r)
    else if not (r.version == []) && not (r.version == version)
    then err (graph_error version_mismatch 0 false)
    else ok r.body

-- `url.Parse` of `paging.next`
pub record Url : Type 0 where
  pub scheme : Text
  pub host : Text
  pub has_user : Bool
  pub fragment : Text
  pub path : Text
  pub after : Text

-- A page; the next one is `none` if there is none, and `some none` if its address does not parse.
pub record Page (A : Type 0) : Type 0 where
  pub data_items : List A
  pub next : Option (Option Url)

-- Only the same collection of the same host over TLS is followed.
unfoldable pub is_safe : Text → Text → Url → Bool
is_safe version path u =
    u.scheme == text "https"
    && u.host == text "graph.facebook.com"
    && not u.has_user
    && u.fragment == []
    && u.path == text "/" ++ version ++ text "/" ++ path

abbrev pub is_seen : Text → List Text → Bool
is_seen c seen = any (λ s. s == c) seen

-- The requests made, by their cursors from the last to the first, and the result.
abbrev pub Paged : Type 0 → Type 0
Paged A = List Text × Result GraphError (List A)

-- What a page leads to: the end, or another request.
pub data Turn (A : Type 0) : Type 0 where
  stops : Result GraphError (List A) → Turn A
  follows : Text → List A → Turn A

abbrev pub fails_with : {A : Type 0} → GraphKind → Turn A
fails_with kind = stops (err (graph_error kind 0 false))

module _ {A : Type 0} (version path : Text) (fetch : ℕ → Text → Exchange (Option (Page A))) where
  -- The body of the loop of `pages`, after the cursors in `seen` have been asked for. A body that is
  -- not a page, or whose `data` is null, is `none`.
  unfoldable pub turn : ℕ → List Text → Text → List A → Turn A
  turn page seen cursor out = elim (get version (fetch page cursor)) [
    | err e ↦ stops (err e)
    | ok none ↦ fails_with invalid_response
    | ok (some v) ↦
        let out' = out ++ v.data_items in
        if ltb 10000 (length out') then fails_with pagination_limit else elim v.next [
          | none ↦ stops (ok out')
          | some none ↦ fails_with unsafe_pagination
          | some (some u) ↦
              if not (is_safe version path u)
              then fails_with unsafe_pagination
              else if u.after == [] || ltb 4096 (byte_length u.after) || is_seen u.after seen
              then fails_with pagination_loop
              else follows u.after out'
        ]
  ]

  -- The loop, by the number of requests left; the cursor of the first request is empty, as no other
  -- one is.
  unfoldable pub page_loop : ℕ → ℕ → List Text → Text → List A → Paged A
  page_loop zero page seen cursor out = (seen, err (graph_error pagination_limit 0 false))
  page_loop (suc left) page seen cursor out = elim (turn page (cursor ∷ seen) cursor out) [
    | stops result ↦ (cursor ∷ seen, result)
    | follows after out' ↦ page_loop left (page + 1) (cursor ∷ seen) after out'
  ]

  -- `pages`: at most a hundred requests
  unfoldable pub pages : Paged A
  pages = page_loop 100 0 [] [] []
