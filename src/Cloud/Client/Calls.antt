-- ===== src/Cloud/Client/Calls.antt =====
-- `do`, `mapHTTPError`, `classifyClientError` and `zoneQuery`: one call of the API.
use nobus_csi.Common.{
  ℕ, Bool, not, ◌||◌, String, List, [], ◌∷◌, Option, none, some, leb, eqb, if◌then◌else◌,
}
use nobus_csi.Common.Text.{or_else}
use nobus_csi.Common.Assoc.{Dict}
use nobus_csi.Cloud.Errors.{Sentinel, Error, wrap, Result, ok, err, sentinel}
use nobus_csi.Cloud.Interface.{Run}
use nobus_csi.Cloud.Client.Api.{Payload, ApiVolume, ApiSnapshot}

-- The body of a reply, read as each structure that the client decodes. `message` is the empty text
-- where the body is no `errorResponse`; `drained` says whether it could be read to the end.
pub record Body : Type 0 where
  pub message : String
  pub volume : Option ApiVolume
  pub volumes : Option (List ApiVolume)
  pub snapshot : Option ApiSnapshot
  pub snapshots : Option (List ApiSnapshot)
  pub drained : Bool

-- A failed call wraps an error of the HTTP library, which may wrap the context's.
pub data Reply : Type 0 where
  unreachable : List Sentinel → Reply
  replied : ℕ → Body → Reply

pub record HttpRequest : Type 0 where
  pub method : String
  pub path : String
  pub query : Option Dict
  pub payload : Payload

-- The HTTP client, `http.StatusText`, and the text functions of Go's library that sort messages:
-- `mentions m w` is `strings.Contains(strings.ToLower(m), w)`.
pub record Transport : Type 1 where
  pub State : Type 0
  pub send : HttpRequest → State → Reply × State
  pub status_text : ℕ → String
  pub mentions : String → String → Bool

-- `NewClient` keeps the configuration.
pub record ClientConfig : Type 0 where
  pub project_id : String
  pub availability_zone : String

unfoldable pub zone_query : ClientConfig → String → Dict
zone_query config zone =
    ("project_id", config.project_id)
    ∷ ("availability_zone", or_else zone config.availability_zone)
    ∷ []

module _ (T : Transport) where
  unfoldable pub classify_client_error : String → Sentinel
  classify_client_error message =
      if T.mentions message "not found"
        || T.mentions message "does not exist"
        || T.mentions message "not attached"
        || T.mentions message "already detached"
      then Sentinel.not_found
      else if T.mentions message "already exist" || T.mentions message "duplicate"
      then Sentinel.already_exists
      else if T.mentions message "quota"
      then Sentinel.quota_exceeded
      else if T.mentions message "rate"
      then Sentinel.rate_limited
      else Sentinel.invalid

  -- The sentinel for an HTTP status; the message decides about the other statuses below 500.
  unfoldable pub http_sentinel : ℕ → String → Sentinel
  unfolding classify_client_error
  http_sentinel code message =
      if eqb code 404
      then Sentinel.not_found
      else if eqb code 409
      then Sentinel.conflict
      else if eqb code 429
      then Sentinel.rate_limited
      else if eqb code 401 || eqb code 403
      then Sentinel.unauthorized
      else if eqb code 413
      then Sentinel.quota_exceeded
      else if leb 500 code
      then Sentinel.unavailable
      else classify_client_error message

  unfoldable pub map_http_error : ℕ → Body → Error
  unfolding http_sentinel
  map_http_error code body =
      if not body.drained
      then sentinel Sentinel.unavailable
      else sentinel (http_sentinel code (or_else body.message (T.status_text code)))

  module _ {A : Type 0} where
    -- What decoding gives; a body that cannot be decoded is an invalid one.
    abbrev pub decoded : Option A → Result A
    decoded none = err (sentinel Sentinel.invalid)
    decoded (some a) = ok a

    of_reply : (Body → Result A) → Reply → Result A
    unfolding map_http_error
    of_reply decode (unreachable causes) = err (wrap (Sentinel.unavailable ∷ causes))
    of_reply decode (replied code body) =
        if leb 400 code then err (map_http_error code body) else decode body

    unfoldable pub do_request : HttpRequest → (Body → Result A) → Run T.State A
    unfolding of_reply
    do_request request decode s = let (reply, s') = T.send request s in (of_reply decode reply, s')

  -- A call whose reply is not decoded: it is read to the end.
  abbrev pub drain : Body → Result Unit
  drain body = if body.drained then ok tt else err (wrap [])
