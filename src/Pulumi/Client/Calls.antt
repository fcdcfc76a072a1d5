-- ===== src/Pulumi/Client/Calls.antt =====
-- `do`, `doOnce`, `mapHTTPError` and `projectQuery` of client.go: one call of the API, tried up to
-- four times.
pub mod Retries
pub mod Forward
pub mod Answers
pub mod Accepted
use nobus_csi.Common.{
  ℕ, zero, suc, ◌+◌, ◌*◌, Bool, true, false, not, ◌||◌, String, List, [], ◌∷◌, ◌++◌, map, Option,
  none, some, ◌==◌, leb, eqb, if◌then◌else◌,
}
use nobus_csi.Common.Assoc.{Dict}
use nobus_csi.Common.Text.{or_else, contains}
use nobus_csi.Cloud.Errors.{Sentinel, Error, wrap, errors_is, Result, ok, err, sentinel}
use nobus_csi.Cloud.Interface.{Run}
use nobus_csi.Cloud.Run.{return, raise, attempt, ◌>>=◌, ◌>>◌}
use nobus_csi.Pulumi.Client.Shapes.Networks.{
  NetworkSetup, Network, Subnet, Port, Router, SecurityGroup, SecurityGroupRule, FloatingIp,
}
use nobus_csi.Pulumi.Client.Shapes.{
  Payload, Volume, Snapshot, Backup, KeyPair, Instance, Flavor, Image, Project, Items,
}

pub record HttpRequest : Type 0 where
  pub method : String
  pub path : String
  pub query : Option Dict
  pub payload : Payload

abbrev pub request : String → String → Option Dict → Payload → HttpRequest
request method path query payload = record {
  method = method;
  path = path;
  query = query;
  payload = payload;
}

-- A failed call wraps an error of the HTTP library, which may wrap the context's.
pub data Reply (Body : Type 0) : Type 0 where
  unreachable : List Sentinel → Reply Body
  replied : ℕ → Body → Reply Body

-- The HTTP client, the bodies of its replies, `http.StatusText`, `strings.ToLower` and
-- `strings.EqualFold`.
-- `mentions m w` is `strings.Contains(strings.ToLower(m), w)`. `message` is what an error reply says:
-- the `message` of its JSON or its trimmed text, and none where the body could not be read.
pub record Transport : Type 1 where
  pub State : Type 0
  pub Body : Type 0
  pub send : HttpRequest → State → Reply Body × State
  pub message : Body → Option String
  pub status_text : ℕ → String
  pub mentions : String → String → Bool
  pub lower : String → String
  pub equal_fold : String → String → Bool
  pub as_volume : Body → Option Volume
  pub as_volumes : Body → Option (Items Volume)
  pub as_snapshot : Body → Option Snapshot
  pub as_snapshots : Body → Option (Items Snapshot)
  pub as_backup : Body → Option Backup
  pub as_backups : Body → Option (Items Backup)
  pub as_key_pair : Body → Option KeyPair
  pub as_key_pairs : Body → Option (Items KeyPair)
  pub as_instance : Body → Option Instance
  pub as_instances : Body → Option (Items Instance)
  pub as_flavors : Body → Option (Items Flavor)
  pub as_images : Body → Option (Items Image)
  pub as_projects : Body → Option (Items Project)
  pub as_zones : Body → Option (Items String)
  pub as_network_setup : Body → Option NetworkSetup
  pub as_network : Body → Option Network
  pub as_subnet : Body → Option Subnet
  pub as_port : Body → Option Port
  pub as_router : Body → Option Router
  pub as_security_group : Body → Option SecurityGroup
  pub as_security_group_rule : Body → Option SecurityGroupRule
  pub as_floating_ip : Body → Option FloatingIp

-- The transport's state, and the milliseconds that the client has waited.
pub record Session (T : Transport) : Type 0 where
  pub remote : T.State
  pub elapsed : ℕ

-- A context: its error at a time, none while it is not done.
abbrev pub Context : Type 0
Context = ℕ → Option Sentinel

unfoldable pub project_query : String → String → Dict
project_query project zone =
    ("project_id", project) ∷ (if zone == "" then [] else ("availability_zone", zone) ∷ [])

module _ (T : Transport) where
  unfoldable pub http_sentinel : ℕ → String → Sentinel
  http_sentinel code message =
      if eqb code 404
      then Sentinel.not_found
      else if eqb code 401 || eqb code 403
      then Sentinel.unauthorized
      else if eqb code 429
      then Sentinel.unavailable
      else if leb 500 code
      then Sentinel.unavailable
      else if T.mentions message "not found" || T.mentions message "does not exist"
      then Sentinel.not_found
      else Sentinel.invalid

  map_error : ℕ → Option String → Error
  map_error code none = sentinel Sentinel.unavailable
  map_error code (some message) =
      sentinel (http_sentinel code (or_else message (T.status_text code)))

  unfoldable pub map_http_error : ℕ → T.Body → Error
  unfolding map_error http_sentinel
  map_http_error code body = map_error code (T.message body)

  module _ {A : Type 0} where
    -- A body that cannot be decoded is an invalid one.
    abbrev pub decoded : Option A → Result A
    decoded none = err (sentinel Sentinel.invalid)
    decoded (some a) = ok a

    unfoldable pub of_reply : (T.Body → Result A) → Reply T.Body → Result A
    unfolding map_http_error
    of_reply decode (unreachable causes) = err (wrap (Sentinel.unavailable ∷ causes))
    of_reply decode (replied code body) =
        if leb 400 code then err (map_http_error code body) else decode body

    unfoldable pub do_once : HttpRequest → (T.Body → Result A) → Run (Session T) A
    unfolding of_reply
    do_once request decode s =
        let (reply, remote) = T.send request s.remote in
        (of_reply decode reply, record s { remote = remote })

  -- The error of a wait that the context ends.
  ended : Option Sentinel → ℕ → Run (Session T) Unit
  ended none delay s = (ok tt, record s { elapsed = s.elapsed + delay })
  ended (some e) delay s = (err (wrap (e ∷ [])), s)

  unfoldable pub pause : Context → ℕ → Run (Session T) Unit
  unfolding ended
  pause ctx delay s = ended (ctx (s.elapsed + delay)) delay s

  abbrev pub is_done : Option Sentinel → Bool
  is_done none = false
  is_done (some e) = true

  module _ {A : Type 0} (ctx : Context) (request : HttpRequest) (decode : T.Body → Result A) where
    -- Another attempt only where the API was unavailable and the context is not done.
    after_attempt : ℕ → Run (Session T) A → Result A → Run (Session T) A
    after_attempt number again (ok a) s = return a s
    after_attempt number again (err e) s =
        if not (errors_is e Sentinel.unavailable) || is_done (ctx s.elapsed)
        then raise e s
        else (pause ctx (number * number * 200) >> again) s

    -- The attempt of the number, with so many more to come.
    attempts : ℕ → ℕ → Run (Session T) A
    unfolding after_attempt do_once
    attempts zero number = do_once request decode
    attempts (suc more) number = do
      tried ← attempt (do_once request decode)
      after_attempt number (attempts more (suc number)) tried

    unfoldable pub do_request : Run (Session T) A
    unfolding attempts
    do_request = attempts 3 1

  -- A call whose reply is not decoded.
  abbrev pub ignored : T.Body → Result Unit
  ignored body = ok tt

  -- Whether a status is one of those that are waited for, whatever its letters' case.
  unfoldable pub is_wanted : List String → String → Bool
  is_wanted want status = contains (map T.lower want) (T.lower status)
