-- ===== src/Pulumi/Provider/Scope.antt =====
-- types.go and the resolution of provider.go: what an identifier says of where a resource is.
pub mod Laws
use nobus_csi.Common.{String, ◌<>◌, List, [], ◌∷◌, map, ◌==◌, if◌then◌else◌}
use nobus_csi.Common.Text.{or_else, split_slash, is_blank}
use nobus_csi.Cloud.Errors.{Result, ok, err, wrap}

-- `{availabilityZone}/{projectId}/{resourceId}`
unfoldable pub scoped_id : String → String → String → String
scoped_id zone project id = zone <> ("/" <> (project <> ("/" <> id)))

-- Where a resource is, and its bare identifier.
pub record Place : Type 0 where
  pub zone : String
  pub project : String
  pub id : String

pub record Location : Type 0 where
  pub project : String
  pub zone : String

abbrev pub place : String → String → String → Place
place zone project id = record { zone = zone; project = project; id = id }

-- Only the resource, unless there are one or two slashes.
parts_of : String → List String → Place
parts_of id (zone ∷ project ∷ resource ∷ []) = place zone project resource
parts_of id (zone ∷ resource ∷ []) = place zone "" resource
parts_of id other = place "" "" id

unfoldable pub parse_scoped_id : String → Place
unfolding parts_of
parse_scoped_id id = parts_of id (split_slash id)

unfoldable pub bare_resource_id : String → String
bare_resource_id id = (parse_scoped_id id).id

unfoldable pub bare_ids : List String → List String
bare_ids ids = map bare_resource_id ids

-- The provider's configuration: what a resource leaves out.
pub record Config : Type 0 where
  pub project_id : String
  pub availability_zone : String

-- An error of the provider's own wraps none of the client's.
unfoldable pub require_zone : String → Result Unit
require_zone zone = if is_blank zone then err (wrap []) else ok tt

module _ (cfg : Config) where
  abbrev given : String → Result String
  given project = if project == "" then err (wrap []) else ok project

  unfoldable pub resolve_project : String → Result String
  resolve_project project = given (or_else project cfg.project_id)

  placed : Result String → String → Result Location
  unfolding require_zone
  placed (err e) zone = err e
  placed (ok project) zone = elim (require_zone zone) [
    | err e ↦ err e
    | ok _ ↦ ok (record { project = project; zone = zone })
  ]

  unfoldable pub resolve_scope : String → String → Result Location
  unfolding resolve_project placed
  resolve_scope project zone = placed (resolve_project project) (or_else zone cfg.availability_zone)

  imported : String → Result Location → Result Place
  imported id (err e) = err e
  imported id (ok l) = ok (place l.zone l.project id)

  resolved : Place → String → String → Result Place
  unfolding imported resolve_scope
  resolved parsed project zone =
      imported parsed.id (resolve_scope (or_else project parsed.project) (or_else zone parsed.zone))

  unfoldable pub resolve_import : String → String → String → Result Place
  unfolding resolved
  resolve_import id project zone = resolved (parse_scoped_id id) project zone
