-- ===== src/Pulumi/Provider/Functions.antt =====
-- The functions of functions.go, which look up flavors, images, projects and zones.
use nobus_csi.Common.{Bool, not, String, List, [], ◌∷◌, ◌==◌, if◌then◌else◌}
use nobus_csi.Common.Int.{ℤ}
use nobus_csi.Common.Lists.{keep}
use nobus_csi.Cloud.Errors.{Sentinel, Result, ok, err, sentinel}
use nobus_csi.Cloud.Interface.{Run}
use nobus_csi.Cloud.Run.{return, lift, ◌>>=◌}
use nobus_csi.Pulumi.Client.Shapes.{Project}
use nobus_csi.Pulumi.Client.Calls.{Transport, Session, Context}
use nobus_csi.Pulumi.Client.Catalog.{
  find_flavor, find_image, list_projects, find_project, list_availability_zones,
}
use nobus_csi.Pulumi.Provider.Scope.{Config, resolve_scope}

-- What to look up, and where.
pub record LookupArgs : Type 0 where
  pub name_or_id : String
  pub availability_zone : String
  pub project_id : String

pub record GetFlavorResult : Type 0 where
  pub flavor_id : String
  pub name : String
  pub vcpus : ℤ
  pub ram : ℤ
  pub disk : ℤ

pub record GetImageResult : Type 0 where
  pub image_id : String
  pub name : String

pub record GetProjectResult : Type 0 where
  pub project_id : String
  pub name : String
  pub availability_zone : String
  pub is_default : Bool

unfoldable pub project_result : Project → GetProjectResult
project_result p = record {
  project_id = p.id;
  name = p.name;
  availability_zone = p.availability_zone;
  is_default = p.is_default;
}

-- The default project, if there is one.
default_or : Result GetProjectResult → List Project → Result GetProjectResult
unfolding project_result
default_or other [] = other
default_or other (p ∷ ps) = if p.is_default then ok (project_result p) else default_or other ps

abbrev first_project : List Project → Result GetProjectResult
first_project [] = err (sentinel Sentinel.not_found)
first_project (p ∷ ps) = ok (project_result p)

-- The default project, else the first.
unfoldable pub choose_project : List Project → Result GetProjectResult
unfolding default_or
choose_project projects = default_or (first_project projects) projects

module _ (T : Transport) (cfg : Config) (ctx : Context) where
  unfoldable pub get_flavor : LookupArgs → Run (Session T) GetFlavorResult
  get_flavor input = do
    place ← lift (resolve_scope cfg input.project_id input.availability_zone)
    flavor ← find_flavor T ctx place.project place.zone input.name_or_id
    return (record {
      flavor_id = flavor.id;
      name = flavor.name;
      vcpus = flavor.vcpus;
      ram = flavor.ram;
      disk = flavor.disk;
    })

  unfoldable pub get_image : LookupArgs → Run (Session T) GetImageResult
  get_image input = do
    place ← lift (resolve_scope cfg input.project_id input.availability_zone)
    image ← find_image T ctx place.project place.zone input.name_or_id
    return (record { image_id = image.id; name = image.name })

  named_project : String → Run (Session T) GetProjectResult
  unfolding project_result
  named_project wanted = do project ← find_project T ctx wanted; return (project_result project)

  -- The project that is named, else the provider's, else one of those that are listed.
  unfoldable pub get_project : String → Run (Session T) GetProjectResult
  unfolding named_project choose_project
  get_project wanted =
      if not (wanted == "")
      then named_project wanted
      else if not (cfg.project_id == "")
      then named_project cfg.project_id
      else (do projects ← list_projects T ctx; lift (choose_project projects))

  -- The names of the zones that have one.
  unfoldable pub get_availability_zones : String → String → Run (Session T) (List String)
  get_availability_zones zone project = do
    place ← lift (resolve_scope cfg project zone)
    zones ← list_availability_zones T ctx place.project place.zone
    return (keep (λ z. not (z == "")) zones)
