-- ===== src/Pulumi/Client/Catalog.antt =====
-- catalog.go: the client's lists of flavors, images, projects and availability zones.
use nobus_csi.Common.{◌||◌, String, List, [], ◌∷◌, Option, none, some, ◌==◌, if◌then◌else◌}
use nobus_csi.Common.Assoc.{Dict}
use nobus_csi.Cloud.Errors.{Sentinel, Result, ok, err, sentinel}
use nobus_csi.Cloud.Interface.{Run}
use nobus_csi.Cloud.Run.{lift, ◌>>=◌}
use nobus_csi.Pulumi.Client.Shapes.{no_payload, Flavor, Image, Project, Items}
use nobus_csi.Pulumi.Client.Calls.{
  Transport, Session, Context, request, project_query, do_request, decoded,
}
use nobus_csi.Pulumi.Client.Lists.{decode_list}

unfoldable pub find_flavor_in : String → List Flavor → Result Flavor
find_flavor_in wanted [] = err (sentinel Sentinel.not_found)
find_flavor_in wanted (f ∷ fs) =
    if f.id == wanted || f.name == wanted then ok f else find_flavor_in wanted fs

unfoldable pub find_image_in : String → List Image → Result Image
find_image_in wanted [] = err (sentinel Sentinel.not_found)
find_image_in wanted (i ∷ is) =
    if i.id == wanted || i.name == wanted then ok i else find_image_in wanted is

unfoldable pub find_project_in : String → List Project → Result Project
find_project_in wanted [] = err (sentinel Sentinel.not_found)
find_project_in wanted (p ∷ ps) =
    if p.id == wanted || p.name == wanted then ok p else find_project_in wanted ps

module _ (T : Transport) where
  listing :
      {A : Type 0}
      → Context
      → String
      → Option Dict
      → (T.Body → Option (Items A))
      → Run (Session T) (List A)
  listing ctx path query decode = do
    listed ← do_request T ctx (request "GET" path query no_payload) (λ b. decoded T (decode b))
    lift (decode_list listed)

  unfoldable pub list_flavors : Context → String → String → Run (Session T) (List Flavor)
  unfolding listing
  list_flavors ctx project zone =
      listing ctx "/api/v3/flavor/" (some (project_query project zone)) T.as_flavors

  unfoldable pub find_flavor : Context → String → String → String → Run (Session T) Flavor
  unfolding find_flavor_in
  find_flavor ctx project zone wanted = do
    items ← list_flavors ctx project zone
    lift (find_flavor_in wanted items)

  unfoldable pub list_images : Context → String → String → Run (Session T) (List Image)
  unfolding listing
  list_images ctx project zone =
      listing ctx "/api/v3/image/" (some (project_query project zone)) T.as_images

  unfoldable pub find_image : Context → String → String → String → Run (Session T) Image
  unfolding find_image_in
  find_image ctx project zone wanted = do
    items ← list_images ctx project zone
    lift (find_image_in wanted items)

  unfoldable pub list_projects : Context → Run (Session T) (List Project)
  unfolding listing
  list_projects ctx = listing ctx "/api/v3/project/" none T.as_projects

  unfoldable pub find_project : Context → String → Run (Session T) Project
  unfolding find_project_in
  find_project ctx wanted = do items ← list_projects ctx; lift (find_project_in wanted items)

  -- A zone is its name.
  unfoldable pub list_availability_zones : Context → String → String → Run (Session T) (List String)
  unfolding listing
  list_availability_zones ctx project zone =
      listing ctx "/api/v3/volume/availability_zone/list" (some (project_query project zone))
        T.as_zones
