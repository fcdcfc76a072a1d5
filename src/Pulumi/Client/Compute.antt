-- ===== src/Pulumi/Client/Compute.antt =====
-- compute.go: the client's calls about key pairs and instances.
use nobus_csi.Common.{
  ℕ, Bool, ◌||◌, String, List, [], ◌∷◌, ◌++◌, Option, none, some, ◌==◌, if◌then◌else◌,
}
use nobus_csi.Common.Assoc.{Dict}
use nobus_csi.Cloud.Errors.{Sentinel, Result, ok, err, sentinel}
use nobus_csi.Cloud.Interface.{Run}
use nobus_csi.Cloud.Run.{return, lift, ◌>>=◌}
use nobus_csi.Pulumi.Client.Shapes.{
  Payload, no_payload, key_pair_payload, instance_payload, instance_update_payload, resize_payload,
  server_payload, security_group_payload, tags_payload, KeyPair, CreateKeyPairRequest, Instance,
  CreateInstanceRequest, UpdateInstanceRequest, ResizeInstanceRequest, BaseServerRequest,
  SecurityGroupActionRequest, SetTagsRequest,
}
use nobus_csi.Pulumi.Client.Calls.{
  Transport, Session, Context, request, project_query, do_request, decoded, ignored, is_wanted,
}
use nobus_csi.Pulumi.Client.Lists.{decode_list}
use nobus_csi.Pulumi.Client.Waits.{wait_until}

abbrev key_pair_path : String
key_pair_path = "/api/v3/keypair/"

abbrev instance_path : String
instance_path = "/api/v3/instance"

unfoldable pub find_key_pair : String → List KeyPair → Result KeyPair
find_key_pair wanted [] = err (sentinel Sentinel.not_found)
find_key_pair wanted (k ∷ ks) =
    if k.id == wanted || k.name == wanted then ok k else find_key_pair wanted ks

unfoldable pub find_instance : String → List Instance → Result Instance
find_instance server [] = err (sentinel Sentinel.not_found)
find_instance server (i ∷ is) = if i.id == server then ok i else find_instance server is

abbrev delete_query : String → String → String → Bool → Dict
delete_query project zone server with_volume =
    project_query project zone
    ++ (("server_id", server) ∷ (if with_volume then ("delete_volume", "true") ∷ [] else []))

module _ (T : Transport) where
  unfoldable pub create_key_pair : Context → CreateKeyPairRequest → Run (Session T) KeyPair
  create_key_pair ctx req =
      do_request T ctx (request "POST" key_pair_path none (key_pair_payload req))
        (λ b. decoded T (T.as_key_pair b))

  unfoldable pub list_key_pairs : Context → String → String → Run (Session T) (List KeyPair)
  list_key_pairs ctx project zone = do
    listed ←
        do_request T ctx
          (request "GET" key_pair_path (some (project_query project zone)) no_payload)
          (λ b. decoded T (T.as_key_pairs b))
    lift (decode_list listed)

  unfoldable pub get_key_pair : Context → String → String → String → Run (Session T) KeyPair
  unfolding find_key_pair
  get_key_pair ctx project zone wanted = do
    items ← list_key_pairs ctx project zone
    lift (find_key_pair wanted items)

  unfoldable pub delete_key_pair : Context → String → String → String → Run (Session T) Unit
  delete_key_pair ctx project zone id =
      do_request T ctx
        (request "DELETE" key_pair_path
          (some (project_query project zone ++ ("keypair_id", id) ∷ [])) no_payload)
        (ignored T)

  unfoldable pub create_instance : Context → CreateInstanceRequest → Run (Session T) Instance
  create_instance ctx req =
      do_request T ctx (request "POST" instance_path none (instance_payload req))
        (λ b. decoded T (T.as_instance b))

  unfoldable pub get_instance_from_list :
      Context → String → String → String → Run (Session T) Instance
  unfolding find_instance
  get_instance_from_list ctx project zone server = do
    listed ←
        do_request T ctx
          (request "GET" "/api/v3/instance/list"
            (some (project_query project zone ++ ("id", server) ∷ [])) no_payload)
          (λ b. decoded T (T.as_instances b))
    items ← lift (decode_list listed)
    lift (find_instance server items)

  unfoldable pub get_instance : Context → String → String → String → Run (Session T) Instance
  get_instance ctx project zone server = do
    got ←
        do_request T ctx
          (request "GET" instance_path
            (some (project_query project zone ++ ("server_id", server) ∷ [])) no_payload)
          (λ b. decoded T (T.as_instance b))
    if got.id == "" then get_instance_from_list ctx project zone server else return got

  unfoldable pub delete_instance : Context → String → String → String → Bool → Run (Session T) Unit
  delete_instance ctx project zone server with_volume =
      do_request T ctx
        (request "DELETE" instance_path (some (delete_query project zone server with_volume))
          no_payload)
        (ignored T)

  -- A request whose reply is not read.
  abbrev post : Context → String → Payload → Run (Session T) Unit
  post ctx path payload = do_request T ctx (request "POST" path none payload) (ignored T)

  unfoldable pub update_instance : Context → UpdateInstanceRequest → Run (Session T) Unit
  update_instance ctx req = post ctx "/api/v3/instance/update-server" (instance_update_payload req)

  unfoldable pub resize_instance : Context → ResizeInstanceRequest → Run (Session T) Unit
  resize_instance ctx req = post ctx "/api/v3/instance/resize" (resize_payload req)

  unfoldable pub confirm_resize : Context → BaseServerRequest → Run (Session T) Unit
  confirm_resize ctx req = post ctx "/api/v3/instance/confirm-resize" (server_payload req)

  unfoldable pub attach_security_group : Context → SecurityGroupActionRequest → Run (Session T) Unit
  attach_security_group ctx req =
      post ctx "/api/v3/instance/attach-security-group" (security_group_payload req)

  unfoldable pub remove_security_group : Context → SecurityGroupActionRequest → Run (Session T) Unit
  remove_security_group ctx req =
      post ctx "/api/v3/instance/remove-security-group" (security_group_payload req)

  unfoldable pub set_tags : Context → SetTagsRequest → Run (Session T) Unit
  set_tags ctx req = post ctx "/api/v3/instance/set-tags" (tags_payload req)

  look_for_status :
      List String → String → String → String → Context → Run (Session T) (Option Instance)
  look_for_status want project zone server ctx = do
    got ← get_instance ctx project zone server
    return (if is_wanted T want got.status then some got else none)

  unfoldable pub wait_instance_status :
      ℕ → Context → String → String → String → List String → Run (Session T) Instance
  unfolding look_for_status
  wait_instance_status poll ctx project zone server want =
      wait_until T poll ctx 900_000 (look_for_status want project zone server)
