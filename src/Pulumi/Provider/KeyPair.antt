-- ===== src/Pulumi/Provider/KeyPair.antt =====
-- The resource KeyPair of compute.go.
use nobus_csi.Common.{Bool, not, ◌&&◌, String, [], ◌∷◌, Option, none, some, ◌==◌, if◌then◌else◌}
use nobus_csi.Common.Text.{or_else}
use nobus_csi.Cloud.Errors.{Sentinel, Error, errors_is}
use nobus_csi.Cloud.Interface.{Run}
use nobus_csi.Cloud.Run.{lift, ◌>>=◌}
use nobus_csi.Pulumi.Client.Shapes.{CreateKeyPairRequest}
use nobus_csi.Pulumi.Client.Shapes as Api
use nobus_csi.Pulumi.Client.Calls.{Transport, Session, Context}
use nobus_csi.Pulumi.Client.Compute.{create_key_pair, get_key_pair, delete_key_pair}
use nobus_csi.Pulumi.Provider.Scope.{Config, scoped_id, resolve_scope, resolve_import}
use nobus_csi.Pulumi.Provider.Diff.{DiffResponse, replace_diff, compare_all}
use nobus_csi.Pulumi.Provider.Check.{PropertyMap, Checked, check_resource_args}
use nobus_csi.Pulumi.Provider.Steps.{Created, Reading, finish, or_return, gone_is_fine}

pub record KeyPairArgs : Type 0 where
  pub name : String
  pub availability_zone : String
  pub project_id : String

pub record KeyPairState : Type 0 where
  pub args : KeyPairArgs
  pub key_pair_id : String
  pub public_key : String
  pub private_key : String
  pub fingerprint : String
  pub key_type : String

-- `KeyPairArgs{}` and `KeyPairState{}`
abbrev pub no_args : KeyPairArgs
no_args = record { name = ""; availability_zone = ""; project_id = "" }

abbrev pub plain : KeyPairArgs → KeyPairState
plain args = record {
  args = args;
  key_pair_id = "";
  public_key = "";
  private_key = "";
  fingerprint = "";
  key_type = "";
}

abbrev pub no_state : KeyPairState
no_state = plain no_args

unfoldable pub check :
    (PropertyMap → Checked KeyPairArgs) → Option Config → PropertyMap → Checked KeyPairArgs
check default_check cfg inputs =
    check_resource_args default_check cfg inputs (λ a. a.availability_zone)

unfoldable pub diff : KeyPairState → KeyPairArgs → DiffResponse
unfolding replace_diff compare_all
diff olds news =
    let old = olds.args in
    compare_all
      (replace_diff "availabilityZone" (
          not (old.availability_zone == news.availability_zone)
          && not (news.availability_zone == ""))
        ∷ replace_diff "name" (not (old.name == news.name) && not (news.name == ""))
        ∷ replace_diff "projectId"
            (not (old.project_id == news.project_id) && not (news.project_id == ""))
        ∷ [])
      []

abbrev create_request : String → String → KeyPairArgs → CreateKeyPairRequest
create_request project zone input = record {
  name = input.name;
  project_id = project;
  availability_zone = zone;
}

abbrev refused : Error → Created KeyPairState
refused e = record { id = ""; state = no_state; failed = some e }

abbrev located : String → String → KeyPairArgs → KeyPairArgs
located project zone a = record a { project_id = project; availability_zone = zone }

-- A key pair with no identifier goes by its name.
abbrev key_id : Api.KeyPair → String
key_id k = or_else k.id k.name

unfoldable pub created_state : KeyPairArgs → Api.KeyPair → KeyPairState
created_state input k = record {
  args = record input { name = or_else input.name k.name };
  key_pair_id = key_id k;
  public_key = k.public_key;
  private_key = k.private_key;
  fingerprint = k.fingerprint;
  key_type = k.key_type;
}

-- A private key that the API no longer tells is kept.
unfoldable pub read_state : String → String → KeyPairState → Api.KeyPair → KeyPairState
read_state project zone state k = record {
  args = record { name = k.name; availability_zone = zone; project_id = project };
  key_pair_id = key_id k;
  public_key = k.public_key;
  private_key = or_else k.private_key state.private_key;
  fingerprint = k.fingerprint;
  key_type = k.key_type;
}

module _ (T : Transport) (cfg : Config) (ctx : Context) where
  unfoldable pub create : String → KeyPairArgs → Bool → Session T → Created KeyPairState × Session T
  unfolding created_state
  create name args preview =
      or_return (lift (resolve_scope cfg args.project_id args.availability_zone)) refused (λ place.
        let project = place.project in
        let zone = place.zone in
        let input = located project zone args in
        if preview
        then finish
            (record { id = scoped_id zone project name; state = plain input; failed = none })
        else or_return (create_key_pair T ctx (create_request project zone input)) refused
            (λ created. finish (record {
              id = scoped_id zone project (key_id created);
              state = created_state input created;
              failed = none;
            })))

  unfoldable pub read :
      String → KeyPairArgs → KeyPairState → Session T → Reading KeyPairArgs KeyPairState × Session T
  unfolding read_state
  read id inputs state =
      let kept : Error → Reading KeyPairArgs KeyPairState =
        λ e. record { id = id; args = inputs; state = state; failed = some e } in
      or_return
        (lift (
          resolve_import cfg id (or_else state.args.project_id inputs.project_id)
            (or_else state.args.availability_zone inputs.availability_zone)))
        kept
        (λ place.
          or_return (get_key_pair T ctx place.project place.zone place.id)
            (λ e.
              if errors_is e Sentinel.not_found
              then record { id = ""; args = no_args; state = no_state; failed = none }
              else kept e)
            (λ got.
              let seen = read_state place.project place.zone state got in
              finish (record {
                id = scoped_id place.zone place.project seen.key_pair_id;
                args = seen.args;
                state = seen;
                failed = none;
              })))

  unfoldable pub delete : String → KeyPairState → Run (Session T) Unit
  delete id state = do
    place ← lift (resolve_import cfg id state.args.project_id state.args.availability_zone)
    gone_is_fine (delete_key_pair T ctx place.project place.zone place.id)
