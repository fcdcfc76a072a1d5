-- ===== src/Tests/Pulumi.antt =====
-- The properties of the Pulumi client and provider, at concrete inputs.
use nobus_csi.Common.{◌+◌, ◌≤◌, ◌≡◌, refl, true, false, String, List, [], ◌∷◌, none, eq_iff, arith}
use nobus_csi.Common.Int.{pos}
use nobus_csi.Common.Assoc.{lookup}
use nobus_csi.Common.Text.{contains, split_slash, is_blank}
use nobus_csi.Common.Text.Laws.{has_slash}
use mathlib.Core.List.Perm
use nobus_csi.Cloud.Errors.{ok}
use nobus_csi.Cloud.Run.{◌>>=◌}
use nobus_csi.Pulumi.Client.Shapes.{no_payload, Addresses}
use nobus_csi.Pulumi.Client.Shapes as Api
use nobus_csi.Pulumi.Client.Calls.{Session, HttpRequest, request, do_request, ignored, pause}
use nobus_csi.Pulumi.Client.Calls.Answers.{Answers}
use nobus_csi.Pulumi.Client.Calls.Retries.{do_request-Within, do_request-persists, is_unavailable}
use nobus_csi.Pulumi.Client.Waits.{within, rounds, poll_until}
use nobus_csi.Pulumi.Client.Addresses.{parse_addresses}
use nobus_csi.Pulumi.Client.Addresses.Order.{parse_addresses-perm}
use nobus_csi.Pulumi.Client.Storage.{create_volume, wait_volume_status, look_for_status}
use nobus_csi.Pulumi.Client.Storage.Ready.{
  IsReady, wait_volume_status-IsReady, wait_volume_status-enough,
}
use nobus_csi.Pulumi.Provider.Scope.{
  Location, place, scoped_id, bare_ids, bare_resource_id, parse_scoped_id, resolve_scope,
  resolve_import,
}
use nobus_csi.Pulumi.Provider.Scope.Laws.{resolve_import-scoped_id}
use nobus_csi.Pulumi.Provider.Diff.{DiffKind, diff_response}
use nobus_csi.Pulumi.Provider.Volume.{VolumeArgs, state_from_volume, diff}
use nobus_csi.Pulumi.Provider.Volume as Volume
use nobus_csi.Pulumi.Provider.Volume.Lifecycle.{create, create_request, located}
use nobus_csi.Pulumi.Provider.Volume.Settled.{diff-state_from_volume}
use nobus_csi.Pulumi.Provider.Volume.Kept.{create-keeps}
use nobus_csi.Pulumi.Provider.VolumeBackup as Backup
use nobus_csi.Pulumi.Provider.VolumeBackup.Settled.{diff-state_from_backup}
use nobus_csi.Pulumi.Provider.Instance as Instance
use nobus_csi.Pulumi.Provider.Instance.Update.{change_groups}
use nobus_csi.Pulumi.Provider.Instance.Groups.{GroupApi, change_groups-holds}
use nobus_csi.Tests.Data.{apart}
use nobus_csi.Tests.PulumiData.{
  endless, busy, one_volume_api, made_volume, config, contains-without, group_api, entry,
}

abbrev start : Session busy
start = record { remote = 0; elapsed = 0 }

abbrev get : HttpRequest
get = request "GET" "/api/v3/volume/list" none no_payload

abbrev end : Session busy
end = (do_request busy endless get (ignored busy) start).1

do_request-Within_example :
    (0 ≤ end.elapsed) × (end.elapsed ≤ 0 + 2_800) × (0 + 1 ≤ end.remote) × (end.remote ≤ 0 + 4)
do_request-Within_example =
    do_request-Within busy (λ n. n) (λ q t. refl) endless get (ignored busy) start

given_up : is_unavailable (do_request busy endless get (ignored busy) start).0 ≡ true
unfolding do_request ◌>>=◌ pause
given_up = refl

do_request-persists_example : end.remote ≡ 0 + 4
do_request-persists_example =
    do_request-persists busy (λ n. n) (λ q t. refl) endless get (ignored busy) (λ t. refl) start
      given_up

abbrev ready : List String
ready = "available" ∷ []

wait_volume_status-IsReady_example :
    Answers
      (IsReady one_volume_api ready "project" "az1" "vol-1")
      (wait_volume_status one_volume_api 2_000 endless "project" "az1" "vol-1" ready)
wait_volume_status-IsReady_example =
    wait_volume_status-IsReady one_volume_api ready "project" "az1" "vol-1" 2_000 endless

abbrev fresh : Session one_volume_api
fresh = record { remote = 0; elapsed = 0 }

wait_volume_status-enough_example :
    poll_until one_volume_api 2_000
      (within endless (0 + 300_000))
      200
      (look_for_status one_volume_api ready "project" "az1" "vol-2")
      fresh
    ≡ wait_volume_status one_volume_api 2_000 endless "project" "az1" "vol-2" ready fresh
unfolding rounds
wait_volume_status-enough_example =
    wait_volume_status-enough one_volume_api ready "project" "az1" "vol-2" 2_000 200 endless fresh
      (omega arith) (omega arith)

abbrev one_way : Addresses
one_way = ("b", entry "10.0.0.2" ∷ []) ∷ ("a", entry "10.0.0.1" ∷ []) ∷ []

abbrev other_way : Addresses
other_way = ("a", entry "10.0.0.1" ∷ []) ∷ ("b", entry "10.0.0.2" ∷ []) ∷ []

same_networks : (name : String) → lookup name one_way ≡ lookup name other_way
same_networks name = ground (arith, eq_iff "a" name, eq_iff "b" name, apart "a" "b" refl)

parse_addresses-perm_example : parse_addresses one_way ≡ parse_addresses other_way
parse_addresses-perm_example =
    parse_addresses-perm one_way other_way same_networks (Perm.swap "a" "b" [])

no_slash_zone : has_slash "az1" ≡ false
unfolding has_slash
no_slash_zone = refl

no_slash_project : has_slash "project" ≡ false
unfolding has_slash
no_slash_project = refl

no_slash_id : has_slash "vol-1" ≡ false
unfolding has_slash
no_slash_id = refl

resolve_import-scoped_id_example :
    resolve_import config (scoped_id "az1" "project" "vol-1") "" ""
    ≡ ok (place "az1" "project" "vol-1")
unfolding is_blank
resolve_import-scoped_id_example =
    resolve_import-scoped_id "az1" "project" "vol-1" no_slash_zone no_slash_project no_slash_id
      config (apart "project" "" refl) refl

abbrev groups : List String → Instance.InstanceArgs
groups gs = record Instance.no_args { security_groups = gs }

abbrev old_groups : Instance.InstanceArgs
old_groups = groups ("web" ∷ "ssh" ∷ [])

abbrev pub new_groups : Instance.InstanceArgs
new_groups = groups ("ssh" ∷ "az1/project/db" ∷ [])

holds_groups :
    GroupApi group_api 2_000 endless "project" "az1" "srv-1" old_groups new_groups
      (λ gs x. contains gs x)
holds_groups = record {
  removes = λ g t. refl;
  removed = λ g x t. contains-without g x t;
  attaches = λ g t. refl;
  attached = λ g x t. refl;
}

abbrev held : Session group_api
held = record { remote = "web" ∷ "ssh" ∷ []; elapsed = 0 }

same_groups :
    (y : String) → contains held.remote y ≡ contains (bare_ids old_groups.security_groups) y
unfolding bare_ids bare_resource_id parse_scoped_id split_slash
same_groups y = refl

change_groups-holds_example :
    ((change_groups group_api 2_000 endless "project" "az1" "srv-1" old_groups new_groups held).0
      ≡ ok tt)
    × (contains
          (change_groups group_api 2_000 endless "project" "az1" "srv-1" old_groups new_groups
            held).1.remote
          "db"
        ≡ contains (bare_ids new_groups.security_groups) "db")
change_groups-holds_example =
    change_groups-holds group_api 2_000 endless "project" "az1" "srv-1" old_groups new_groups
      (λ gs x. contains gs x) holds_groups held "db" same_groups

abbrev pub volume_args : VolumeArgs
volume_args = record Volume.no_args { size = pos 2; availability_zone = "az1"; name = "data" }

diff-state_from_volume_example :
    diff (state_from_volume volume_args (record made_volume { description = "disk" })) volume_args
    ≡ diff_response (("description", DiffKind.update) ∷ [])
diff-state_from_volume_example =
    diff-state_from_volume volume_args (record made_volume { description = "disk" }) refl

abbrev pub backup_args : Backup.VolumeBackupArgs
backup_args = record Backup.no_args { volume_id = "vol-1"; availability_zone = "az1" }

abbrev backup : Api.Backup
backup = record {
  id = "b-1";
  name = "";
  description = "";
  volume_id = "vol-1";
  size = pos 2;
  container = "volumes_backup";
  status = "available";
  created_at = "";
  availability_zone = "az1";
  metadata = [];
}

diff-state_from_backup_example :
    Backup.diff (Backup.state_from_backup backup_args backup) backup_args
    ≡ diff_response (("container", DiffKind.update_replace) ∷ [])
diff-state_from_backup_example = diff-state_from_backup backup_args backup refl

abbrev pub here : Location
here = record { project = "project"; zone = "az1" }

pub is_here : resolve_scope config volume_args.project_id volume_args.availability_zone ≡ ok here
unfolding resolve_scope is_blank
is_here = refl

abbrev after_create : Session one_volume_api
after_create = record { remote = 1; elapsed = 0 }

made :
    create_volume one_volume_api endless
      (create_request "project" "az1" (located "project" "az1" volume_args))
      fresh
    ≡ (ok made_volume, after_create)
unfolding create_volume do_request ◌>>=◌ bare_resource_id
made = refl

create-keeps_example :
    (create one_volume_api 2_000 config endless "data" volume_args false fresh).0.id
    ≡ scoped_id "az1" "project" "vol-1"
create-keeps_example =
    create-keeps one_volume_api 2_000 config endless here made_volume "data" volume_args fresh
      after_create is_here made
