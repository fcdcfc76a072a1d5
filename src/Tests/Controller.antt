-- ===== src/Tests/Controller.antt =====
-- The controller on the provider in memory.
use nobus_csi.Common.{◌≡◌, refl, ◌↔◌, ◌≤◌, ◌+◌, String, [], ◌∷◌, none, inr}
use nobus_csi.Common.Lists.{All}
use nobus_csi.Cloud.Errors.{ok, err}
use nobus_csi.Cloud.Fake.{fake_cloud}
use nobus_csi.Cloud.Fake.State.{Fake}
use nobus_csi.Cloud.Fake.Volumes.{get_volume_by_id}
use nobus_csi.Driver.Status.Laws.{Holds, Any, IsStatus}
use nobus_csi.Driver.Locks.{VolumeLocks, try_lock}
use nobus_csi.Driver.Locks.Interleaving.{
  Reached, start, next, enter, count, try_lock-exclusive, try_lock-free,
}
use nobus_csi.Driver.Session.Keeps.{KeepsLocks}
use nobus_csi.Driver.Service.{create_volume_request, publish_request as publish, handle}
use nobus_csi.Driver.Service.Statuses.{handle-KeepsLocks, handle-IsStatus}
use nobus_csi.Driver.Volumes.Create.{create_volume}
use nobus_csi.Driver.Volumes.Create.Outcome.{Answers, create_volume-Answers}
use nobus_csi.Driver.Volumes.Reconcile.{
  named_page, reconcile_volume_by_name, reconcile_created_volume,
}
use nobus_csi.Driver.Volumes.Reconcile.Calls.{
  logged, volumes_of, Redundant, reconcile_volume_by_name-Redundant,
}
use nobus_csi.Driver.Volumes.Reconcile.Rounds.{reconcile_created_volume-Waits}
use nobus_csi.Driver.Volumes.Attach.{publish_with, unpublish_with, device_context}
use nobus_csi.Driver.Volumes.Attach.Guards.{
  in_use_elsewhere, publish_with-refuses, publish_with-again, unpublish_with-done,
}
use nobus_csi.Tests.Data.{
  apart, never, test_config, test_request, test_spec, idle, attached_to, device_on, holding,
  empty_fake, session_on, driver_on, publish_request,
}

create_volume-Answers_example :
    Holds
      (Answers test_config test_request)
      IsStatus
      (create_volume fake_cloud never test_config test_request (driver_on empty_fake)).0
create_volume-Answers_example =
    create_volume-Answers fake_cloud never test_config test_request (driver_on empty_fake)

-- A volume of the name is there twice.
abbrev twice : Fake
twice = holding (("vol-2", idle "vol-2") ∷ ("vol-1", idle "vol-1") ∷ [])

reconcile_volume_by_name-Redundant_example :
    All
      (Redundant test_spec (volumes_of (fake_cloud.list_volumes (named_page "data" "az1") twice).0))
      (reconcile_volume_by_name
        (logged fake_cloud)
        test_spec
        (record { store = (twice, []); elapsed = 0 })).1.store.1
reconcile_volume_by_name-Redundant_example =
    reconcile_volume_by_name-Redundant fake_cloud test_spec twice 0

reconcile_created_volume-Waits_example :
    (reconcile_created_volume fake_cloud never test_spec (session_on empty_fake)).1.elapsed
    ≤ 0 + 12700
reconcile_created_volume-Waits_example =
    reconcile_created_volume-Waits fake_cloud never test_spec (session_on empty_fake)

abbrev busy : String → Fake
busy node = holding (("vol-1", attached_to node) ∷ [])

publish_with-refuses_example :
    publish_with fake_cloud test_config publish_request (session_on (busy "node-2"))
    ≡ (err in_use_elsewhere, session_on (busy "node-2"))
unfolding get_volume_by_id
publish_with-refuses_example =
    publish_with-refuses fake_cloud test_config publish_request (attached_to "node-2")
      (session_on (busy "node-2")) (busy "node-2") refl
      (inr (λ e. cc, (apart "node-2" "node-1" refl, tt)))

publish_with-again_example :
    publish_with fake_cloud test_config publish_request (session_on (busy "node-1"))
    ≡ (ok (device_context "/dev/vdb"), session_on (busy "node-1"))
unfolding get_volume_by_id
publish_with-again_example =
    publish_with-again fake_cloud test_config publish_request (attached_to "node-1")
      (session_on (busy "node-1")) (busy "node-1") [] [] (device_on "node-1") refl refl refl tt refl
      (apart "/dev/vdb" "" refl)

unpublish_with-done_example :
    unpublish_with fake_cloud test_config "vol-1" "node-1" (session_on (busy "node-2"))
    ≡ (ok tt, session_on (busy "node-2"))
unfolding get_volume_by_id
unpublish_with-done_example =
    unpublish_with-done fake_cloud test_config "vol-1" "node-1" (attached_to "node-2")
      (session_on (busy "node-2")) (busy "node-2") refl (apart "node-2" "node-1" refl, tt)

handle-KeepsLocks_example :
    KeepsLocks (handle fake_cloud (λ e. "") never test_config (create_volume_request test_request))
handle-KeepsLocks_example =
    handle-KeepsLocks fake_cloud (λ e. "") never test_config (create_volume_request test_request)

handle-IsStatus_example :
    Holds Any IsStatus
      (handle fake_cloud
        (λ e. "")
        never
        test_config
        (publish publish_request)
        (driver_on (busy "node-2"))).0
handle-IsStatus_example =
    handle-IsStatus fake_cloud (λ e. "") never test_config (publish publish_request)
      (driver_on (busy "node-2"))

abbrev one_locked : VolumeLocks
one_locked = ("vol-1", tt) ∷ []

one_entered : Reached (one_locked, "vol-1" ∷ [])
unfolding try_lock
one_entered = next start (enter "vol-1" [] one_locked [] refl)

try_lock-exclusive_example : count "vol-1" ("vol-1" ∷ []) ≤ 1
try_lock-exclusive_example = try_lock-exclusive one_locked ("vol-1" ∷ []) "vol-1" one_entered

try_lock-free_example : (try_lock "vol-1" one_locked ≡ none) ↔ (count "vol-1" ("vol-1" ∷ []) ≡ 1)
try_lock-free_example = try_lock-free one_locked ("vol-1" ∷ []) "vol-1" one_entered
