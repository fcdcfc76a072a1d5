-- ===== src/Tests/Provider.antt =====
-- The two providers: the one in memory, and the client on a small API.
use nobus_csi.Common.{ℕ, ◌+◌, ◌≤◌, ◌<◌, ◌≡◌, Bool, true, String, List, [], ◌∷◌, some, arith, leb}
use nobus_csi.Common.Int.{pos, mul64}
use nobus_csi.Common.Assoc.{lookup}
use nobus_csi.Common.Assoc.Entries.{Found}
use nobus_csi.Cloud.Page.Walk.{read_pages, read_pages-all}
use nobus_csi.Cloud.Fake.State.{new_fake}
use nobus_csi.Cloud.Fake.Volumes.{create_volume}
use nobus_csi.Cloud.Fake.Volumes.Invariant.{
  Call, create, attach, detach, perform_all, Sound, perform_all-Sound,
}
use nobus_csi.Cloud.Fake.Volumes.Again.{create_volume-again}
use nobus_csi.Cloud.Client.Api.{bytes_to_gib, bytes_per_gib}
use nobus_csi.Cloud.Client.Api.Sizes.{bytes_to_gib-covers}
use nobus_csi.Cloud.Client.Volumes.{Polling, delete_volume, wait_volume_deleted}
use nobus_csi.Cloud.Client.Volumes.Deleted.{EndsAbsent, delete_volume-EndsAbsent}
use nobus_csi.Cloud.Client.Volumes.Polls.{wait_volume_deleted-enough}
use nobus_csi.Tests.Data.{
  never, test_metadata, test_spec, empty_fake, test_transport, client_config, api_volume,
}

abbrev three : List String
three = "a" ∷ "b" ∷ "c" ∷ []

read_pages-all_example : read_pages 4 2 three "" ≡ some three
read_pages-all_example = read_pages-all 1 three (omega arith)

abbrev calls : List Call
calls = create test_spec ∷ attach "vol-1" "node-1" "az1" ∷ detach "vol-1" "node-1" "" ∷ []

perform_all-Sound_example :
    Found Sound "vol-1" (lookup "vol-1" (perform_all calls (new_fake test_metadata 0)).volumes)
perform_all-Sound_example = perform_all-Sound calls test_metadata 0 "vol-1"

create_volume-again_example :
    create_volume test_spec (create_volume test_spec empty_fake).1
    ≡ create_volume test_spec empty_fake
create_volume-again_example = create_volume-again test_spec empty_fake

bytes_to_gib-covers_example :
    (n : ℕ) × (mul64 (bytes_to_gib (pos 1_500_000_000)) bytes_per_gib ≡ pos n)
    × (1_500_000_000 ≤ n)
    × (n < 1_500_000_000 + 1_073_741_824)
bytes_to_gib-covers_example = bytes_to_gib-covers 1_500_000_000 (omega arith)

abbrev one_volume : Polling test_transport
one_volume = record { remote = api_volume ∷ []; elapsed = 0 }

delete_volume-EndsAbsent_example :
    EndsAbsent test_transport client_config "vol-1"
      (delete_volume test_transport client_config never "vol-1" one_volume)
delete_volume-EndsAbsent_example =
    delete_volume-EndsAbsent test_transport client_config "vol-1" never one_volume

abbrev late : ℕ → Bool
late t = leb 6000 t

late_after : (t : ℕ) → 6000 ≤ t → late t ≡ true
late_after t h = ground arith

wait_volume_deleted-enough_example :
    wait_volume_deleted test_transport client_config late 61 "vol-1" one_volume
    ≡ wait_volume_deleted test_transport client_config late 3 "vol-1" one_volume
wait_volume_deleted-enough_example =
    wait_volume_deleted-enough test_transport client_config late 6000 late_after "vol-1" 2 60
      one_volume (omega arith) (omega arith)
