-- ===== src/Cloud/Fake/State.antt =====
-- The state of the provider kept in memory, and what its methods share.
use nobus_csi.Common.{ℕ, Bool, not, ◌&&◌, ◌||◌, String, [], ◌==◌}
use nobus_csi.Common.Assoc.{Assoc, insert}
use nobus_csi.Cloud.Errors.{Result, err, sentinel, Sentinel}
use nobus_csi.Cloud.Types.{Page, Volume, Snapshot, InstanceMetadata}

pub record Fake : Type 0 where
  pub volumes : Assoc Volume
  pub snapshots : Assoc Snapshot
  pub metadata : InstanceMetadata
  pub next_volume : ℕ
  pub next_snapshot : ℕ
  pub now : ℕ

unfoldable pub new_fake : InstanceMetadata → ℕ → Fake
new_fake metadata now = record {
  volumes = [];
  snapshots = [];
  metadata = metadata;
  next_volume = 1;
  next_snapshot = 1;
  now = now;
}

abbrev pub fail : {A : Type 0} → Sentinel → Fake → Result A × Fake
fail s f = (err (sentinel s), f)

abbrev pub set_volume : String → Volume → Fake → Fake
set_volume id v f = record f { volumes = insert id v f.volumes }

-- An empty zone or name in the page filters nothing.
abbrev pub on_page : Page → String → String → Bool
on_page page zone name =
    (page.availability_zone == "" || zone == page.availability_zone)
    && (page.name == "" || name == page.name)

-- The zone of a call names another zone than the volume's.
abbrev pub elsewhere : String → String → Bool
elsewhere zone actual = not (zone == "") && not (actual == zone)
