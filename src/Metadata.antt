-- ===== src/Metadata.antt =====
-- internal/metadata/cloudinit.go: the instance's metadata from the files that cloud-init leaves.
-- Opening a file and decoding its JSON is a parameter.
pub mod Paths
use nobus_csi.Common.{
  Bool, true, false, not, String, List, [], ◌∷◌, Option, none, some, ◌==◌, if◌then◌else◌,
}
use nobus_csi.Common.Text.{or_else}

pub record CloudInitV1 : Type 0 where
  pub instance_id : String
  pub instance_id_hyphen : String
  pub availability_zone : String
  pub availability_zone_hyphen : String
  pub region : String

pub record CloudInitMetaData : Type 0 where
  pub instance_id : String
  pub instance_id_hyphen : String
  pub availability_zone : String
  pub region : String

-- `data.DS.MetaData` is the field `ds`.
pub record CloudInitData : Type 0 where
  pub v1 : CloudInitV1
  pub ds : CloudInitMetaData

pub record Instance : Type 0 where
  pub id : String
  pub availability_zone : String
  pub region : String

-- An error of package `os`, of the context, of the decoder, or one that `fmt.Errorf` wraps.
pub data Failure : Type 0 where
  not_exist refused invalid canceled deadline_exceeded undecodable : Failure
  wrapped : Failure → Failure

-- `os.IsNotExist` looks at errors of package `os` alone, unlike `errors.Is`: it does not unwrap what
-- `fmt.Errorf` returns.
unfoldable pub is_not_exist : Failure → Bool
is_not_exist not_exist = true
is_not_exist refused = false
is_not_exist invalid = false
is_not_exist canceled = false
is_not_exist deadline_exceeded = false
is_not_exist undecodable = false
is_not_exist (wrapped e) = false

pub data Outcome (A : Type 0) : Type 0 where
  done : A → Outcome A
  failed : Failure → Outcome A

-- What opening a path gives, the error of `os.Open` or the open file, decoded.
abbrev pub Files : Type 0
Files = String → Outcome (Outcome CloudInitData)

unfoldable pub instance_of : CloudInitData → Instance
instance_of d = record {
  id =
      or_else d.v1.instance_id
        (or_else d.v1.instance_id_hyphen (or_else d.ds.instance_id d.ds.instance_id_hyphen));
  availability_zone =
      or_else d.v1.availability_zone (or_else d.v1.availability_zone_hyphen d.ds.availability_zone);
  region = or_else d.v1.region d.ds.region;
}

of_decoded : Outcome CloudInitData → Outcome Instance
unfolding instance_of
of_decoded (failed e) = failed (wrapped e)
of_decoded (done d) =
    if (instance_of d).id == "" then failed (wrapped invalid) else done (instance_of d)

of_opened : Outcome (Outcome CloudInitData) → Outcome Instance
unfolding of_decoded
of_opened (failed e) = failed (wrapped e)
of_opened (done decoded) = of_decoded decoded

unfoldable pub read_path : Files → String → Outcome Instance
unfolding of_opened
read_path files path = of_opened (files path)

-- After one path: the instance, the error, or the paths that are left.
after_path : Outcome Instance → Outcome Instance → Outcome Instance
unfolding is_not_exist
after_path (done i) rest = done i
after_path (failed e) rest = if not (is_not_exist e) then failed e else rest

-- The context's error, if it is done, comes before the path's turn.
unless_done : Option Failure → Outcome Instance → Outcome Instance
unless_done none rest = rest
unless_done (some e) rest = failed e

read_paths : (String → Option Failure) → Files → List String → Outcome Instance
unfolding read_path after_path unless_done
read_paths ctx files [] = failed (wrapped not_exist)
read_paths ctx files (path ∷ paths) =
    let rest = read_paths ctx files paths in
    unless_done (ctx path) (after_path (read_path files path) rest)

abbrev pub first_path : String
first_path = "/run/cloud-init/instance-data.json"

abbrev pub second_path : String
second_path = "/var/lib/cloud/instance/instance-data.json"

-- `ctx` is the context's error when a path's turn comes, none while it is not done.
unfoldable pub read_cloud_init : (String → Option Failure) → Files → Outcome Instance
unfolding read_paths
read_cloud_init ctx files = read_paths ctx files (first_path ∷ second_path ∷ [])
