-- ===== src/Tests/PulumiData.antt =====
-- The inputs of the tests of the Pulumi client and provider.
use nobus_csi.Common.{
  ℕ, suc, ◌≡◌, Bool, true, false, not, ◌&&◌, String, List, [], ◌∷◌, Option, none, some, ◌==◌,
  eq_iff, arith,
}
use nobus_csi.Common.Int.{pos}
use nobus_csi.Common.Lists.{keep}
use nobus_csi.Common.Text.{contains}
use nobus_csi.Pulumi.Client.Shapes.{
  Payload, security_group_payload, blank, array, Volume, AddressEntry,
}
use nobus_csi.Pulumi.Client.Calls.{HttpRequest, Reply, replied, Transport, Context}
use nobus_csi.Pulumi.Provider.Scope.{Config}

abbrev pub endless : Context
endless t = none

-- An API that tells of one volume at most.
abbrev pub api_of : (S : Type 0) → (HttpRequest → S → Reply (Option Volume) × S) → Transport
api_of S send = record {
  State = S;
  Body = Option Volume;
  send = send;
  message = λ b. some "";
  status_text = λ code. "";
  mentions = λ message word. false;
  lower = λ s. s;
  equal_fold = λ s t. s == t;
  as_volume = λ b. b;
  as_volumes = λ b. elim b [ none ↦ some blank | some v ↦ some (array (some (v ∷ []))) ];
  as_snapshot = λ b. none;
  as_snapshots = λ b. some blank;
  as_backup = λ b. none;
  as_backups = λ b. some blank;
  as_key_pair = λ b. none;
  as_key_pairs = λ b. some blank;
  as_instance = λ b. none;
  as_instances = λ b. some blank;
  as_flavors = λ b. some blank;
  as_images = λ b. some blank;
  as_projects = λ b. some blank;
  as_zones = λ b. some blank;
  as_network_setup = λ b. none;
  as_network = λ b. none;
  as_subnet = λ b. none;
  as_port = λ b. none;
  as_router = λ b. none;
  as_security_group = λ b. none;
  as_security_group_rule = λ b. none;
  as_floating_ip = λ b. none;
}

-- An API that is never available, and counts the requests.
abbrev pub busy : Transport
busy = api_of ℕ (λ q n. (replied 503 none, suc n))

abbrev pub made_volume : Volume
made_volume = record {
  id = "vol-1";
  name = "data";
  description = "";
  size = pos 2;
  status = "available";
  volume_type = "ssd";
  availability_zone = "az1";
  multiattach = false;
  metadata = [];
  attachments = [];
}

-- An API with one volume.
abbrev pub one_volume_api : Transport
one_volume_api = api_of ℕ (λ q n. (replied 200 (some made_volume), suc n))

abbrev pub config : Config
config = record { project_id = "project"; availability_zone = "" }

abbrev pub without : String → List String → List String
without g gs = keep (λ h. not (h == g)) gs

pub contains-without :
    (g x : String) (gs : List String) → contains (without g gs) x ≡ (not (x == g) && contains gs x)
contains-without g x [] = ground arith
contains-without g x (h ∷ gs) = ground (arith, contains-without g x gs, eq_iff x h)

-- An API that keeps the groups of one server.
abbrev change : Bool → Payload → List String → List String
change true (security_group_payload r) gs = without r.security_group_name gs
change false (security_group_payload r) gs = r.security_group_name ∷ gs
change removes other gs = gs

abbrev pub group_api : Transport
group_api = api_of (List String) (λ q gs.
    (replied 200 none, change (q.path == "/api/v3/instance/remove-security-group") q.payload gs))

abbrev pub entry : String → AddressEntry
entry addr = record { addr = addr; version = pos 4; kind = "fixed" }
