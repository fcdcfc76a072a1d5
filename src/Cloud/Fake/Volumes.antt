-- ===== src/Cloud/Fake/Volumes.antt =====
-- The methods of the provider kept in memory that are about volumes.
pub mod Invariant
pub mod Again
use nobus_csi.Common.{
  suc, Bool, true, false, not, ◌&&◌, ◌||◌, String, ◌<>◌, List, [], ◌∷◌, Option, none, some, same,
  ◌==◌, if◌then◌else◌,
}
use nobus_csi.Common.Int.{ℤ, eqb_ℤ, ltb_ℤ}
use nobus_csi.Common.Lists.{keep}
use nobus_csi.Common.Assoc.{lookup, insert, erase, values}
use nobus_csi.Common.Decimal.{itoa}
use nobus_csi.Common.Sort.{sort_by}
use nobus_csi.Cloud.Errors.{Result, ok, err, sentinel, Sentinel}
use nobus_csi.Cloud.Types.{
  Page, VolumeSpec, Volume, Attachment, default_volume_type, encrypted_volume_type,
  volume_available, volume_in_use,
}
use nobus_csi.Cloud.Interface.{Run}
use nobus_csi.Cloud.Page.{paginate}
use nobus_csi.Cloud.Fake.State.{Fake, fail, set_volume, on_page, elsewhere}

-- The first volume of the name that the `range` meets.
unfoldable pub find_volume : String → List Volume → Option Volume
find_volume name [] = none
find_volume name (v ∷ vs) = if v.name == name then some v else find_volume name vs

unfoldable pub differs : Volume → VolumeSpec → Bool
differs v spec =
    not (eqb_ℤ v.size_bytes spec.size_bytes)
    || not (v.availability_zone == spec.availability_zone)
    || (not (spec.volume_type == "") && not (v.volume_type == spec.volume_type))
    || not (same v.encrypted spec.encrypted)

unfoldable pub provider_volume_type : VolumeSpec → String
provider_volume_type spec =
    if not (spec.volume_type == "")
    then spec.volume_type
    else if spec.encrypted
    then encrypted_volume_type
    else default_volume_type

unfoldable pub new_volume : String → VolumeSpec → Volume
unfolding provider_volume_type
new_volume id spec = record {
  id = id;
  name = spec.name;
  size_bytes = spec.size_bytes;
  status = volume_available;
  availability_zone = spec.availability_zone;
  volume_type = provider_volume_type spec;
  encrypted = spec.encrypted;
  multiattach = false;
  metadata = spec.metadata;
  attachments = [];
}

add_volume : String → VolumeSpec → Fake → Result Volume × Fake
unfolding new_volume
add_volume id spec f = (
  ok (new_volume id spec),
  record f { volumes = insert id (new_volume id spec) f.volumes; next_volume = suc f.next_volume },
)

create_or_reuse : Option Volume → VolumeSpec → Run Fake Volume
unfolding add_volume differs
create_or_reuse none spec f = add_volume ("vol-" <> itoa f.next_volume) spec f
create_or_reuse (some v) spec f =
    (if differs v spec then err (sentinel Sentinel.already_exists) else ok v, f)

unfoldable pub create_volume : VolumeSpec → Run Fake Volume
unfolding create_or_reuse find_volume
create_volume spec f = create_or_reuse (find_volume spec.name (values f.volumes)) spec f

found : {A : Type 0} → Option A → Result A
found none = err (sentinel Sentinel.not_found)
found (some a) = ok a

unfoldable pub get_volume_by_id : String → Run Fake Volume
unfolding found
get_volume_by_id id f = (found (lookup id f.volumes), f)

unfoldable pub list_volumes : Page → Run Fake (List Volume × String)
list_volumes page f = (
  paginate
      (sort_by (λ (v : Volume). v.id)
        (keep (λ (v : Volume). on_page page v.availability_zone v.name) (values f.volumes)))
      page,
  f,
)

unfoldable pub delete_volume : String → Run Fake Unit
delete_volume id f = (ok tt, record f { volumes = erase id f.volumes })

resize_found : Option Volume → String → ℤ → String → Run Fake ℤ
resize_found none id size zone f = fail Sentinel.not_found f
resize_found (some v) id size zone f =
    if elsewhere zone v.availability_zone
    then fail Sentinel.not_found f
    else if ltb_ℤ size v.size_bytes
    then fail Sentinel.out_of_range f
    else (ok size, set_volume id (record v { size_bytes = size }) f)

unfoldable pub resize_volume : String → ℤ → String → Run Fake ℤ
unfolding resize_found
resize_volume id size zone f = resize_found (lookup id f.volumes) id size zone f

abbrev device_of : String → String
device_of id = "/dev/disk/by-id/virtio-" <> id

attach_to : List Attachment → Volume → String → String → Run Fake String
attach_to (a ∷ rest) v id node f =
    if a.instance_id == node then (ok a.device_path, f) else fail Sentinel.conflict f
attach_to [] v id node f = (
  ok (device_of id),
  set_volume id
      (record v {
        attachments = record { instance_id = node; device_path = device_of id } ∷ [];
        status = volume_in_use;
      })
      f,
)

attach_found : Option Volume → String → String → String → Run Fake String
unfolding attach_to
attach_found none id node zone f = fail Sentinel.not_found f
attach_found (some v) id node zone f =
    if elsewhere zone v.availability_zone
    then fail Sentinel.not_found f
    else attach_to v.attachments v id node f

unfoldable pub attach_volume : String → String → String → Run Fake String
unfolding attach_found
attach_volume id node zone f = attach_found (lookup id f.volumes) id node zone f

abbrev pub without_node : String → List Attachment → List Attachment
without_node node = keep (λ (a : Attachment). not (a.instance_id == node))

abbrev is_empty : {A : Type 0} → List A → Bool
is_empty [] = true
is_empty (x ∷ xs) = false

abbrev detached : String → Volume → Volume
detached node v =
    let rest = without_node node v.attachments in
    record v { attachments = rest; status = if is_empty rest then volume_available else v.status }

detach_found : Option Volume → String → String → String → Run Fake Unit
detach_found none id node zone f = (ok tt, f)
detach_found (some v) id node zone f =
    (ok tt, if elsewhere zone v.availability_zone then f else set_volume id (detached node v) f)

unfoldable pub detach_volume : String → String → String → Run Fake Unit
unfolding detach_found
detach_volume id node zone f = detach_found (lookup id f.volumes) id node zone f
