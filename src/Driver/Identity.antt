-- ===== src/Driver/Identity.antt =====
-- identity.go of internal/driver, and what the controller and the node say that they can do.
use nobus_csi.Common.{Bool, true, String, List, [], ◌∷◌}
use nobus_csi.Driver.Config.{Config}

pub record PluginInfo : Type 0 where
  pub name : String
  pub vendor_version : String

unfoldable pub get_plugin_info : Config → PluginInfo
get_plugin_info config = record { name = config.driver_name; vendor_version = config.version }

pub data PluginCapability : Type 0 where
  controller_service volume_accessibility_constraints : PluginCapability

abbrev pub get_plugin_capabilities : List PluginCapability
get_plugin_capabilities = controller_service ∷ volume_accessibility_constraints ∷ []

-- The driver is always ready.
abbrev pub probe : Bool
probe = true

pub data ControllerCapability : Type 0 where
  create_delete_volume publish_unpublish_volume expand_volume : ControllerCapability
  list_volumes create_delete_snapshot list_snapshots get_volume : ControllerCapability

abbrev pub controller_get_capabilities : List ControllerCapability
controller_get_capabilities =
    create_delete_volume ∷ publish_unpublish_volume ∷ expand_volume ∷ list_volumes
    ∷ create_delete_snapshot ∷ list_snapshots ∷ get_volume ∷ []

pub data NodeCapability : Type 0 where
  stage_unstage_volume expand_volume get_volume_stats : NodeCapability

abbrev pub node_get_capabilities : List NodeCapability
node_get_capabilities = stage_unstage_volume ∷ NodeCapability.expand_volume ∷ get_volume_stats ∷ []
