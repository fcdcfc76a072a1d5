-- ===== src/Driver/Node/Statuses.antt =====
-- The errors of the node service are gRPC statuses.
use nobus_csi.Common.{Option, none, some}
use nobus_csi.Mount.{Mounter}
use nobus_csi.Driver.Status.Laws.{Any, IsStatus, status_error-IsStatus}
use nobus_csi.Driver.Csi.{VolumeCapability}
use nobus_csi.Driver.Session.Ensures.{Ensures, ensures_rules}
use nobus_csi.Driver.Node.{NodeStageRequest, stage_with, node_stage_volume}

module _ (M : Mounter) where
  stage_with-Ensures :
      (request : NodeStageRequest) (c : Option VolumeCapability)
      → Ensures Any IsStatus (stage_with M request c)
  unfolding stage_with
  stage_with-Ensures request none = search ensures_rules
  stage_with-Ensures request (some c) = search (ensures_rules, status_error-IsStatus)

  -- Every error of staging a volume on a node is a gRPC status, whatever the mounter does.
  pub node_stage_volume-IsStatus :
      (request : NodeStageRequest) → Ensures Any IsStatus (node_stage_volume M request)
  unfolding node_stage_volume
  node_stage_volume-IsStatus request = search (ensures_rules, stage_with-Ensures)
