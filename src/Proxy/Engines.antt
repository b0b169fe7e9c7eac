-- ===== src/Proxy/Engines.antt =====
-- The engines of the first kind: the clients of vendor/github.com/longhorn/longhorn-engine
-- (pkg/controller/client, pkg/replica/client and pkg/sync), which the proxy only calls.
use longhorn_instance_manage.Base.{ℤ, Text, Bool, Option, List, Dict, Error, Result}
use longhorn_instance_manage.Proxy.Calls.{connected}
use longhorn_instance_manage.Proxy.{
  ProxyEngineRequest, Volume, ReplicaMode, LocalSync, RebuildStatus, SnapshotDiskInfo, CloneStatus,
  PurgeStatus, HashStatus, SnapshotBackupRequest, BackupCreated, BackupStatus, RestoreStatus,
  Metrics,
}

-- What names an engine to its clients.
pub record EngineId : Type 0 where
  pub address : Text
  pub volume_name : Text
  pub engine_name : Text

abbrev pub engine_id : ProxyEngineRequest → EngineId
engine_id req = record {
  address = req.address;
  volume_name = req.volume_name;
  engine_name = req.engine_name;
}

-- A replica as the controller lists it.
pub record ReplicaInfo : Type 0 where
  pub address : Text
  pub mode : Text

-- A call that may change the engines, and one that only asks.
abbrev Act : Type 0 → Type 0
Act E = E → E × Option Error

pub record EngineClients (E : Type 0) : Type 0 where
  -- `NewControllerClient`, `NewTask` and `NewReplicaClient`: the error, if there is one.
  pub new_controller_client : EngineId → E → Option Error
  pub new_task : EngineId → E → Option Error
  pub new_replica_client : Text → Text → Text → E → Option Error
  -- The calls of a controller client.
  pub volume_get : EngineId → E → Result Volume
  pub volume_expand : EngineId → ℤ → Act E
  pub volume_frontend_start : EngineId → Text → Act E
  pub volume_frontend_shutdown : EngineId → Act E
  pub volume_unmap_mark_snap_chain_removed_set : EngineId → Bool → Act E
  pub volume_snapshot_max_count_set : EngineId → ℤ → Act E
  pub volume_snapshot_max_size_set : EngineId → ℤ → Act E
  pub volume_snapshot : EngineId → Text → Dict Text → Bool → E → E × Result Text
  pub volume_revert : EngineId → Text → Act E
  pub replica_list : EngineId → E → Result (List ReplicaInfo)
  pub replica_delete : EngineId → Text → Act E
  pub replica_update : EngineId → Text → Text → Act E
  pub replica_rebuild_concurrent_sync_limit_set : EngineId → ℤ → Act E
  pub replica_rebuild_concurrent_sync_limit_get : EngineId → E → Result ℤ
  pub metrics_get : EngineId → E → Result Metrics
  -- The calls of a task.
  pub add_restore_replica : EngineId → ℤ → ℤ → Text → Text → Act E
  pub add_replica : EngineId → ℤ → ℤ → Text → Text → ℤ → Bool → Option LocalSync → ℤ → Act E
  pub rebuild_status : EngineId → E → Result (Dict RebuildStatus)
  pub verify_rebuild_replica : EngineId → Text → Text → Act E
  pub purge_snapshots : EngineId → Bool → Act E
  pub purge_snapshot_status : EngineId → E → Result (Dict PurgeStatus)
  pub delete_snapshot : EngineId → Text → Act E
  pub hash_snapshot : EngineId → Text → Bool → Act E
  pub hash_snapshot_status : EngineId → Text → E → Result (Dict HashStatus)
  pub cancel_snapshot_hash_job : EngineId → Text → List Text → Act E
  pub create_backup :
      EngineId → SnapshotBackupRequest → List Text → Dict Text → E → E × Result BackupCreated
  pub restore_backup : EngineId → Text → Dict Text → ℤ → Bool → Act E
  pub restore_status : EngineId → E → Result (Dict RestoreStatus)
  -- The functions of package sync, and the conversions between the modes of replicas.
  pub get_snapshots_info : List ReplicaInfo → Text → E → Result (Dict SnapshotDiskInfo)
  pub clone_snapshot : EngineId → EngineId → Text → Text → Text → Bool → ℤ → ℤ → Act E
  pub clone_status : EngineId → Text → E → Result (Dict CloneStatus)
  pub fetch_backup_status : Text → Text → E → Result BackupStatus
  pub replica_mode_to_grpc : Text → ReplicaMode
  pub grpc_to_replica_mode : ReplicaMode → Text
  pub rw_mode : Text

module _ {E : Type 0} (engines : EngineClients E) where
  unfoldable pub with_controller : {A : Type 0} → EngineId → (E → E × Result A) → E → E × Result A
  unfolding connected
  with_controller id next s = connected (engines.new_controller_client id s) next s

  unfoldable pub with_task : {A : Type 0} → EngineId → (E → E × Result A) → E → E × Result A
  unfolding connected
  with_task id next s = connected (engines.new_task id s) next s
