-- ===== src/Proxy.antt =====
-- pkg/proxy: the service through which callers reach the engines of volumes. The requests, the answers
-- and what the services behind it return; a part of a request that is nil is left out. `int64` and
-- `uint64` are Go's conversions.
pub mod Env
pub mod Address
pub mod Calls
pub mod Engines
pub mod Spdk
pub mod Volumes
pub mod Replicas
pub mod Snapshots
pub mod Backups
pub mod Server
pub mod Safety
pub mod Rebuild
pub mod Search
pub mod Removal
pub mod Clone
pub mod Client
pub mod BackingImages
pub mod Examples
mod Tests
use longhorn_instance_manage.Base.{
  ℕ, ℤ, pos, negsuc, ◌-◌, ◌%◌, Text, Bool, Option, none, some, List, Dict, eq_ℤ, ltb, if◌then◌else◌,
}
use longhorn_instance_manage.Instance.{DataEngine, v1, v2}

unfoldable pub int64 : ℕ → ℤ
int64 n =
    let w = n % 18_446_744_073_709_551_616 in
    if ltb w 9_223_372_036_854_775_808 then pos w else negsuc (18_446_744_073_709_551_616 - w - 1)

unfoldable pub uint64 : ℤ → ℕ
uint64 (pos n) = n % 18_446_744_073_709_551_616
uint64 (negsuc n) = 18_446_744_073_709_551_615 - n % 18_446_744_073_709_551_616

pub record ProxyEngineRequest : Type 0 where
  pub address : Text
  pub engine_name : Text
  pub volume_name : Text
  pub data_engine : ℤ
  pub engine_frontend_name : Text

-- `p.ops[…]`, the map of `NewProxy`.
unfoldable pub proxy_ops : ℤ → Option DataEngine
proxy_ops n = if eq_ℤ n (pos 0) then some v1 else if eq_ℤ n (pos 1) then some v2 else none

pub record Volume : Type 0 where
  pub name : Text
  pub size : ℤ
  pub replica_count : ℤ
  pub endpoint : Text
  pub frontend : Text
  pub frontend_state : Text
  pub is_expanding : Bool
  pub last_expansion_error : Text
  pub last_expansion_failed_at : Text
  pub unmap_mark_snap_chain_removed : Bool
  pub snapshot_max_count : ℤ
  pub snapshot_max_size : ℤ

-- `enginerpc.ReplicaMode`.
pub data ReplicaMode : Type 0 where
  wo rw err_mode : ReplicaMode

pub record ControllerReplica : Type 0 where
  pub address : Text
  pub instance_name : Text
  pub mode : ReplicaMode

pub record LocalSync : Type 0 where
  pub source_path : Text
  pub target_path : Text

pub record LinkedCloneSource : Type 0 where
  pub replica_name : Text
  pub engine_name : Text
  pub engine_address : Text

pub record ReplicaAddRequest : Type 0 where
  pub replica_address : Text
  pub replica_name : Text
  pub restore : Bool
  pub size : ℤ
  pub current_size : ℤ
  pub fast_sync : Bool
  pub file_sync_http_client_timeout : ℤ
  pub local_sync : Option LocalSync
  pub grpc_timeout_seconds : ℤ
  pub linked_clone_source : Option LinkedCloneSource

pub record RebuildStatus : Type 0 where
  pub error : Text
  pub is_rebuilding : Bool
  pub progress : ℤ
  pub state : Text
  pub from_replica_address_list : List Text

pub record SnapshotDiskInfo : Type 0 where
  pub name : Text
  pub parent : Text
  pub children : Dict Bool
  pub removed : Bool
  pub user_created : Bool
  pub created : Text
  pub size : Text
  pub labels : Dict Text

pub record SnapshotCloneRequest : Type 0 where
  pub snapshot_name : Text
  pub from_engine_address : Text
  pub from_engine_name : Text
  pub from_volume_name : Text
  pub file_sync_http_client_timeout : ℤ
  pub export_backing_image_if_exist : Bool
  pub grpc_timeout_seconds : ℤ
  pub clone_mode : ℤ
  pub dst_replica_src_replica_pair_map : Dict Text

pub record CloneStatus : Type 0 where
  pub is_cloning : Bool
  pub error : Text
  pub progress : ℤ
  pub state : Text
  pub from_replica_address : Text
  pub snapshot_name : Text

pub record PurgeStatus : Type 0 where
  pub is_purging : Bool
  pub error : Text
  pub progress : ℤ
  pub state : Text

pub record HashStatus : Type 0 where
  pub state : Text
  pub checksum : Text
  pub error : Text
  pub silently_corrupted : Bool

pub record SnapshotBackupRequest : Type 0 where
  pub envs : List Text
  pub backup_name : Text
  pub snapshot_name : Text
  pub backup_target : Text
  pub backing_image_name : Text
  pub backing_image_checksum : Text
  pub compression_method : Text
  pub concurrent_limit : ℤ
  pub storage_class_name : Text
  pub labels : Dict Text
  pub parameters : Dict Text

-- What the engine says of a backup that it has started.
pub record BackupCreated : Type 0 where
  pub backup_id : Text
  pub replica : Text
  pub is_incremental : Bool

pub record BackupStatus : Type 0 where
  pub backup_url : Text
  pub error : Text
  pub progress : ℤ
  pub snapshot_name : Text
  pub state : Text
  pub replica_address : Text

pub record RestoreRequest : Type 0 where
  pub envs : List Text
  pub url : Text
  pub target : Text
  pub concurrent_limit : ℤ
  pub need_correct_encrypted_volume_size : Bool

pub record RestoreStatus : Type 0 where
  pub is_restoring : Bool
  pub last_restored : Text
  pub current_restoring_backup : Text
  pub progress : ℤ
  pub error : Text
  pub filename : Text
  pub state : Text
  pub backup_url : Text

-- The answer of `BackupRestoreStatus`.
pub record RestoreStatuses : Type 0 where
  pub status : Dict RestoreStatus
  pub engine_error : Text

pub record Metrics : Type 0 where
  pub read_throughput : ℕ
  pub write_throughput : ℕ
  pub read_latency : ℕ
  pub write_latency : ℕ
  pub read_iops : ℕ
  pub write_iops : ℕ
