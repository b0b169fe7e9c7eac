-- ===== src/Proxy/Spdk.antt =====
-- The engines of the second kind: the client of vendor/github.com/longhorn/longhorn-spdk-engine
-- (pkg/client), which the proxy only calls, and how the proxy reaches it. An address names the SPDK
-- service that a call goes to.
use longhorn_instance_manage.Base.{
  ℕ, ℤ, Text, Bool, Option, none, some, List, Dict, Error, external, codes, Result, ok, err,
}
use longhorn_instance_manage.Proxy.{
  BackupCreated, Metrics, LinkedCloneSource, HashStatus, SnapshotBackupRequest,
}
use longhorn_instance_manage.Proxy.Address.{spdk_address}
use longhorn_instance_manage.Proxy.Calls.{reached}

-- `spdktypes.Mode`, whose values are texts.
pub data Mode : Type 0 where
  mode_wo mode_rw mode_err other_mode : Mode

pub record Lvol : Type 0 where
  pub name : Text
  pub parent : Text
  pub children : Dict Bool
  pub user_created : Bool
  pub snapshot_timestamp : Text
  pub creation_time : Text
  pub actual_size : ℕ

pub record SpdkEngine : Type 0 where
  pub name : Text
  pub spec_size : ℕ
  pub endpoint : Text
  pub frontend : Text
  pub is_expanding : Bool
  pub last_expansion_error : Text
  pub last_expansion_failed_at : Text
  pub replica_address_map : Dict Text
  pub replica_mode_map : Dict Mode
  pub snapshots : Dict Lvol
  pub head : Option Lvol
  pub snapshot_max_count : ℤ

pub record SpdkFrontend : Type 0 where
  pub spec_size : ℕ
  pub endpoint : Text
  pub frontend : Text
  pub is_expanding : Bool
  pub last_expansion_error : Text
  pub last_expansion_failed_at : Text

pub record ShallowCopy : Type 0 where
  pub error : Text
  pub total_state : Text
  pub total_progress : ℤ
  pub src_replica_address : Text

pub record CloneCheck : Type 0 where
  pub is_cloning : Bool
  pub error : Text
  pub progress : ℤ
  pub state : Text
  pub src_replica_address : Text
  pub snapshot_name : Text

pub record SpdkBackupStatus : Type 0 where
  pub backup_url : Text
  pub error : Text
  pub progress : ℤ
  pub snapshot_name : Text
  pub state : Text
  pub replica_address : Text

pub record SpdkRestoreStatus : Type 0 where
  pub is_restoring : Bool
  pub last_restored : Text
  pub current_restoring_backup : Text
  pub progress : ℤ
  pub error : Text
  pub dest_file_name : Text
  pub state : Text
  pub backup_url : Text

abbrev Act : Type 0 → Type 0
Act S = S → S × Option Error

-- The first argument of a call is the address of the SPDK service.
pub record SpdkClients (S : Type 0) : Type 0 where
  pub new_client : Text → S → Option Error
  pub close : Text → S → Option Error
  pub engine_get : Text → Text → S → Result SpdkEngine
  pub engine_frontend_get : Text → Text → S → Result SpdkFrontend
  pub engine_frontend_expand : Text → Text → ℕ → Act S
  pub engine_snapshot_max_count_set : Text → Text → ℤ → Act S
  pub engine_frontend_snapshot_create : Text → Text → Text → Act S
  pub engine_frontend_snapshot_revert : Text → Text → Text → Act S
  pub engine_frontend_snapshot_purge : Text → Text → Act S
  pub engine_frontend_snapshot_delete : Text → Text → Text → Act S
  pub engine_snapshot_hash : Text → Text → Text → Bool → Act S
  pub engine_snapshot_hash_status : Text → Text → Text → S → Result (Dict HashStatus)
  pub engine_snapshot_clone : Text → Text → Text → Text → Text → ℤ → Dict Text → Act S
  pub replica_snapshot_clone_dst_status_check : Text → Text → S → Result (Option CloneCheck)
  pub engine_frontend_replica_add :
      Text → Text → Text → Text → Bool → Option LinkedCloneSource → Act S
  pub engine_replica_delete : Text → Text → Text → Text → Act S
  pub replica_rebuilding_dst_shallow_copy_check : Text → Text → S → Result ShallowCopy
  pub replica_rebuilding_dst_set_qos_limit : Text → Text → ℤ → Act S
  pub engine_backup_create :
      Text
      → Text
      → Text
      → SnapshotBackupRequest
      → List Text
      → Dict Text
      → S
      → S × Result BackupCreated
  pub engine_backup_status : Text → Text → Text → Text → S → Result (Option SpdkBackupStatus)
  pub engine_backup_restore : Text → Text → Text → Dict Text → ℤ → Act S
  pub engine_restore_status : Text → Text → S → Result (Text × Dict SpdkRestoreStatus)
  pub metrics_get : Text → Text → S → Result Metrics
  pub progress_state_in_progress : Text

module _ {S : Type 0} (spdk : SpdkClients S) where
  -- `getSPDKClientFromAddress`: the address of the client that it makes.
  unfoldable pub client_from_address : Text → S → Result Text
  unfolding spdk_address
  client_from_address address s = elim (spdk_address address) [
    | none ↦ err (external (codes "invalid address"))
    | some service ↦ elim (spdk.new_client service s) [ some e ↦ err e | none ↦ ok service ]
  ]

  unfoldable pub with_spdk : {A : Type 0} → Text → (Text → S → S × Result A) → S → S × Result A
  unfolding client_from_address reached
  with_spdk address next s = reached (client_from_address address s) next s
