-- ===== src/Proxy/Server.antt =====
-- pkg/proxy: the proxy service, `Proxy` and its `ProxyOps`. Each request names a data engine, and is
-- for the engines of that kind alone.
use longhorn_instance_manage.Base.{
  ℤ, Text, Bool, Option, none, some, List, [], Dict, codes, text_eq, if◌then◌else◌, Error, status,
  internal, invalid_argument, unimplemented, Result, ok, err,
}
use longhorn_instance_manage.Instance.{DataEngine, v1, v2}
use longhorn_instance_manage.Proxy.{
  ProxyEngineRequest, proxy_ops, Volume, ReplicaMode, ControllerReplica, ReplicaAddRequest,
  RebuildStatus, SnapshotDiskInfo, SnapshotCloneRequest, CloneStatus, PurgeStatus, HashStatus,
  SnapshotBackupRequest, BackupCreated, BackupStatus, RestoreRequest, RestoreStatuses, Metrics,
}
use longhorn_instance_manage.Proxy.Env.{BackupTypes, set_env}
use longhorn_instance_manage.Proxy.Calls.{unimplemented_op}
use longhorn_instance_manage.Proxy.Engines.{EngineClients}
use longhorn_instance_manage.Proxy.Spdk.{SpdkClients}
use longhorn_instance_manage.Proxy.Volumes.{
  v1_volume_get, v1_volume_expand, v1_volume_frontend_start, v1_volume_frontend_shutdown,
  v1_volume_unmap_set, v1_volume_snapshot_max_count_set, v1_volume_snapshot_max_size_set,
  v1_metrics_get, v2_volume_get, v2_volume_expand, v2_volume_snapshot_max_count_set, v2_metrics_get,
}
use longhorn_instance_manage.Proxy.Replicas.{
  v1_replica_add, v1_replica_list, v1_replica_rebuilding_status, v1_replica_verify_rebuild,
  v1_replica_remove, v1_replica_mode_update, v1_sync_limit_set, v1_sync_limit_get, v2_replica_add,
  v2_replica_list, v2_replica_rebuilding_status, v2_replica_rebuilding_qos_set, v2_replica_remove,
}
use longhorn_instance_manage.Proxy.Snapshots.{
  v2_volume_snapshot, v2_snapshot_list, v2_snapshot_clone, v2_snapshot_clone_status,
  v2_snapshot_revert, v2_snapshot_purge, v2_snapshot_purge_status, v2_snapshot_remove,
  v2_snapshot_hash, v2_snapshot_hash_status,
}
use longhorn_instance_manage.Proxy.Snapshots.First.{
  v1_volume_snapshot, v1_snapshot_list, v1_snapshot_clone, v1_snapshot_clone_status,
  v1_snapshot_revert, v1_snapshot_purge, v1_snapshot_purge_status, v1_snapshot_remove,
  v1_snapshot_hash, v1_snapshot_hash_status,
}
use longhorn_instance_manage.Proxy.Backups.{
  get_labels, v2_snapshot_backup, v2_snapshot_backup_status, v2_backup_restore,
  v2_backup_restore_status,
}
use longhorn_instance_manage.Proxy.Backups.First.{
  v1_snapshot_backup, v1_snapshot_backup_status, v1_backup_restore, v1_backup_restore_status,
}

-- The methods of `ProxyOps`, with what they are given besides the engine.
pub data Call : Type 0 where
  volume_get volume_frontend_shutdown metrics_get : Call
  volume_expand volume_snapshot_max_count_set volume_snapshot_max_size_set : ℤ → Call
  volume_frontend_start : Text → Call
  volume_unmap_mark_snap_chain_removed_set : Bool → Call
  replica_add : ReplicaAddRequest → Call
  replica_list replica_rebuilding_status replica_rebuild_concurrent_sync_limit_get : Call
  replica_rebuilding_qos_set replica_rebuild_concurrent_sync_limit_set : ℤ → Call
  replica_verify_rebuild replica_remove : Text → Text → Call
  replica_mode_update : Text → ReplicaMode → Call
  volume_snapshot : Text → Dict Text → Bool → Call
  snapshot_list snapshot_clone_status snapshot_purge_status : Call
  snapshot_clone : SnapshotCloneRequest → Call
  snapshot_revert snapshot_hash_status : Text → Call
  snapshot_purge : Bool → Call
  snapshot_remove : List Text → Call
  snapshot_hash : Text → Bool → Call
  snapshot_backup : SnapshotBackupRequest → Call
  snapshot_backup_status : Text → Text → Text → Call
  backup_restore : RestoreRequest → Call
  backup_restore_status : Call

-- The two methods that reach a backup target: the variables that they set, and the target.
abbrev pub backup_target_of : Call → Option (List Text × Text)
backup_target_of (snapshot_backup q) = some (q.envs, q.backup_target)
backup_target_of (backup_restore q) = some (q.envs, q.target)
backup_target_of _ = none

-- What each method answers; `BackupRestore` puts the engine's error into its answer, as a text.
abbrev pub AnswerOf : Call → Type 0
AnswerOf volume_get = Volume
AnswerOf metrics_get = Metrics
AnswerOf replica_list = List ControllerReplica
AnswerOf replica_rebuilding_status = Dict RebuildStatus
AnswerOf replica_rebuild_concurrent_sync_limit_get = ℤ
AnswerOf (volume_snapshot name labels freeze) = Text
AnswerOf snapshot_list = Dict SnapshotDiskInfo
AnswerOf snapshot_clone_status = Dict CloneStatus
AnswerOf snapshot_purge_status = Dict PurgeStatus
AnswerOf (snapshot_hash_status name) = Dict HashStatus
AnswerOf (snapshot_backup q) = BackupCreated
AnswerOf (snapshot_backup_status backup address name) = BackupStatus
AnswerOf (backup_restore q) = Text
AnswerOf backup_restore_status = RestoreStatuses
AnswerOf _ = Unit {0}

-- What the service is given: `btypes`, `GetBackupCredential` of
-- vendor/github.com/longhorn/backupstore/util, the error's JSON and text, a UUID, and the address of
-- the SPDK service of this instance manager.
pub record Given : Type 0 where
  pub types : BackupTypes
  pub get_backup_credential : Text → Dict Text → Result (Dict Text)
  pub marshal : Error → Text
  pub error_text : Error → Text
  pub uuid : Text
  pub spdk_service_address : Text

pub record Services (E S : Type 0) : Type 0 where
  pub engines : E
  pub spdk : S
  pub environ : Dict Text

-- The end of `BackupRestore`.
unfoldable pub task_error : Given → Result (Unit {0}) → Text
task_error given (ok u) = []
task_error given (err e) =
    if text_eq (given.marshal e) (codes "{}") then given.error_text e else given.marshal e

unfoldable pub restore_answered : {S : Type 0} → Given → S × Result (Unit {0}) → S × Result Text
unfolding task_error
restore_answered given (s, answer) = (s, ok (task_error given answer))

-- The methods of `V1DataEngineProxyOps`.
module _ {E : Type 0} (given : Given) (engines : EngineClients E) (req : ProxyEngineRequest)
    (credential : Dict Text) where
  unfoldable pub v1_call : (call : Call) → E → E × Result (AnswerOf call)
  v1_call volume_get = v1_volume_get engines req
  v1_call (volume_expand size) = v1_volume_expand engines req size
  v1_call (volume_frontend_start frontend) = v1_volume_frontend_start engines req frontend
  v1_call volume_frontend_shutdown = v1_volume_frontend_shutdown engines req
  v1_call (volume_unmap_mark_snap_chain_removed_set on) = v1_volume_unmap_set engines req on
  v1_call (volume_snapshot_max_count_set count) = v1_volume_snapshot_max_count_set engines req count
  v1_call (volume_snapshot_max_size_set size) = v1_volume_snapshot_max_size_set engines req size
  v1_call metrics_get = v1_metrics_get engines req
  v1_call (replica_add q) = v1_replica_add engines req q
  v1_call replica_list = v1_replica_list engines req
  v1_call replica_rebuilding_status = v1_replica_rebuilding_status engines req
  v1_call (replica_rebuilding_qos_set limit) = unimplemented_op
  v1_call (replica_verify_rebuild name address) = v1_replica_verify_rebuild engines req address name
  v1_call (replica_remove name address) = v1_replica_remove engines req address
  v1_call (replica_mode_update address mode) = v1_replica_mode_update engines req address mode
  v1_call (replica_rebuild_concurrent_sync_limit_set limit) = v1_sync_limit_set engines req limit
  v1_call replica_rebuild_concurrent_sync_limit_get = v1_sync_limit_get engines req
  v1_call (volume_snapshot name labels freeze) = v1_volume_snapshot engines req name labels freeze
  v1_call snapshot_list = v1_snapshot_list engines req
  v1_call (snapshot_clone q) = v1_snapshot_clone engines req q
  v1_call snapshot_clone_status = v1_snapshot_clone_status engines req
  v1_call (snapshot_revert name) = v1_snapshot_revert engines req name
  v1_call (snapshot_purge skip) = v1_snapshot_purge engines req skip
  v1_call snapshot_purge_status = v1_snapshot_purge_status engines req
  v1_call (snapshot_remove names) = v1_snapshot_remove engines req names
  v1_call (snapshot_hash name rehash) = v1_snapshot_hash engines req name rehash
  v1_call (snapshot_hash_status name) = v1_snapshot_hash_status engines req name
  v1_call (snapshot_backup q) = v1_snapshot_backup engines req q credential (get_labels q.labels)
  v1_call (snapshot_backup_status backup address name) =
      v1_snapshot_backup_status engines req backup address name
  v1_call (backup_restore q) =
      λ s. restore_answered given (v1_backup_restore engines req q credential s)
  v1_call backup_restore_status = v1_backup_restore_status engines req

-- The methods of `V2DataEngineProxyOps`.
module _ {S : Type 0} (given : Given) (spdk : SpdkClients S) (req : ProxyEngineRequest)
    (credential : Dict Text) where
  unfoldable pub v2_call : (call : Call) → S → S × Result (AnswerOf call)
  v2_call volume_get = v2_volume_get spdk req given.spdk_service_address
  v2_call (volume_expand size) = v2_volume_expand spdk req size
  v2_call (volume_frontend_start frontend) = unimplemented_op
  v2_call volume_frontend_shutdown = unimplemented_op
  v2_call (volume_unmap_mark_snap_chain_removed_set on) = unimplemented_op
  v2_call (volume_snapshot_max_count_set count) = v2_volume_snapshot_max_count_set spdk req count
  v2_call (volume_snapshot_max_size_set size) = unimplemented_op
  v2_call metrics_get = v2_metrics_get spdk req
  v2_call (replica_add q) = v2_replica_add spdk req q
  v2_call replica_list = v2_replica_list spdk req
  v2_call replica_rebuilding_status = v2_replica_rebuilding_status spdk req
  v2_call (replica_rebuilding_qos_set limit) = v2_replica_rebuilding_qos_set spdk req limit
  v2_call (replica_verify_rebuild name address) = unimplemented_op
  v2_call (replica_remove name address) = v2_replica_remove spdk req name address
  v2_call (replica_mode_update address mode) = unimplemented_op
  v2_call (replica_rebuild_concurrent_sync_limit_set limit) = unimplemented_op
  v2_call replica_rebuild_concurrent_sync_limit_get = unimplemented_op
  v2_call (volume_snapshot name labels freeze) = v2_volume_snapshot spdk req given.uuid name
  v2_call snapshot_list = v2_snapshot_list spdk req
  v2_call (snapshot_clone q) = v2_snapshot_clone spdk req q
  v2_call snapshot_clone_status = v2_snapshot_clone_status spdk req
  v2_call (snapshot_revert name) = v2_snapshot_revert spdk req name
  v2_call (snapshot_purge skip) = v2_snapshot_purge spdk req
  v2_call snapshot_purge_status = v2_snapshot_purge_status spdk req
  v2_call (snapshot_remove names) = v2_snapshot_remove spdk req names
  v2_call (snapshot_hash name rehash) = v2_snapshot_hash spdk req name rehash
  v2_call (snapshot_hash_status name) = v2_snapshot_hash_status spdk req name
  v2_call (snapshot_backup q) =
      v2_snapshot_backup spdk req given.uuid q credential (get_labels q.labels)
  v2_call (snapshot_backup_status backup address name) =
      v2_snapshot_backup_status spdk req backup address
  v2_call (backup_restore q) =
      λ s. restore_answered given (v2_backup_restore spdk req q credential s)
  v2_call backup_restore_status = v2_backup_restore_status spdk req

module _ {E S : Type 0} where
  unfoldable pub changed_engines : {A : Type 0} → Services E S → E × A → Services E S × A
  changed_engines w (e, answer) = (record w { engines = e }, answer)

  unfoldable pub changed_spdk : {A : Type 0} → Services E S → S × A → Services E S × A
  changed_spdk w (s, answer) = (record w { spdk = s }, answer)

  -- `ops, ok := p.ops[…]`.
  unfoldable pub route :
      {A : Type 0}
      → Option DataEngine
      → (E → E × Result A)
      → (S → S × Result A)
      → Services E S
      → Services E S × Result A
  unfolding changed_engines changed_spdk
  route none first second w = (w, err (status unimplemented))
  route (some v1) first second w = changed_engines w (first w.engines)
  route (some v2) first second w = changed_spdk w (second w.spdk)

  unfoldable pub with_found :
      {A : Type 0}
      → (Dict Text → Services E S → Services E S × Result A)
      → Result (Dict Text)
      → Services E S
      → Services E S × Result A
  with_found next (err e) w = (w, err (status invalid_argument))
  with_found next (ok credential) w = next credential w

  unfoldable pub once_set :
      {A : Type 0}
      → Given
      → Text
      → (Dict Text → Services E S → Services E S × Result A)
      → Services E S
      → Dict Text × Option Error
      → Services E S × Result A
  unfolding with_found
  once_set given target next w (environ, some e) =
      (record w { environ = environ }, err (status internal))
  once_set given target next w (environ, none) =
      with_found next (given.get_backup_credential target environ) (record w { environ = environ })

  -- `SnapshotBackup` and `BackupRestore` first set the environment and look for the credential there.
  unfoldable pub with_credential :
      {A : Type 0}
      → Given
      → List Text
      → Text
      → (Dict Text → Services E S → Services E S × Result A)
      → Services E S
      → Services E S × Result A
  unfolding set_env once_set
  with_credential given envs target next w =
      once_set given target next w (set_env given.types envs w.environ)

module _ {E S : Type 0} (given : Given) (engines : EngineClients E) (spdk : SpdkClients S)
    (req : ProxyEngineRequest) where
  unfoldable pub perform :
      (call : Call) → Dict Text → Services E S → Services E S × Result (AnswerOf call)
  unfolding route proxy_ops v1_call v2_call
  perform call credential =
      route (proxy_ops req.data_engine) (v1_call given engines req credential call)
        (v2_call given spdk req credential call)

  unfoldable pub handle_with :
      (call : Call)
      → Option (List Text × Text)
      → Services E S
      → Services E S × Result (AnswerOf call)
  unfolding perform with_credential
  handle_with call none = perform call []
  handle_with call (some (envs, target)) = with_credential given envs target (perform call)

  unfoldable pub handle : (call : Call) → Services E S → Services E S × Result (AnswerOf call)
  unfolding handle_with
  handle call = handle_with call (backup_target_of call)
