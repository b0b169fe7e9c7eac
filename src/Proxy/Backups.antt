-- ===== src/Proxy/Backups.antt =====
-- pkg/proxy/backup.go: backups and restores, of the second data engine. First has those of the first one.
pub mod First
use longhorn_instance_manage.Base.{
  ◌>>=◌, Text, Bool, true, false, not, ◌&&◌, Option, none, some, List, [], ◌∷◌, ◌++◌, Dict, lookup,
  is_empty, if◌then◌else◌, Error, status, not_found, failed, codes, Result, ok, err, int32,
}
use longhorn_instance_manage.Strings.{sort_texts}
use longhorn_instance_manage.Proxy.{
  ProxyEngineRequest, SnapshotBackupRequest, BackupCreated, BackupStatus, RestoreRequest,
  RestoreStatus, RestoreStatuses,
}
use longhorn_instance_manage.Proxy.Address.{tcp_address_prefix}
use longhorn_instance_manage.Proxy.Calls.{internal_of, asked, acted}
use longhorn_instance_manage.Proxy.Spdk.{
  SpdkClients, Mode, SpdkBackupStatus, SpdkRestoreStatus, with_spdk,
}
use longhorn_instance_manage.Proxy.Replicas.{address_of}
use longhorn_instance_manage.Proxy.Snapshots.{is_rw}
use longhorn_instance_manage.Instance.Ops.{map_result}

-- `getLabels`.
unfoldable pub get_labels : Dict Text → List Text
get_labels [] = []
get_labels ((k, v) ∷ labels) = (k ++ b'=' ∷ v) ∷ get_labels labels

unfoldable pub internal_answer : {S A : Type 0} → S × Result A → S × Result A
unfolding internal_of
internal_answer (s, answer) = (s, internal_of answer)

unfoldable pub backup_status_response : Text → BackupStatus → BackupStatus
backup_status_response address v = record v {
  progress = int32 v.progress;
  replica_address = address;
}

unfoldable pub restore_response : RestoreStatus → RestoreStatus
restore_response v = record v { progress = int32 v.progress }

abbrev pub keys : {A : Type 0} → Dict A → List Text
keys [] = []
keys ((k, a) ∷ rest) = k ∷ keys rest

-- `findV2BackupReplicaAddresses`: the addresses of the replicas to read and write, by name.
abbrev is_rw_name : Dict Mode → Text → Bool
is_rw_name modes name = elim (lookup name modes) [ none ↦ false | some mode ↦ is_rw mode ]

unfoldable pub rw_addresses : Dict Mode → Dict Text → List Text → List Text
unfolding address_of
rw_addresses modes addresses [] = []
rw_addresses modes addresses (name ∷ names) =
    let rest = rw_addresses modes addresses names in
    let address = address_of addresses name in
    if is_rw_name modes name && not (is_empty address) then address ∷ rest else rest

unfoldable pub find_v2_backup_replica_addresses : Dict Mode → Dict Text → List Text
unfolding rw_addresses sort_texts
find_v2_backup_replica_addresses modes addresses =
    rw_addresses modes addresses (sort_texts (keys modes))

-- `grpcstatus.Code(err) == grpccodes.NotFound`.
abbrev pub is_not_found : Error → Bool
is_not_found (status not_found) = true
is_not_found _ = false

-- A nil status is an error too.
unfoldable pub filled : Result (Option SpdkBackupStatus) → Result SpdkBackupStatus
filled (err e) = err e
filled (ok none) = err (failed (codes "received an empty backup status"))
filled (ok (some answer)) = ok answer

-- The errors that the loop of `getV2BackupStatusFromReplicas` keeps: the first one that is not
-- NotFound, and the last one that is.
abbrev pub keep : Error → Option Error × Option Error → Option Error × Option Error
keep e (first, missing) =
    if is_not_found e
    then (first, some e)
    else (elim first [ none ↦ some e | some f ↦ some f ], missing)

-- What a search that has found nothing returns.
abbrev lost : Option Error × Option Error → Option Error
lost (none, missing) = missing
lost (some e, missing) = some e

-- The three results of `getV2BackupStatusFromReplicas`.
pub record Search : Type 0 where
  pub answer : Option SpdkBackupStatus
  pub address : Text
  pub error : Option Error

unfoldable pub search_replicas :
    (Text → Result (Option SpdkBackupStatus)) → List Text → Option Error × Option Error → Search
unfolding filled
search_replicas ask [] seen = record { answer = none; address = []; error = lost seen }
search_replicas ask (address ∷ rest) seen = elim (filled (ask address)) [
  | ok answer ↦ record { answer = some answer; address = address; error = none }
  | err e ↦ search_replicas ask rest (keep e seen)
]

-- The error for which the search itself fails.
abbrev pub failure_of : Option Error → Option Error
failure_of none = none
failure_of (some e) = if is_not_found e then none else some e

unfoldable pub convert_restore_status : SpdkRestoreStatus → RestoreStatus
convert_restore_status v = record {
  is_restoring = v.is_restoring;
  last_restored = v.last_restored;
  current_restoring_backup = v.current_restoring_backup;
  progress = int32 v.progress;
  error = v.error;
  filename = v.dest_file_name;
  state = v.state;
  backup_url = v.backup_url;
}

-- `convertRestoreStatusToProxyResponse`.
unfoldable pub tcp_statuses : Dict SpdkRestoreStatus → Dict RestoreStatus
unfolding convert_restore_status
tcp_statuses [] = []
tcp_statuses ((address, v) ∷ rest) =
    (tcp_address_prefix ++ address, convert_restore_status v) ∷ tcp_statuses rest

unfoldable pub convert_restore_statuses : Text × Dict SpdkRestoreStatus → RestoreStatuses
unfolding tcp_statuses
convert_restore_statuses (engine_error, statuses) = record {
  status = tcp_statuses statuses;
  engine_error = engine_error;
}

-- The address that SPDK names goes before the one that was asked.
unfoldable pub spdk_status_response : Text → Option SpdkBackupStatus → Result BackupStatus
spdk_status_response address none = err (failed (codes "received an empty backup status"))
spdk_status_response address (some v) = ok (record {
  backup_url = v.backup_url;
  error = v.error;
  progress = int32 v.progress;
  snapshot_name = v.snapshot_name;
  state = v.state;
  replica_address = if is_empty v.replica_address then address else v.replica_address;
})

-- What is done with a search that is over.
unfoldable pub after_search : Search → Result BackupStatus
unfolding spdk_status_response
after_search found = elim (failure_of found.error) [
  | some e ↦ err e
  | none ↦
      if is_empty found.address
      then err (failed (codes "failed to find a replica with backup"))
      else spdk_status_response found.address found.answer
]

module _ {S : Type 0} (spdk : SpdkClients S) (req : ProxyEngineRequest) where
  unfoldable pub v2_snapshot_backup :
      Text → SnapshotBackupRequest → Dict Text → List Text → S → S × Result BackupCreated
  unfolding with_spdk internal_answer
  v2_snapshot_backup uuid q credential labels = with_spdk spdk req.address (λ a s.
      let name = if is_empty q.snapshot_name then uuid else q.snapshot_name in
      internal_answer (
        spdk.engine_backup_create a req.engine_name req.volume_name
          (record q { snapshot_name = name }) labels credential s))

  unfoldable pub v2_status_at : Text → Text → Text → S → Result BackupStatus
  unfolding internal_of spdk_status_response
  v2_status_at a backup address s = do
    answer ← internal_of (spdk.engine_backup_status a backup req.engine_name address s)
    spdk_status_response address answer

  unfoldable pub v2_status_anywhere : Text → Text → S → Result BackupStatus
  unfolding internal_of after_search search_replicas find_v2_backup_replica_addresses
  v2_status_anywhere a backup s = do
    engine ← internal_of (spdk.engine_get a req.engine_name s)
    after_search (
        search_replicas (λ address. spdk.engine_backup_status a backup req.engine_name address s)
          (find_v2_backup_replica_addresses engine.replica_mode_map engine.replica_address_map)
          (none, none))

  unfoldable pub v2_snapshot_backup_status : Text → Text → S → S × Result BackupStatus
  unfolding with_spdk asked v2_status_at v2_status_anywhere
  v2_snapshot_backup_status backup address = with_spdk spdk req.address (λ a s.
      asked s (
        if is_empty address
        then v2_status_anywhere a backup s
        else v2_status_at a backup address s))

  unfoldable pub v2_backup_restore : RestoreRequest → Dict Text → S → S × Result (Unit {0})
  unfolding with_spdk acted
  v2_backup_restore q credential = with_spdk spdk req.address (λ a s.
      acted (spdk.engine_backup_restore a q.url req.engine_name credential q.concurrent_limit s))

  unfoldable pub v2_backup_restore_status : S → S × Result RestoreStatuses
  unfolding with_spdk asked internal_of map_result convert_restore_statuses
  v2_backup_restore_status = with_spdk spdk req.address (λ a s. asked s (
      map_result convert_restore_statuses
        (internal_of (spdk.engine_restore_status a req.engine_name s))))
