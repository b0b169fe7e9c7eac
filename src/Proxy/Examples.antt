-- ===== src/Proxy/Examples.antt =====
-- Services behind the proxy for runs on concrete inputs: engines that count what changes them, and
-- SPDK services that keep the limits they are given.
use longhorn_instance_manage.Base.{
  ℕ, ℤ, pos, suc, Text, true, false, Option, none, some, List, [], ◌∷◌, Error, panic, failed,
  status, internal, not_found, codes, Result, ok, err, text_eq, if◌then◌else◌,
}
use longhorn_instance_manage.Proxy.{ProxyEngineRequest, rw, wo}
use longhorn_instance_manage.Proxy.Env.{BackupTypes}
use longhorn_instance_manage.Proxy.Engines.{EngineClients}
use longhorn_instance_manage.Proxy.Spdk.{
  SpdkClients, SpdkEngine, SpdkBackupStatus, mode_rw, mode_wo,
}
use longhorn_instance_manage.Proxy.Server.{Given, Services}

abbrev pub types : BackupTypes
types = record {
  aws_access_key = codes "AWS_ACCESS_KEY_ID";
  aws_secret_key = codes "AWS_SECRET_ACCESS_KEY";
  aws_end_point = codes "AWS_ENDPOINTS";
  aws_cert = codes "AWS_CERT";
  virtual_hosted_style = codes "VIRTUAL_HOSTED_STYLE";
  aws_sign_accept_encoding = codes "AWS_SIGN_ACCEPT_ENCODING";
  cifs_username = codes "CIFS_USERNAME";
  cifs_password = codes "CIFS_PASSWORD";
  az_blob_account_name = codes "AZBLOB_ACCOUNT_NAME";
  az_blob_account_key = codes "AZBLOB_ACCOUNT_KEY";
  az_blob_endpoint = codes "AZBLOB_ENDPOINT";
  az_blob_cert = codes "AZBLOB_CERT";
  https_proxy = codes "HTTPS_PROXY";
  http_proxy = codes "HTTP_PROXY";
  no_proxy = codes "NO_PROXY";
}

abbrev pub given : Given
given = record {
  types = types;
  get_backup_credential = λ target environ. ok [];
  marshal = λ e. codes "{}";
  error_text = λ e. codes "failed";
  uuid = codes "u1";
  spdk_service_address = codes "localhost:8504";
}

-- Every question fails, every change is counted and fails.
abbrev pub engine_clients : EngineClients ℕ
engine_clients = record {
  new_controller_client = λ id s. none;
  new_task = λ id s. none;
  new_replica_client = λ address volume name s. none;
  volume_get = λ id s. err panic;
  volume_expand = λ id size s. (suc s, none);
  volume_frontend_start = λ id name s. (suc s, none);
  volume_frontend_shutdown = λ id s. (suc s, none);
  volume_unmap_mark_snap_chain_removed_set = λ id on s. (suc s, none);
  volume_snapshot_max_count_set = λ id count s. (suc s, none);
  volume_snapshot_max_size_set = λ id size s. (suc s, none);
  volume_snapshot = λ id name labels freeze s. (suc s, ok name);
  volume_revert = λ id name s. (suc s, none);
  replica_list = λ id s. ok [];
  replica_delete = λ id address s. (suc s, none);
  replica_update = λ id address mode s. (suc s, none);
  replica_rebuild_concurrent_sync_limit_set = λ id limit s. (suc s, none);
  replica_rebuild_concurrent_sync_limit_get = λ id s. ok (pos 5);
  metrics_get = λ id s. err panic;
  add_restore_replica = λ id size current address name s. (suc s, none);
  add_replica = λ id size current address name timeout fast sync seconds s. (suc s, none);
  rebuild_status = λ id s. ok [];
  verify_rebuild_replica = λ id address name s. (suc s, none);
  purge_snapshots = λ id skip s. (suc s, some (failed (codes "purge")));
  purge_snapshot_status = λ id s. ok [];
  delete_snapshot = λ id name s. (suc s, if text_eq name (codes "s1") then some panic else none);
  hash_snapshot = λ id name rehash s. (suc s, none);
  hash_snapshot_status = λ id name s. ok [];
  cancel_snapshot_hash_job = λ id address names s. (suc s, none);
  create_backup = λ id q labels credential s. (suc s, err panic);
  restore_backup = λ id url credential limit resize s. (suc s, some (failed (codes "restore")));
  restore_status = λ id s. ok [];
  get_snapshots_info = λ replicas volume s. ok [];
  clone_snapshot = λ id from volume origin name export timeout seconds s. (suc s, none);
  clone_status = λ id volume s. ok [];
  fetch_backup_status = λ backup address s. err panic;
  replica_mode_to_grpc = λ mode. if text_eq mode (codes "RW") then rw else wo;
  grpc_to_replica_mode = λ mode. codes "RW";
  rw_mode = codes "RW";
}

-- Two replicas to read and write, of which the second has the backup, one that is rebuilding, and one
-- that is rebuilding without an address.
abbrev pub an_engine : SpdkEngine
an_engine = record {
  name = codes "e";
  spec_size = 4096;
  endpoint = [];
  frontend = [];
  is_expanding = false;
  last_expansion_error = [];
  last_expansion_failed_at = [];
  replica_address_map =
      (codes "r-3", codes "10.0.0.3:20000")
      ∷ (codes "r-2", codes "10.0.0.2:20000")
      ∷ (codes "r-1", codes "10.0.0.1:20000")
      ∷ [];
  replica_mode_map =
      (codes "r-2", mode_rw)
      ∷ (codes "r-3", mode_wo)
      ∷ (codes "r-4", mode_wo)
      ∷ (codes "r-1", mode_rw)
      ∷ [];
  snapshots = [];
  head = none;
  snapshot_max_count = pos 250;
}

abbrev pub a_backup : SpdkBackupStatus
a_backup = record {
  backup_url = codes "s3://b";
  error = [];
  progress = pos 100;
  snapshot_name = codes "s1";
  state = codes "complete";
  replica_address = [];
}

-- What the first replica says of any backup.
abbrev pub replies : Error → Text → Result (Option SpdkBackupStatus)
replies e address =
    if text_eq address (codes "10.0.0.1:20000")
    then err e
    else if text_eq address (codes "10.0.0.2:20000")
    then ok (some a_backup)
    else err (status not_found)

-- The limits, with the replicas that they are set on.
abbrev pub Limits : Type 0
Limits = List (Text × ℤ)

abbrev pub spdk_clients : SpdkClients Limits
spdk_clients = record {
  new_client = λ a s. none;
  close = λ a s. none;
  engine_get = λ a name s. ok an_engine;
  engine_frontend_get = λ a name s. err panic;
  engine_frontend_expand = λ a name size s. (s, none);
  engine_snapshot_max_count_set = λ a name count s. (s, none);
  engine_frontend_snapshot_create = λ a name snapshot s. (s, none);
  engine_frontend_snapshot_revert = λ a name snapshot s. (s, none);
  engine_frontend_snapshot_purge = λ a name s. (s, some (failed (codes "purge")));
  engine_frontend_snapshot_delete = λ a name snapshot s. (s, none);
  engine_snapshot_hash = λ a name snapshot rehash s. (s, none);
  engine_snapshot_hash_status = λ a name snapshot s. ok [];
  engine_snapshot_clone = λ a name snapshot from address mode pairs s. (s, none);
  replica_snapshot_clone_dst_status_check = λ a name s. ok (
      some (record {
        is_cloning = true;
        error = [];
        progress = pos 50;
        state = codes "in_progress";
        src_replica_address = codes "10.0.0.9:20000";
        snapshot_name = codes "s1";
      }));
  engine_frontend_replica_add = λ a name replica address fast source s. (s, none);
  engine_replica_delete = λ a name replica address s. (s, none);
  replica_rebuilding_dst_shallow_copy_check = λ a name s. ok (record {
    error = [];
    total_state = codes "in_progress";
    total_progress = pos 50;
    src_replica_address = codes "10.0.0.1:20000";
  });
  replica_rebuilding_dst_set_qos_limit = λ a name limit s. ((name, limit) ∷ s, some panic);
  engine_backup_create = λ a name volume q labels credential s. (s, err panic);
  engine_backup_status = λ a backup name address s. replies (status internal) address;
  engine_backup_restore = λ a url name credential limit s. (s, none);
  engine_restore_status = λ a name s. ok ([], []);
  metrics_get = λ a name s. err panic;
  progress_state_in_progress = codes "in_progress";
}

abbrev pub a_request : ProxyEngineRequest
a_request = record {
  address = codes "10.0.0.1:10000";
  engine_name = codes "e";
  volume_name = codes "v";
  data_engine = pos 1;
  engine_frontend_name = codes "f";
}

abbrev pub first_request : ProxyEngineRequest
first_request = record a_request { data_engine = pos 0 }

abbrev pub services : Services ℕ Limits
services = record { engines = 0; spdk = []; environ = (codes "PATH", codes "/bin") ∷ [] }
