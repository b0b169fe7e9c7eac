-- ===== src/Proxy/Client/Expected.antt =====
-- What the proxy service is to get from its client (pkg/client/proxy_volume.go, proxy_replica.go,
-- proxy_snapshot.go, proxy_backup.go and proxy_metrics.go), method by method, described without the
-- client's functions.
use longhorn_instance_manage.Base.{
  pos, Text, ◌≡◌, ◌⊎◌, Bool, true, false, ◌&&◌, List, [], ◌∷◌, Dict, is_empty, text_eq, codes,
  if◌then◌else◌, int32,
}
use longhorn_instance_manage.Proxy.{ProxyEngineRequest}
use longhorn_instance_manage.Proxy.Server.{
  Call, volume_get, metrics_get, volume_expand, volume_snapshot_max_count_set,
  volume_frontend_start, replica_add, replica_rebuild_concurrent_sync_limit_set,
  replica_verify_rebuild, replica_remove, replica_mode_update, volume_snapshot,
  snapshot_purge_status, snapshot_clone, snapshot_revert, snapshot_purge, snapshot_remove,
  snapshot_backup, snapshot_backup_status, backup_restore,
}
use longhorn_instance_manage.Proxy.Client.{Target, ClientLibrary, get_data_engine}

abbrev pub AllGiven : List Text → Type 0
AllGiven [] = Unit {0}
AllGiven (value ∷ rest) = (is_empty value ≡ false) × AllGiven rest

-- The arguments that may not be empty.
abbrev pub own : Target → Text → Call → List Text
own t mode (volume_frontend_start frontend) = frontend ∷ []
own t mode metrics_get = t.data_engine ∷ []
own t mode (replica_add q) = q.replica_name ∷ q.replica_address ∷ []
own t mode (replica_verify_rebuild name address) = address ∷ name ∷ []
own t mode (replica_mode_update address m) = address ∷ []
own t mode (snapshot_revert name) = name ∷ []
own t mode (snapshot_clone q) =
    q.snapshot_name ∷ q.from_engine_address ∷ q.from_volume_name ∷ q.from_engine_name ∷ []
own t mode (snapshot_backup_status backup address name) = backup ∷ []
own t mode (backup_restore q) = q.url ∷ q.target ∷ mode ∷ []
own t mode _ = []

-- The methods that change the second data engine through a frontend.
abbrev pub needs_frontend : Call → Bool
needs_frontend (volume_expand size) = true
needs_frontend (volume_snapshot name labels freeze) = true
needs_frontend (snapshot_revert name) = true
needs_frontend (snapshot_purge skip) = true
needs_frontend (snapshot_remove names) = true
needs_frontend _ = false

-- Their requests name the frontend, and so do three others.
abbrev pub names_frontend : Call → Bool
names_frontend volume_get = true
names_frontend (replica_add q) = true
names_frontend snapshot_purge_status = true
names_frontend call = needs_frontend call

-- All requests name the engine and its volume but two.
abbrev pub names_engine : Call → Bool
names_engine (replica_mode_update address mode) = false
names_engine _ = true

abbrev pub names_volume : Call → Bool
names_volume (replica_remove name address) = false
names_volume (replica_mode_update address mode) = false
names_volume _ = true

abbrev pub AllLabels : ClientLibrary → Dict Text → Type 0
AllLabels lib [] = Unit {0}
AllLabels lib ((key, value) ∷ labels) =
    (lib.is_qualified_name key ≡ true) × (is_empty value ≡ false) × AllLabels lib labels

-- What else is asked of the arguments.
abbrev pub IsAllowed : ClientLibrary → Call → Type 0
IsAllowed lib (volume_snapshot name labels freeze) = AllLabels lib labels
IsAllowed lib (snapshot_revert name) = text_eq name lib.volume_head_name ≡ false
IsAllowed lib (replica_remove name address) = (is_empty address && is_empty name) ≡ false
IsAllowed lib _ = Unit {0}

abbrev when : Bool → Text → Text
when true name = name
when false name = []

abbrev pub request_of : Target → Call → ProxyEngineRequest
request_of t call = record {
  address = t.service_address;
  engine_name = when (names_engine call) t.engine_name;
  volume_name = when (names_volume call) t.volume_name;
  data_engine = get_data_engine t.data_engine;
  engine_frontend_name = when (names_frontend call) t.engine_frontend_name;
}

-- The call as it is written: some numbers in 32 bits, the modes as numbers of the enums.
abbrev pub written : ClientLibrary → Text → Call → Call
written lib mode (volume_snapshot_max_count_set count) = volume_snapshot_max_count_set (int32 count)
written lib mode (replica_rebuild_concurrent_sync_limit_set limit) =
    replica_rebuild_concurrent_sync_limit_set (int32 limit)
written lib mode (replica_add q) =
    replica_add (record q { file_sync_http_client_timeout = int32 q.file_sync_http_client_timeout })
written lib mode (snapshot_clone q) = snapshot_clone (record q {
  export_backing_image_if_exist = false;
  file_sync_http_client_timeout = int32 q.file_sync_http_client_timeout;
  clone_mode = if text_eq mode (codes "linked-clone") then pos 1 else pos 0;
})
written lib mode (snapshot_backup q) =
    snapshot_backup (record q { concurrent_limit = int32 q.concurrent_limit })
written lib mode (backup_restore q) =
    backup_restore (record q { concurrent_limit = int32 q.concurrent_limit })
written lib mode (replica_mode_update address m) =
    replica_mode_update address (lib.replica_mode_to_grpc mode)
written lib mode call = call

abbrev pub GivenWhen : Bool → Text → Type 0
GivenWhen true value = is_empty value ≡ false
GivenWhen false value = Unit {0}

-- Everything that the client checks.
abbrev pub IsSendable : ClientLibrary → Target → Text → Call → Type 0
IsSendable lib t mode call =
    (is_empty t.service_address ≡ false)
    × GivenWhen (names_engine call) t.engine_name
    × GivenWhen (names_volume call) t.volume_name
    × GivenWhen (needs_frontend call && text_eq t.data_engine (codes "v2")) t.engine_frontend_name
    × AllGiven (own t mode call)
    × IsAllowed lib call

-- Where `S` holds the state is what the service made of it, and otherwise it is the old one.
abbrev pub IsSent : {W : Type 0} → Type 0 → W → W → W → Type 0
IsSent S new served old = (S × (new ≡ served)) ⊎ ((¬ S) × (new ≡ old))
