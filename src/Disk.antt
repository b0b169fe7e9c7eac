-- ===== src/Disk.antt =====
-- pkg/disk/disk.go: the disk service, which hands requests for block devices to the SPDK service and
-- has nothing for file systems. The client (vendor/github.com/longhorn/longhorn-spdk-engine/pkg/client)
-- is only called.
pub mod Laws
pub mod Client
pub mod Reaches
mod Tests
use longhorn_instance_manage.Base.{
  ℕ, ℤ, pos, Text, Bool, true, false, ◌||◌, Option, none, some, [], ◌∷◌, Dict, eq_ℤ, is_empty,
  codes, if◌then◌else◌, Error, status, failed, panic, internal, invalid_argument, unimplemented,
  Result, ok, err,
}
use longhorn_instance_manage.Proxy.{Metrics}
use longhorn_instance_manage.Proxy.Calls.{internal_of, asked, acted, acted_internal}
use longhorn_instance_manage.Proxy.Replicas.{map_dict}
use longhorn_instance_manage.Instance.Ops.{map_result}

pub record DiskInfo : Type 0 where
  pub id : Text
  pub name : Text
  pub uuid : Text
  pub path : Text
  pub type : Text
  pub driver : Text
  pub total_size : ℤ
  pub free_size : ℤ
  pub total_blocks : ℤ
  pub free_blocks : ℤ
  pub block_size : ℤ
  pub cluster_size : ℤ
  pub state : Text
  pub message : Text

pub record DiskHealth : Type 0 where
  pub model_number : Text
  pub serial_number : Text
  pub firmware_revision : Text
  pub traddr : Text
  pub critical_warning : Text
  pub temperature_celsius : ℤ
  pub available_spare_percentage : ℤ
  pub available_spare_threshold_percentage : ℤ
  pub percentage_used : ℤ
  pub data_units_read : ℕ
  pub data_units_written : ℕ
  pub host_read_commands : ℕ
  pub host_write_commands : ℕ
  pub controller_busy_time : ℕ
  pub power_cycles : ℕ
  pub power_on_hours : ℕ
  pub unsafe_shutdowns : ℕ
  pub media_errors : ℕ
  pub num_err_log_entries : ℕ
  pub warning_temperature_time_minutes : ℕ
  pub critical_composite_temperature_time_minutes : ℕ

-- A replica as SPDK lists it.
pub record DiskReplica : Type 0 where
  pub name : Text
  pub lvs_name : Text
  pub lvs_uuid : Text
  pub spec_size : ℕ
  pub actual_size : ℕ

pub record ReplicaInstance : Type 0 where
  pub name : Text
  pub disk_name : Text
  pub disk_uuid : Text
  pub spec_size : ℕ
  pub actual_size : ℕ

-- `replicaToReplicaInstance`.
unfoldable pub replica_instance : DiskReplica → ReplicaInstance
replica_instance r = record {
  name = r.name;
  disk_name = r.lvs_name;
  disk_uuid = r.lvs_uuid;
  spec_size = r.spec_size;
  actual_size = r.actual_size;
}

pub record DiskClient (S : Type 0) : Type 0 where
  pub disk_create : Text → Text → Text → Text → ℤ → S → S × Result DiskInfo
  pub disk_delete : Text → Text → Text → Text → S → S × Option Error
  pub disk_get : Text → Text → Text → S → Result DiskInfo
  pub disk_health_get : Text → Text → Text → S → Result DiskHealth
  pub replica_list : S → Result (Dict DiskReplica)
  pub replica_delete : Text → Bool → S → S × Option Error
  pub metrics_get : Text → S → Result Metrics

pub data DiskKind : Type 0 where
  filesystem block : DiskKind

-- `s.ops[…]`, the map of `NewServer`.
unfoldable pub disk_ops : ℤ → Option DiskKind
disk_ops n = if eq_ℤ n (pos 0) then some filesystem else if eq_ℤ n (pos 1) then some block else none

-- The client that `NewServer` makes: with SPDK it must be ready and reached, without it there is none.
unfoldable pub new_server :
    {S : Type 0} → Bool → Bool → Result (DiskClient S) → Result (Option (DiskClient S))
new_server false ready client = ok none
new_server true false client = err (failed (codes "spdk_tgt is not ready"))
new_server true true (err e) = err (status internal)
new_server true true (ok client) = ok (some client)

-- The methods of `DiskOps`, with what they are given besides the disk's type and name.
pub data DiskCall : Type 0 where
  disk_create : Text → Text → Text → ℤ → DiskCall
  disk_delete : Text → Text → Text → DiskCall
  disk_get disk_health_get : Text → Text → DiskCall
  disk_replica_instance_list disk_metrics_get : DiskCall
  disk_replica_instance_delete : Text → Text → DiskCall

abbrev pub DiskAnswer : DiskCall → Type 0
DiskAnswer (disk_create uuid path driver block_size) = DiskInfo
DiskAnswer (disk_get path driver) = DiskInfo
DiskAnswer (disk_health_get path driver) = DiskHealth
DiskAnswer disk_replica_instance_list = Dict ReplicaInstance
DiskAnswer disk_metrics_get = Metrics
DiskAnswer _ = Unit {0}

-- The arguments that a call must have.
unfoldable pub lacks_argument : Text → DiskCall → Bool
lacks_argument name (disk_create uuid path driver block_size) = is_empty name || is_empty path
lacks_argument name (disk_replica_instance_delete uuid replica) =
    is_empty name || is_empty uuid || is_empty replica
lacks_argument name _ = is_empty name

unfoldable pub internal_created : {S A : Type 0} → S × Result A → S × Result A
unfolding internal_of
internal_created (s, answer) = (s, internal_of answer)

module _ {S : Type 0} (client : DiskClient S) (name : Text) where
  -- The methods of `BlockDiskOps`; only `DiskDelete` returns the client's error as it is.
  unfoldable pub block_call : (call : DiskCall) → S → S × Result (DiskAnswer call)
  unfolding internal_created internal_of asked acted acted_internal map_result map_dict
      replica_instance
  block_call (disk_create uuid path driver block_size) s =
      internal_created (client.disk_create name uuid path driver block_size s)
  block_call (disk_delete uuid path driver) s = acted (client.disk_delete name uuid path driver s)
  block_call (disk_get path driver) s = asked s (internal_of (client.disk_get name path driver s))
  block_call (disk_health_get path driver) s =
      asked s (internal_of (client.disk_health_get name path driver s))
  block_call disk_replica_instance_list s =
      asked s (map_result (map_dict replica_instance) (internal_of (client.replica_list s)))
  block_call (disk_replica_instance_delete uuid replica) s =
      acted_internal (client.replica_delete replica true s)
  block_call disk_metrics_get s = asked s (internal_of (client.metrics_get name s))

module _ {S : Type 0} (client : Option (DiskClient S)) (name : Text) where
  -- A nil client is dereferenced.
  unfoldable pub block_with : (call : DiskCall) → S → S × Result (DiskAnswer call)
  unfolding block_call
  block_with call s = elim client [ none ↦ (s, err panic) | some c ↦ block_call c name call s ]

  unfoldable pub disk_dispatch :
      Option DiskKind → (call : DiskCall) → S → S × Result (DiskAnswer call)
  unfolding block_with
  disk_dispatch none call s = (s, err (status unimplemented))
  disk_dispatch (some filesystem) call s = (s, err (status unimplemented))
  disk_dispatch (some block) call s = block_with call s

  unfoldable pub disk_serve : ℤ → (call : DiskCall) → S → S × Result (DiskAnswer call)
  unfolding lacks_argument disk_dispatch disk_ops
  disk_serve disk_type call s =
      if lacks_argument name call
      then (s, err (status invalid_argument))
      else disk_dispatch (disk_ops disk_type) call s
