-- ===== src/Instance/Caller.antt =====
-- pkg/client/instance.go: the client of the instance service. Each call checks its arguments and makes
-- a request, or fails; the service, with the connection, is an argument.
pub mod Answers
pub mod Calls
pub mod Sent
mod Tests
use longhorn_instance_manage.Base.{
  ℕ, ℤ, pos, Text, Bool, true, false, ◌||◌, Option, none, some, List, [], Dict, eq_ℤ, is_empty,
  text_eq, not, codes, if◌then◌else◌, failed, Result, ok, err, ◌>>=◌, int32,
}
use longhorn_instance_manage.Instance.{
  InstanceType, engine, engine_frontend, replica, shard, shard_group, unknown, instance_type,
  ProcessInstanceSpec, ShardGroupSpec, SpdkInstanceSpec, InstanceSpec, DataLayout,
}
use longhorn_instance_manage.Instance.Server.{
  Request, create, delete, get, replace, suspend, resume, switch_over, delete_target,
}
use longhorn_instance_manage.Proxy.Client.{get_data_engine}

-- What the caller says of an engine and of its frontend.
pub record EngineCreateRequest : Type 0 where
  pub replica_address_map : Dict Text
  pub frontend : Text
  pub ublk_queue_depth : ℤ
  pub ublk_number_of_queue : ℤ
  pub target_address : Text
  pub salvage_requested : Bool
  pub snapshot_max_count : ℤ

pub record EngineFrontendCreateRequest : Type 0 where
  pub frontend : Text
  pub ublk_queue_depth : ℤ
  pub ublk_number_of_queue : ℤ
  pub nvme_tcp_nr_io_queues : ℤ
  pub target_address : Text
  pub engine_name : Text

pub record ReplicaCreateRequest : Type 0 where
  pub disk_name : Text
  pub disk_uuid : Text
  pub backing_image_name : Text

pub record ShardCreateRequest : Type 0 where
  pub lvs_name : Text
  pub lvs_uuid : Text
  pub slot_index : ℕ

pub record InstanceCreateRequest : Type 0 where
  pub data_engine : Text
  pub name : Text
  pub instance_type : Text
  pub volume_name : Text
  pub size : ℕ
  pub port_count : ℤ
  pub port_args : List Text
  pub binary : Text
  pub binary_args : List Text
  pub engine : EngineCreateRequest
  pub engine_frontend : EngineFrontendCreateRequest
  pub replica : ReplicaCreateRequest
  pub shard : ShardCreateRequest
  pub shard_group : ShardGroupSpec
  pub data_layout_type : DataLayout

-- A specification with nothing but a size.
abbrev sized : ℕ → SpdkInstanceSpec
sized size = record {
  replica_address_map = [];
  disk_name = [];
  disk_uuid = [];
  size = size;
  frontend = [];
  salvage_requested = false;
  backing_image_name = [];
  ublk_queue_depth = pos 0;
  ublk_number_of_queue = pos 0;
  nvme_tcp_nr_io_queues = pos 0;
  snapshot_max_count = pos 0;
  slot_index = 0;
  lvs_name = [];
  lvs_uuid = [];
  shard_group_spec = none;
}

-- The `switch` over the type for the second data engine.
unfoldable pub spdk_spec : InstanceType → InstanceCreateRequest → Result SpdkInstanceSpec
spdk_spec engine q = ok (record (sized q.size) {
  replica_address_map = q.engine.replica_address_map;
  frontend = q.engine.frontend;
  salvage_requested = q.engine.salvage_requested;
  snapshot_max_count = int32 q.engine.snapshot_max_count;
  ublk_queue_depth = int32 q.engine.ublk_queue_depth;
  ublk_number_of_queue = int32 q.engine.ublk_number_of_queue;
})
spdk_spec engine_frontend q = ok (record (sized q.size) {
  frontend = q.engine_frontend.frontend;
  ublk_queue_depth = int32 q.engine_frontend.ublk_queue_depth;
  ublk_number_of_queue = int32 q.engine_frontend.ublk_number_of_queue;
  nvme_tcp_nr_io_queues = int32 q.engine_frontend.nvme_tcp_nr_io_queues;
})
spdk_spec replica q = ok (record (sized q.size) {
  disk_name = q.replica.disk_name;
  disk_uuid = q.replica.disk_uuid;
  backing_image_name = q.replica.backing_image_name;
})
spdk_spec shard q = ok (record (sized q.size) {
  lvs_name = q.shard.lvs_name;
  lvs_uuid = q.shard.lvs_uuid;
  slot_index = q.shard.slot_index;
})
spdk_spec shard_group q = ok (record (sized q.size) { shard_group_spec = some q.shard_group })
spdk_spec unknown q = err (failed (codes "failed to create instance: invalid instance type"))

abbrev is_frontend : InstanceType → Bool
is_frontend engine_frontend = true
is_frontend _ = false

-- The request, once the two specifications are made.
abbrev spec_of :
    InstanceCreateRequest → Option ProcessInstanceSpec → Option SpdkInstanceSpec → InstanceSpec
spec_of q process spdk =
    let frontend = is_frontend (instance_type q.instance_type) in
    record {
      name = q.name;
      type = q.instance_type;
      volume_name = q.volume_name;
      engine_name = if frontend then q.engine_frontend.engine_name else [];
      target_address =
          if frontend then q.engine_frontend.target_address else q.engine.target_address;
      data_engine = get_data_engine q.data_engine;
      port_count = int32 q.port_count;
      port_args = q.port_args;
      process_instance_spec = process;
      spdk_instance_spec = spdk;
    }

unfoldable pub made : InstanceCreateRequest → Result Request
unfolding spdk_spec get_data_engine instance_type
made q =
    if eq_ℤ (get_data_engine q.data_engine) (pos 0)
    then ok (
        create q.data_layout_type
          (spec_of q (some (record { binary = q.binary; args = q.binary_args })) none))
    else spdk_spec (instance_type q.instance_type) q >>= λ spec.
        ok (create q.data_layout_type (spec_of q none (some spec)))

unfoldable pub create_request : InstanceCreateRequest → Result Request
unfolding made
create_request q =
    if is_empty q.name || is_empty q.instance_type
    then err (failed (codes "failed to create instance: missing required parameter"))
    else made q

-- A request that needs a name only.
unfoldable pub named_request : Text → Request → Result Request
named_request name request =
    if is_empty name then err (failed (codes "missing required parameter name")) else ok request

unfoldable pub delete_request : Text → Text → Text → Text → Bool → Result Request
unfolding named_request get_data_engine
delete_request engine_name name uuid type cleanup =
    named_request name (delete (get_data_engine engine_name) name uuid type cleanup)

unfoldable pub get_request : Text → Text → Text → Result Request
unfolding named_request get_data_engine
get_request engine_name name type = named_request name (get (get_data_engine engine_name) name type)

unfoldable pub suspend_request : Text → Text → Text → Result Request
unfolding named_request get_data_engine
suspend_request engine_name name type =
    named_request name (suspend (get_data_engine engine_name) name type)

unfoldable pub resume_request : Text → Text → Text → Result Request
unfolding named_request get_data_engine
resume_request engine_name name type =
    named_request name (resume (get_data_engine engine_name) name type)

unfoldable pub delete_target_request : Text → Text → Text → Result Request
unfolding named_request get_data_engine
delete_target_request engine_name name type =
    named_request name (delete_target (get_data_engine engine_name) name type)

unfoldable pub switch_over_request : Text → Text → Text → Text → Text → Text → Result Request
unfolding named_request get_data_engine
switch_over_request engine_name name type address engine_object phase =
    named_request name
      (switch_over (get_data_engine engine_name) name type engine_object address phase)
    >>= λ request.
        if is_empty address
        then err (failed (codes "missing required parameter target address"))
        else ok request

-- The process that takes the place of another one.
pub record ReplaceRequest : Type 0 where
  pub data_engine : Text
  pub name : Text
  pub instance_type : Text
  pub binary : Text
  pub port_count : ℤ
  pub args : List Text
  pub port_args : List Text
  pub terminate_signal : Text

unfoldable pub replace_request : ReplaceRequest → Result Request
unfolding get_data_engine
replace_request q =
    if is_empty q.name || is_empty q.binary
    then err (failed (codes "failed to replace instance: missing required parameter"))
    else if not (text_eq q.terminate_signal (codes "SIGHUP"))
    then err (failed (codes "unsupported terminate signal"))
    else ok (
        replace
          (record {
            name = q.name;
            type = q.instance_type;
            volume_name = [];
            engine_name = [];
            target_address = [];
            data_engine = get_data_engine q.data_engine;
            port_count = int32 q.port_count;
            port_args = q.port_args;
            process_instance_spec = some (record { binary = q.binary; args = q.args });
            spdk_instance_spec = none;
          })
          q.terminate_signal)
