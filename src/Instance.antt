-- ===== src/Instance.antt =====
-- pkg/instance/instance.go: the requests and responses of the instance service, and the client of the
-- SPDK service (vendor/github.com/longhorn/longhorn-spdk-engine), which it only calls. A field that
-- the service does not read is left out, and so is a `Spec` that is nil.
pub mod Convert
pub mod Watch
pub mod Client
pub mod Ops
pub mod V1
pub mod V2
pub mod Server
pub mod Serve
pub mod Listing
pub mod Shows
pub mod Caller
pub mod Logs
pub mod Levels
pub mod Tests
use longhorn_instance_manage.Base.{
  ℕ, ℤ, pos, Text, Bool, Option, none, some, List, Dict, Error, Result, codes, text_eq, eq_ℤ,
  if◌then◌else◌,
}

pub data DataEngine : Type 0 where
  v1 v2 : DataEngine

-- `s.ops[…]`: the enum's number on the wire may be any.
unfoldable pub ops_of : ℤ → Option DataEngine
ops_of n = if eq_ℤ n (pos 0) then some v1 else if eq_ℤ n (pos 1) then some v2 else none

pub data InstanceType : Type 0 where
  engine engine_frontend replica shard shard_group unknown : InstanceType

-- The cases of the `switch` over the type, in their order.
unfoldable pub instance_type : Text → InstanceType
instance_type t =
    if text_eq t (codes "engine")
    then engine
    else if text_eq t (codes "engine-frontend")
    then engine_frontend
    else if text_eq t (codes "replica")
    then replica
    else if text_eq t (codes "shard")
    then shard
    else if text_eq t (codes "shardgroup")
    then shard_group
    else unknown

pub record ProcessInstanceSpec : Type 0 where
  pub binary : Text
  pub args : List Text

pub record ShardEndpoint : Type 0 where
  pub address : Text
  pub slot_index : ℕ

pub record ShardGroupSpec : Type 0 where
  pub data_chunks : ℕ
  pub parity_chunks : ℕ
  pub strip_size_kb : ℕ
  pub shards : Dict ShardEndpoint
  pub salvage_requested : Bool

pub record SpdkInstanceSpec : Type 0 where
  pub replica_address_map : Dict Text
  pub disk_name : Text
  pub disk_uuid : Text
  pub size : ℕ
  pub frontend : Text
  pub salvage_requested : Bool
  pub backing_image_name : Text
  pub ublk_queue_depth : ℤ
  pub ublk_number_of_queue : ℤ
  pub nvme_tcp_nr_io_queues : ℤ
  pub snapshot_max_count : ℤ
  pub slot_index : ℕ
  pub lvs_name : Text
  pub lvs_uuid : Text
  pub shard_group_spec : Option ShardGroupSpec

pub record InstanceSpec : Type 0 where
  pub name : Text
  pub type : Text
  pub volume_name : Text
  pub engine_name : Text
  pub target_address : Text
  pub data_engine : ℤ
  pub port_count : ℤ
  pub port_args : List Text
  pub process_instance_spec : Option ProcessInstanceSpec
  pub spdk_instance_spec : Option SpdkInstanceSpec

pub data DataLayout : Type 0 where
  replicated sharded other_layout : DataLayout

pub record NvmeTcpPath : Type 0 where
  pub target_ip : Text
  pub target_port : ℤ
  pub engine_name : Text
  pub nqn : Text
  pub nguid : Text
  pub ana_state : Text

pub record InstanceResponse : Type 0 where
  pub name : Text
  pub type : Text
  pub volume_name : Text
  pub data_engine : DataEngine
  pub process_instance_spec : Option ProcessInstanceSpec
  pub port_count : ℤ
  pub port_args : List Text
  pub state : Text
  pub error_msg : Text
  pub port_start : ℤ
  pub port_end : ℤ
  pub target_port_start : ℤ
  pub target_port_end : ℤ
  pub conditions : Dict Bool
  pub ublk_id : ℤ
  pub uuid : Text
  pub engine_name : Text
  pub endpoint : Text
  pub frontend : Text
  pub active_path : Text
  pub preferred_path : Text
  pub paths : List NvmeTcpPath
  pub deleted : Bool

-- What the SPDK client returns.
pub record Replica : Type 0 where
  pub name : Text
  pub state : Text
  pub error_msg : Text
  pub port_start : ℤ
  pub port_end : ℤ
  pub uuid : Text

pub record Engine : Type 0 where
  pub name : Text
  pub state : Text
  pub error_msg : Text
  pub port : ℤ
  pub uuid : Text

pub record EngineFrontend : Type 0 where
  pub name : Text
  pub state : Text
  pub error_msg : Text
  pub target_port : ℤ
  pub ublk_id : ℤ
  pub uuid : Text
  pub engine_name : Text
  pub endpoint : Text
  pub frontend : Text
  pub active_path : Text
  pub preferred_path : Text
  pub paths : List (Option NvmeTcpPath)

pub record Shard : Type 0 where
  pub shard_id : Text
  pub state : Text
  pub error_msg : Text
  pub port : ℤ
  pub nvmf_nqn : Text
  pub uuid : Text

pub record ShardGroup : Type 0 where
  pub name : Text
  pub volume_name : Text
  pub process_state : Text
  pub error_msg : Text
  pub port : ℤ
  pub nvmf_nqn : Text
  pub head_lvol_uuid : Text

-- The calls that the service makes, on the state `S` of the SPDK service.
pub record SpdkClient (S : Type 0) : Type 0 where
  pub connect : S → Option Error
  pub engine_create :
      Text → Text → Text → ℕ → Dict Text → ℤ → Bool → ℤ → DataLayout → S → S × Result Engine
  pub engine_frontend_create :
      Text → Text → Text → Text → ℕ → Text → ℤ → ℤ → ℤ → S → S × Result EngineFrontend
  pub replica_create : Text → Text → Text → ℕ → ℤ → Text → S → S × Result Replica
  pub shard_create : Text → ℕ → ℕ → Text → Text → ℤ → S → S × Result Shard
  pub shard_group_create :
      Text → Text → ℕ → ℕ → ℕ → ℕ → Dict ShardEndpoint → ℤ → Bool → S → S × Result ShardGroup
  pub engine_delete : Text → S → S × Option Error
  pub engine_frontend_delete : Text → S → S × Option Error
  pub replica_delete : Text → Bool → S → S × Option Error
  pub shard_delete : Text → Bool → S → S × Option Error
  pub shard_group_delete : Text → Bool → S → S × Option Error
  pub engine_get : Text → S → Result Engine
  pub engine_frontend_get : Text → S → Result EngineFrontend
  pub replica_get : Text → S → Result Replica
  pub shard_get : Text → S → Result Shard
  pub shard_group_get : Text → S → Result ShardGroup
  pub engine_list : S → Result (List Engine)
  pub engine_frontend_list : S → Result (List EngineFrontend)
  pub replica_list : S → Result (List Replica)
  pub shard_list : S → Result (List Shard)
  pub shard_group_list : S → Result (List ShardGroup)
  pub engine_frontend_suspend : Text → S → S × Option Error
  pub engine_frontend_resume : Text → S → S × Option Error
  pub engine_frontend_switch_over : Text → Text → Text → Text → S → S × Option Error
  pub engine_delete_target : Text → S → S × Option Error
