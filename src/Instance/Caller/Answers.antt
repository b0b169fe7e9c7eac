-- ===== src/Instance/Caller/Answers.antt =====
-- pkg/api/instance.go: what the client of the instance service makes of an answer. The deprecated name
-- of the data engine and the standby ports, which the responses of this model do not have, are left
-- out.
use longhorn_instance_manage.Base.{
  ℤ, Text, Bool, false, Option, List, [], ◌∷◌, Dict, codes, failed, Result, ok, err,
}
use longhorn_instance_manage.Instance.{
  DataEngine, v1, v2, ProcessInstanceSpec, NvmeTcpPath, InstanceResponse,
}
use longhorn_instance_manage.Instance.Server.{Answer, instance_answer, list_answer, empty_answer}

pub record InstanceStatus : Type 0 where
  pub state : Text
  pub error_msg : Text
  pub conditions : Dict Bool
  pub port_start : ℤ
  pub port_end : ℤ
  pub target_port_start : ℤ
  pub target_port_end : ℤ
  pub ublk_id : ℤ
  pub uuid : Text
  pub endpoint : Text
  pub frontend : Text
  pub active_path : Text
  pub preferred_path : Text
  pub paths : List NvmeTcpPath

pub record Instance : Type 0 where
  pub name : Text
  pub type : Text
  pub data_engine : Text
  pub port_count : ℤ
  pub port_args : List Text
  pub instance_status : InstanceStatus
  pub deleted : Bool
  pub process_instance_spec : Option ProcessInstanceSpec

-- `dataEngines`.
abbrev pub data_engines : DataEngine → Text
data_engines v1 = codes "v1"
data_engines v2 = codes "v2"

unfoldable pub rpc_to_instance_status : InstanceResponse → InstanceStatus
rpc_to_instance_status r = record {
  state = r.state;
  error_msg = r.error_msg;
  conditions = r.conditions;
  port_start = r.port_start;
  port_end = r.port_end;
  target_port_start = r.target_port_start;
  target_port_end = r.target_port_end;
  ublk_id = r.ublk_id;
  uuid = r.uuid;
  endpoint = r.endpoint;
  frontend = r.frontend;
  active_path = r.active_path;
  preferred_path = r.preferred_path;
  paths = r.paths;
}

-- The volume's and the engine's names are not passed on, nor is the mark of a deletion.
unfoldable pub rpc_to_instance : InstanceResponse → Instance
unfolding rpc_to_instance_status
rpc_to_instance r = record {
  name = r.name;
  type = r.type;
  data_engine = data_engines r.data_engine;
  port_count = r.port_count;
  port_args = r.port_args;
  instance_status = rpc_to_instance_status r;
  deleted = false;
  process_instance_spec = r.process_instance_spec;
}

unfoldable pub rpc_to_instance_list : Dict InstanceResponse → Dict Instance
unfolding rpc_to_instance
rpc_to_instance_list [] = []
rpc_to_instance_list ((name, r) ∷ rest) = (name, rpc_to_instance r) ∷ rpc_to_instance_list rest

-- A method has an answer of its own type only; another one would be an error of gRPC.
unfoldable pub received_instance : Answer → Result Instance
unfolding rpc_to_instance
received_instance (instance_answer (ok r)) = ok (rpc_to_instance r)
received_instance (instance_answer (err e)) = err e
received_instance (list_answer r) = err (failed (codes "another method's answer"))
received_instance (empty_answer r) = err (failed (codes "another method's answer"))

unfoldable pub received_list : Answer → Result (Dict Instance)
unfolding rpc_to_instance_list
received_list (list_answer (ok instances)) = ok (rpc_to_instance_list instances)
received_list (list_answer (err e)) = err e
received_list (instance_answer r) = err (failed (codes "another method's answer"))
received_list (empty_answer r) = err (failed (codes "another method's answer"))

unfoldable pub received_empty : Answer → Result (Unit {0})
received_empty (empty_answer r) = r
received_empty (instance_answer r) = err (failed (codes "another method's answer"))
received_empty (list_answer r) = err (failed (codes "another method's answer"))
