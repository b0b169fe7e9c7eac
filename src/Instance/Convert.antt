-- ===== src/Instance/Convert.antt =====
-- pkg/instance/instance.go: the conversions of responses.
use longhorn_instance_manage.Base.{
  pos, int32, Text, false, Option, none, some, List, [], ◌∷◌, codes, text_eq, if◌then◌else◌,
}
use longhorn_instance_manage.Process.{State, starting, running, stopping, stopped, error}
use longhorn_instance_manage.Process.Response.{ProcessResponse}
use longhorn_instance_manage.Instance.{
  v1, v2, InstanceResponse, NvmeTcpPath, Replica, Engine, EngineFrontend, Shard, ShardGroup,
}

-- The texts of pkg/types/types.go.
unfoldable pub state_text : State → Text
state_text running = codes "running"
state_text starting = codes "starting"
state_text stopped = codes "stopped"
state_text stopping = codes "stopping"
state_text error = codes "error"

-- A response with every other field at its zero value.
abbrev pub zero_response : InstanceResponse
zero_response = record {
  name = [];
  type = [];
  volume_name = [];
  data_engine = v2;
  process_instance_spec = none;
  port_count = pos 0;
  port_args = [];
  state = [];
  error_msg = [];
  port_start = pos 0;
  port_end = pos 0;
  target_port_start = pos 0;
  target_port_end = pos 0;
  conditions = [];
  ublk_id = pos 0;
  uuid = [];
  engine_name = [];
  endpoint = [];
  frontend = [];
  active_path = [];
  preferred_path = [];
  paths = [];
  deleted = false;
}

unfoldable pub process_response : Text → ProcessResponse → InstanceResponse
unfolding state_text
process_response type p =
    let is_engine = text_eq type (codes "engine") in
    record zero_response {
      name = p.spec.name;
      type = type;
      data_engine = v1;
      process_instance_spec = some (record { binary = p.spec.binary; args = p.spec.args });
      port_count = p.spec.port_count;
      port_args = p.spec.port_args;
      state = state_text p.status.state;
      port_start = p.status.port_start;
      port_end = p.status.port_end;
      target_port_start = if is_engine then p.status.port_start else pos 0;
      target_port_end = if is_engine then p.status.port_end else pos 0;
      error_msg = p.status.error_msg;
      conditions = p.status.conditions;
      uuid = p.status.uuid;
      deleted = p.deleted;
    }

unfoldable pub replica_response : Replica → InstanceResponse
replica_response r = record zero_response {
  name = r.name;
  type = codes "replica";
  state = r.state;
  error_msg = r.error_msg;
  port_start = r.port_start;
  port_end = r.port_end;
  uuid = r.uuid;
}

unfoldable pub engine_response : Engine → InstanceResponse
engine_response e = record zero_response {
  name = e.name;
  type = codes "engine";
  state = e.state;
  error_msg = e.error_msg;
  port_start = e.port;
  port_end = e.port;
  uuid = e.uuid;
}

-- The loop over the paths, which skips those that are nil.
unfoldable pub present : List (Option NvmeTcpPath) → List NvmeTcpPath
present [] = []
present (none ∷ rest) = present rest
present (some path ∷ rest) = path ∷ present rest

unfoldable pub engine_frontend_response : EngineFrontend → InstanceResponse
unfolding present
engine_frontend_response e = record zero_response {
  name = e.name;
  type = codes "engine-frontend";
  state = e.state;
  error_msg = e.error_msg;
  target_port_start = int32 e.target_port;
  target_port_end = int32 e.target_port;
  ublk_id = int32 e.ublk_id;
  uuid = e.uuid;
  engine_name = e.engine_name;
  endpoint = e.endpoint;
  frontend = e.frontend;
  active_path = e.active_path;
  preferred_path = e.preferred_path;
  paths = present e.paths;
}

unfoldable pub shard_response : Shard → InstanceResponse
shard_response s = record zero_response {
  name = s.shard_id;
  type = codes "shard";
  state = s.state;
  error_msg = s.error_msg;
  port_start = s.port;
  port_end = s.port;
  endpoint = s.nvmf_nqn;
  uuid = s.uuid;
}

unfoldable pub shard_group_response : ShardGroup → InstanceResponse
shard_group_response g = record zero_response {
  name = g.name;
  type = codes "shardgroup";
  volume_name = g.volume_name;
  state = g.process_state;
  error_msg = g.error_msg;
  port_start = g.port;
  port_end = g.port;
  endpoint = g.nvmf_nqn;
  uuid = g.head_lvol_uuid;
}
