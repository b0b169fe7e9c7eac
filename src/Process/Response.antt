-- ===== src/Process/Response.antt =====
-- `RPCResponse` of pkg/process/process.go: what a client sees of a process.
use longhorn_instance_manage.Base.{ℤ, Text, Bool, false, List, Dict}
use longhorn_instance_manage.Process.{Process, State}

pub record ProcessSpec : Type 0 where
  pub name : Text
  pub binary : Text
  pub args : List Text
  pub port_count : ℤ
  pub port_args : List Text

pub record ProcessStatus : Type 0 where
  pub state : State
  pub error_msg : Text
  pub port_start : ℤ
  pub port_end : ℤ
  pub conditions : Dict Bool
  pub uuid : Text

pub record ProcessResponse : Type 0 where
  pub spec : ProcessSpec
  pub status : ProcessStatus
  pub deleted : Bool

unfoldable pub rpc_response : Process → ProcessResponse
rpc_response p = record {
  spec = record {
    name = p.name;
    binary = p.binary;
    args = p.args;
    port_count = p.port_count;
    port_args = p.port_args;
  };
  status = record {
    state = p.state;
    error_msg = p.error_msg;
    port_start = p.port_start;
    port_end = p.port_end;
    conditions = p.conditions;
    uuid = p.uuid;
  };
  deleted = false;
}
