-- ===== src/Instance/Caller/Tests.antt =====
-- Runs of the client of the instance service and of the stream of a log.
use longhorn_instance_manage.Base.{
  ℕ, ◌+◌, pos, ◌≡◌, refl, none, some, List, [], ◌∷◌, Text, codes, ok, text_eq, panic, Result, false,
  append_nil,
}
use longhorn_instance_manage.Manager.Logs.{Send, IsPart}
use longhorn_instance_manage.Manager.Tests.{one_process, in_table}
use longhorn_instance_manage.Instance.{replicated, DataLayout, InstanceSpec}
use longhorn_instance_manage.Instance.Logs.{
  LogConnection, IsReliable, instance_log, instance_log-IsPart,
}
use longhorn_instance_manage.Instance.Server.{create, no_instance}
use longhorn_instance_manage.Proxy.Client.{get_data_engine, has_suffix}
use longhorn_instance_manage.Instance.Caller.{InstanceCreateRequest, create_request, made, spec_of}
use longhorn_instance_manage.Instance.Caller.Calls.{instance_create, sent}
use longhorn_instance_manage.Instance.Caller.Sent.{IsComplete, create_request-IsComplete}

-- A replica for the second data engine.
abbrev a_replica_request : InstanceCreateRequest
a_replica_request = record {
  data_engine = codes "DATA_ENGINE_V2";
  name = codes "r-0";
  instance_type = codes "replica";
  volume_name = codes "vol";
  size = 4096;
  port_count = pos 2;
  port_args = [];
  binary = codes "longhorn";
  binary_args = [];
  engine = record {
    replica_address_map = [];
    frontend = [];
    ublk_queue_depth = pos 0;
    ublk_number_of_queue = pos 0;
    target_address = [];
    salvage_requested = false;
    snapshot_max_count = pos 0;
  };
  engine_frontend = record {
    frontend = [];
    ublk_queue_depth = pos 0;
    ublk_number_of_queue = pos 0;
    nvme_tcp_nr_io_queues = pos 0;
    target_address = [];
    engine_name = [];
  };
  replica = record { disk_name = codes "disk"; disk_uuid = codes "d1"; backing_image_name = [] };
  shard = record { lvs_name = []; lvs_uuid = []; slot_index = 0 };
  shard_group = record {
    data_chunks = 0;
    parity_chunks = 0;
    strip_size_kb = 0;
    shards = [];
    salvage_requested = false;
  };
  data_layout_type = replicated;
}

-- An instance of the first data engine.
abbrev first_request : InstanceCreateRequest
first_request = record a_replica_request { data_engine = codes "v1" }

create_request-IsComplete_example :
    (layout : DataLayout) × (spec : InstanceSpec) × (create replicated
        (spec_of first_request (some (record { binary = codes "longhorn"; args = [] })) none)
      ≡ create layout spec)
    × IsComplete spec
unfolding create_request made get_data_engine has_suffix text_eq
create_request-IsComplete_example =
    create_request-IsComplete first_request
      (create replicated
        (spec_of first_request (some (record { binary = codes "longhorn"; args = [] })) none))
      refl

-- The connection carries everything.
abbrev whole : LogConnection
whole = record { connect_error = none; open_error = none; carry = λ s. s }

-- The caller takes only one line.
abbrev takes_one : Send
takes_one [] line = none
takes_one (l ∷ ls) line = some panic

abbrev takes_all : Send
takes_all ls line = none

abbrev log_of_any : ℕ → Result (List Text)
log_of_any r = ok (codes "one" ∷ codes "two" ∷ [])

whole-IsReliable : IsReliable whole
whole-IsReliable s = (([], append_nil s.0, λ h. refl), λ h. h)

instance_log-IsPart_example :
    IsPart
      (instance_log whole log_of_any takes_all takes_one (pos 0) (codes "a") one_process)
      (codes "one" ∷ codes "two" ∷ [])
instance_log-IsPart_example =
    instance_log-IsPart whole log_of_any takes_all takes_one (codes "a") one_process 0
      (codes "one" ∷ codes "two" ∷ []) whole-IsReliable in_table refl (pos 0)

-- Without a name nothing is sent, whatever the service is.
abbrev nameless : InstanceCreateRequest
nameless = record a_replica_request { name = [] }

nothing_sent : (instance_create {W = ℕ} (λ request s. (s + 1, no_instance panic)) nameless 0).0 ≡ 0
unfolding instance_create create_request sent
nothing_sent = refl
