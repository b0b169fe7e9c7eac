-- ===== src/Proxy/Client.antt =====
-- pkg/client/proxy*.go and pkg/client/types.go: the client of the proxy service. The service, with the
-- connection, is an argument: it may fail in any way.
pub mod Calls
pub mod Laws
pub mod Expected
pub mod Checks
pub mod Sent
mod Tests
use longhorn_instance_manage.Base.{
  ℕ, ℤ, pos, Text, Bool, ◌&&◌, ◌||◌, Option, none, some, List, [], ◌∷◌, ◌++◌, is_empty, text_eq,
  codes, leb, ◌-◌, ◌+◌, if◌then◌else◌, Error, failed, Result, err, map,
}
use longhorn_instance_manage.Proxy.{ProxyEngineRequest, ReplicaMode}
use longhorn_instance_manage.Proxy.Server.{Call, AnswerOf}

-- What the caller says of the volume.
pub record Target : Type 0 where
  pub data_engine : Text
  pub engine_name : Text
  pub engine_frontend_name : Text
  pub volume_name : Text
  pub service_address : Text

-- What the client uses of vendor/github.com/longhorn/longhorn-engine: `IsQualifiedName`,
-- `VolumeHeadName` and the conversion of a replica's mode.
pub record ClientLibrary : Type 0 where
  pub is_qualified_name : Text → Bool
  pub volume_head_name : Text
  pub replica_mode_to_grpc : Text → ReplicaMode

-- `validateProxyMethodParameters`.
unfoldable pub validate_proxy_method_parameters : List Text → Option Error
validate_proxy_method_parameters [] = none
validate_proxy_method_parameters (value ∷ rest) =
    if is_empty value
    then some (failed (codes "missing required parameter"))
    else validate_proxy_method_parameters rest

-- `strings.ToLower` and `strings.HasSuffix`.
abbrev pub lower : ℕ → ℕ
lower c = if leb b'A' c && leb c b'Z' then c + 32 else c

unfoldable pub has_suffix : Text → Text → Bool
has_suffix suffix [] = is_empty suffix
has_suffix suffix (c ∷ s) = text_eq suffix (c ∷ s) || has_suffix suffix s

-- The number of the data engine. The name that `getDataEngine` returns is one of the enum's, so that its
-- lookup in `DataEngine_value` does not fail.
unfoldable pub get_data_engine : Text → ℤ
unfolding has_suffix
get_data_engine name = if has_suffix (codes "v2") (map lower name) then pos 1 else pos 0

-- `getCloneMode`: a linked clone is 1 in the enum, a full copy 0.
unfoldable pub get_clone_mode : Text → ℤ
get_clone_mode mode = if text_eq mode (codes "linked-clone") then pos 1 else pos 0

abbrev pub common : Target → List Text
common t = t.engine_name ∷ t.volume_name ∷ t.service_address ∷ []

-- The frontend's name is required where the data engine is written "v2".
unfoldable pub with_frontend_name : Target → List Text → List Text
with_frontend_name t inputs =
    if text_eq t.data_engine (codes "v2") then t.engine_frontend_name ∷ inputs else inputs

-- The requests with the frontend's name and without it.
abbrev pub request_with_frontend : Target → ProxyEngineRequest
request_with_frontend t = record {
  address = t.service_address;
  engine_name = t.engine_name;
  volume_name = t.volume_name;
  data_engine = get_data_engine t.data_engine;
  engine_frontend_name = t.engine_frontend_name;
}

abbrev pub request : Target → ProxyEngineRequest
request t = record (request_with_frontend t) { engine_frontend_name = [] }

-- The service as the client sees it, on the state `W` of everything behind it.
abbrev pub Service : Type 0 → Type 0
Service W = ProxyEngineRequest → (call : Call) → W → W × Result (AnswerOf call)

module _ {W : Type 0} (service : Service W) where
  unfoldable pub send :
      Option Error → ProxyEngineRequest → (call : Call) → W → W × Result (AnswerOf call)
  send (some e) req call w = (w, err e)
  send none req call w = service req call w

  -- A call whose parameters are checked first.
  unfoldable pub through :
      List Text → ProxyEngineRequest → (call : Call) → W → W × Result (AnswerOf call)
  unfolding send validate_proxy_method_parameters
  through inputs req call w = send (validate_proxy_method_parameters inputs) req call w
