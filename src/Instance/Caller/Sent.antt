-- ===== src/Instance/Caller/Sent.antt =====
-- What the requests of the client of the instance service lead to.
use longhorn_instance_manage.Base.{
  pos, Text, ◌≡◌, ◌≢◌, ◌∙◌, sym, refl, ◌||◌, none, some, is_empty, codes, Error, failed, ok, err,
  ◌⊎◌, inl, inr, Bool-cases, Result-cases, map,
}
use longhorn_instance_manage.Instance.{
  InstanceType, unknown, instance_type, ProcessInstanceSpec, SpdkInstanceSpec, InstanceSpec,
  DataLayout, v1, v2, ops_of,
}
use longhorn_instance_manage.Instance.Server.{Request, create}
use longhorn_instance_manage.Proxy.Client.{get_data_engine, has_suffix, lower}
use longhorn_instance_manage.Instance.Caller.{
  InstanceCreateRequest, spdk_spec, spec_of, made, create_request,
}

-- The specification that the data engine reads is there, and the second one knows the type.
abbrev pub IsComplete : InstanceSpec → Type 0
IsComplete spec =
    ((ops_of spec.data_engine ≡ some v1)
      × (p : ProcessInstanceSpec) × (spec.process_instance_spec ≡ some p))
    ⊎ ((ops_of spec.data_engine ≡ some v2)
        × (instance_type spec.type ≢ unknown)
        × (s : SpdkInstanceSpec) × (spec.spdk_instance_spec ≡ some s))

spdk_spec-known :
    (t : InstanceType) (q : InstanceCreateRequest) (s : SpdkInstanceSpec)
    → spdk_spec t q ≡ ok s
    → t ≢ unknown
unfolding spdk_spec
spdk_spec-known t q s h u = cc

get_data_engine-cases :
    (name : Text) → (get_data_engine name ≡ pos 0) ⊎ (get_data_engine name ≡ pos 1)
unfolding get_data_engine
get_data_engine-cases name = elim (Bool-cases (has_suffix (codes "v2") (map lower name))) [
  | inl h ↦ inr (rw (h, get_data_engine) refl)
  | inr h ↦ inl (rw (h, get_data_engine) refl)
]

made_first :
    (q : InstanceCreateRequest)
    → get_data_engine q.data_engine ≡ pos 0
    → made q
      ≡ ok (
          create q.data_layout_type
            (spec_of q (some (record { binary = q.binary; args = q.binary_args })) none))
unfolding made
made_first q first = rw (first, made) refl

made_second :
    (q : InstanceCreateRequest) (own : SpdkInstanceSpec)
    → get_data_engine q.data_engine ≡ pos 1
    → spdk_spec (instance_type q.instance_type) q ≡ ok own
    → made q ≡ ok (create q.data_layout_type (spec_of q none (some own)))
unfolding made
made_second q own second given = rw (second, given, made) refl

made_unknown :
    (q : InstanceCreateRequest) (e : Error)
    → get_data_engine q.data_engine ≡ pos 1
    → spdk_spec (instance_type q.instance_type) q ≡ err e
    → made q ≡ err e
unfolding made
made_unknown q e second failure = rw (second, failure, made) refl

made-IsComplete :
    (q : InstanceCreateRequest) (request : Request)
    → made q ≡ ok request
    → (layout : DataLayout) × (spec : InstanceSpec) × (request ≡ create layout spec)
      × IsComplete spec
unfolding ops_of
made-IsComplete q request h = elim (get_data_engine-cases q.data_engine) [
  | inl first ↦
      let process : ProcessInstanceSpec = record { binary = q.binary; args = q.binary_args } in
      let same : request ≡ create q.data_layout_type (spec_of q (some process) none) =
        cc (made_first q first, h) in
      (
        q.data_layout_type,
        spec_of q (some process) none,
        same,
        inl (rw (first, ops_of) refl, process, refl),
      )
  | inr second ↦ elim (Result-cases (spdk_spec (instance_type q.instance_type) q)) [
    | inl (e, failure) ↦ cc (made_unknown q e second failure, h)
    | inr (own, given) ↦
        let same : request ≡ create q.data_layout_type (spec_of q none (some own)) =
          cc (made_second q own second given, h) in
        (
          q.data_layout_type,
          spec_of q none (some own),
          same,
          inr (
            rw (second, ops_of) refl,
            spdk_spec-known (instance_type q.instance_type) q own given,
            own,
            refl,
          ),
        )
  ]
]

-- Every request to create an instance that the client sends names one of the two data engines and has the specification that this engine reads, and a request to the second one has a type that it knows.
pub create_request-IsComplete :
    (q : InstanceCreateRequest) (request : Request)
    → create_request q ≡ ok request
    → (layout : DataLayout) × (spec : InstanceSpec) × (request ≡ create layout spec)
      × IsComplete spec
unfolding create_request
create_request-IsComplete q request h =
    elim (Bool-cases (is_empty q.name || is_empty q.instance_type)) [
      | inl lacking ↦
          let refused : create_request q
              ≡ err (failed (codes "failed to create instance: missing required parameter")) =
            rw (lacking, create_request) refl in
          cc (refused, h)
      | inr given ↦
          let same : create_request q ≡ made q = rw (given, create_request) refl in
          made-IsComplete q request (sym same ∙ h)
    ]
