-- ===== src/Instance/Shows.antt =====
-- What `InstanceList` of the first data engine returns.
use longhorn_instance_manage.Base.{
  ℕ, Text, ◌≡◌, refl, ◌∙◌, Bool, true, false, Option, none, some, [], ◌∷◌, Dict, lookup, UniqueKeys,
  text_eq, text_eq_iff, text_eq_refl, subst, ap, Bool-cases, Option-cases, inl, inr, arith, ok, map,
}
use longhorn_instance_manage.Bitmap.{PortBitmap}
use longhorn_instance_manage.Process.{Process}
use longhorn_instance_manage.Process.Response.{rpc_response}
use longhorn_instance_manage.Manager.{Manager}
use longhorn_instance_manage.Manager.Handlers.{process_list, respond}
use longhorn_instance_manage.Manager.Invariant.{Inv}
use longhorn_instance_manage.Instance.{InstanceResponse}
use longhorn_instance_manage.Instance.Client.{Connection, client_process_list}
use longhorn_instance_manage.Instance.Convert.{process_response}
use longhorn_instance_manage.Instance.V1.{v1_list}
use longhorn_instance_manage.Instance.Ops.{insert_all, processes_named, process_type}
use longhorn_instance_manage.Instance.Listing.{last_of, lookup-insert_all, or_else}

-- A connection on which every call arrives and is answered.
abbrev pub working : Connection
working = record { connect_error = none; undelivered = none; lost = none }

module _ (is_engine : Text → Bool) (h : ℕ → Process) where
  -- A process as an instance: an engine or a replica, by its name.
  abbrev pub shown : Option ℕ → Option InstanceResponse
  shown none = none
  shown (some r) = some (process_response (process_type is_engine (h r).name) (rpc_response (h r)))

  last_of-processes_named :
      (k : Text) (m : Dict ℕ)
      → UniqueKeys m
      → ((j : Text) (r : ℕ) → lookup j m ≡ some r → (h r).name ≡ j)
      → last_of k (processes_named is_engine (map (respond h) m)) ≡ shown (lookup k m)
  unfolding last_of processes_named lookup UniqueKeys rpc_response
  last_of-processes_named k [] u names = refl
  last_of-processes_named k ((j, r) ∷ m) u names =
      let named_j : (h r).name ≡ j = names j r (ground (arith, text_eq_refl j)) in
      let rest =
        last_of-processes_named k m u.1
          (λ i r' e. names i r' (ground (arith, e, u.0, text_eq_iff j i))) in
      elim (Bool-cases (text_eq j k)) [
        | inl same ↦
            let gone : lookup k m ≡ none =
              subst (λ (i : Text). lookup i m ≡ none) ((text_eq_iff j k).0 same) u.0 in
            let here : text_eq (h r).name k ≡ true = rw (named_j, same) in
            rw (rest, gone, same, here)
        | inr other ↦
            let there : text_eq (h r).name k ≡ false = rw (named_j, other) in
            elim (Option-cases (lookup k m)) [
              | inl e ↦ rw (rest, e, other, there)
              | inr (i, e) ↦ rw (rest, e, other)
            ]
      ]

module _ {B : Type 0} (bm : PortBitmap B) (is_engine : Text → Bool) where
  -- In a well-formed manager, over a connection that works, `InstanceList` of the first data engine
  -- changes nothing and succeeds, and it shows under each name the process that the table has under it,
  -- as an engine or a replica, and nothing else.
  pub v1_list-lookup :
      (m : Manager B) (k : Text)
      → Inv bm m
      → (out : Dict InstanceResponse) × (v1_list bm working is_engine [] m ≡ (m, ok out))
        × (lookup k out ≡ shown is_engine m.heap (lookup k m.processes))
  unfolding v1_list client_process_list process_list lookup
  v1_list-lookup m k v = (
    insert_all (processes_named is_engine (map (respond m.heap) m.processes)) [],
    refl,
    lookup-insert_all k (processes_named is_engine (map (respond m.heap) m.processes)) []
        ∙ ap (λ (o : Option InstanceResponse). or_else o (lookup k []))
            (last_of-processes_named is_engine m.heap k m.processes v.keys v.names)
        ∙ nothing_else (shown is_engine m.heap (lookup k m.processes)),
  )
    where
      nothing_else : (o : Option InstanceResponse) → or_else o none ≡ o
      nothing_else none = refl
      nothing_else (some i) = refl
