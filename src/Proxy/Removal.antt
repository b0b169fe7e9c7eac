-- ===== src/Proxy/Removal.antt =====
-- How the proxy removes snapshots.
use longhorn_instance_manage.Base.{
  Text, ◌≡◌, ◌≢◌, ◌↔◌, ◌∙◌, subst, refl, Option, none, some, List, [], ◌∷◌, Error, Result, ok, err,
  Option-cases, Result-cases, inl, inr,
}
use longhorn_instance_manage.Proxy.{ProxyEngineRequest}
use longhorn_instance_manage.Proxy.Calls.{acted, reached, connected}
use longhorn_instance_manage.Proxy.Engines.{EngineClients, engine_id, with_task}
use longhorn_instance_manage.Proxy.Spdk.{SpdkClients, client_from_address, with_spdk}
use longhorn_instance_manage.Proxy.Snapshots.{newer, remove_all, v2_snapshot_remove}
use longhorn_instance_manage.Proxy.Snapshots.First.{v1_snapshot_remove}

newer-some : (o : Option Error) (e : Error) → (f : Error) × (newer o (some e) ≡ some f)
newer-some none e = (e, refl)
newer-some (some f) e = (f, refl)

module _ {S : Type 0} (delete_snapshot : Text → S → S × Option Error) where
  -- Each snapshot is deleted in its turn.
  unfoldable pub delete_each : List Text → S → S
  delete_each [] s = s
  delete_each (name ∷ names) s = delete_each names (delete_snapshot name s).0

  -- None of the deletions fails.
  unfoldable pub AllDeleted : List Text → S → Type 0
  AllDeleted [] s = Unit
  AllDeleted (name ∷ names) s =
      ((delete_snapshot name s).1 ≡ none) × AllDeleted names (delete_snapshot name s).0

  remove_all-delete_each :
      (names : List Text) (last : Option Error) (s : S)
      → (remove_all delete_snapshot names last s).0 ≡ delete_each names s
  unfolding remove_all delete_each
  remove_all-delete_each [] last s = refl
  remove_all-delete_each (name ∷ names) last s =
      remove_all-delete_each names _ (delete_snapshot name s).0

  remove_all-error :
      (names : List Text) (e : Error) (s : S)
      → (remove_all delete_snapshot names (some e) s).1 ≢ none
  unfolding remove_all
  remove_all-error [] e s h = cc
  remove_all-error (name ∷ names) e s h =
      let (f, same) = newer-some (delete_snapshot name s).1 e in
      let s' = (delete_snapshot name s).0 in
      remove_all-error names f s'
        (subst (λ last. (remove_all delete_snapshot names last s').1 ≡ none) same h)

  remove_all-none :
      (names : List Text) (s : S)
      → ((remove_all delete_snapshot names none s).1 ≡ none) ↔ AllDeleted names s
  unfolding remove_all AllDeleted
  remove_all-none [] s = (λ h. tt, λ h. refl)
  remove_all-none (name ∷ names) s =
      let s' = (delete_snapshot name s).0 in
      elim (Option-cases (delete_snapshot name s).1) [
        | inl fine ↦
            let (one, other) = remove_all-none names s' in
            rw (fine, remove_all) (λ h. (refl, one h), λ h. other h.1)
        | inr (f, failure) ↦
            rw (failure, remove_all) (λ h. absurd (remove_all-error names f s' h), λ h. cc)
      ]

acted-none : {S : Type 0} (r : S × Option Error) → ((acted r).1 ≡ ok tt) ↔ (r.1 ≡ none)
unfolding acted
acted-none (s, none) = (λ h. refl, λ h. refl)
acted-none (s, some e) = (λ h. cc, λ h. cc)

acted-same : {S : Type 0} (r : S × Option Error) → (acted r).0 ≡ r.0
unfolding acted
acted-same (s, none) = refl
acted-same (s, some e) = refl

-- What the state is where a client is made, and where none is.
abbrev pub if_made {ℓ} : {S : Type ℓ} → Option Error → S → S → S
if_made none done s = done
if_made (some e) done s = s

abbrev pub if_reached {ℓ} : {S : Type ℓ} → Result Text → (Text → S) → S → S
if_reached (err e) done s = s
if_reached (ok a) done s = done a

-- `SnapshotRemove` of the first data engine tries every name in its turn, whatever the others do, where its task is made, and none otherwise; it answers without an error exactly when the task is made and each snapshot is deleted.
pub v1_snapshot_remove_lem :
    {E : Type 0} (engines : EngineClients E) (req : ProxyEngineRequest) (names : List Text) (s : E)
    → ((v1_snapshot_remove engines req names s).0
        ≡ if_made
            (engines.new_task (engine_id req) s)
            (delete_each (engines.delete_snapshot (engine_id req)) names s)
            s)
      × (((v1_snapshot_remove engines req names s).1 ≡ ok tt) ↔ (
          (engines.new_task (engine_id req) s ≡ none)
          × AllDeleted (engines.delete_snapshot (engine_id req)) names s))
unfolding v1_snapshot_remove with_task connected
v1_snapshot_remove_lem engines req names s =
    let tried = remove_all (engines.delete_snapshot (engine_id req)) names none s in
    elim (Option-cases (engines.new_task (engine_id req) s)) [
      | inl made ↦
          let (one, other) = remove_all-none (engines.delete_snapshot (engine_id req)) names s in
          rw (made, v1_snapshot_remove, with_task, connected)
            (
              acted-same tried
                  ∙ remove_all-delete_each (engines.delete_snapshot (engine_id req)) names none s,
              (λ h. (refl, one ((acted-none tried).0 h)), λ h. (acted-none tried).1 (other h.1)),
            )
      | inr (e, failure) ↦
          rw (failure, v1_snapshot_remove, with_task, connected) (refl, (λ h. cc, λ h. cc h.0))
    ]

at_reached :
    {S : Type 0} (spdk : SpdkClients S) (req : ProxyEngineRequest) (names : List Text) (s : S)
    (a : Text)
    → (b : Text) × (ok a ≡ ok b)
      × AllDeleted (spdk.engine_frontend_snapshot_delete b req.engine_frontend_name) names s
    → AllDeleted (spdk.engine_frontend_snapshot_delete a req.engine_frontend_name) names s
at_reached spdk req names s a (b, same, all) =
    let eq : b ≡ a = cc in
    subst
      (λ c. AllDeleted (spdk.engine_frontend_snapshot_delete c req.engine_frontend_name) names s) eq
      all

-- `SnapshotRemove` of the second data engine tries every name in its turn, whatever the others do, where the SPDK service of the address is reached, and none otherwise; it answers without an error exactly when it is reached and each snapshot is deleted there.
pub v2_snapshot_remove_lem :
    {S : Type 0} (spdk : SpdkClients S) (req : ProxyEngineRequest) (names : List Text) (s : S)
    → ((v2_snapshot_remove spdk req names s).0
        ≡ if_reached
            (client_from_address spdk req.address s)
            (λ a.
              delete_each (spdk.engine_frontend_snapshot_delete a req.engine_frontend_name) names s)
            s)
      × (((v2_snapshot_remove spdk req names s).1 ≡ ok tt) ↔ (
          (a : Text) × (client_from_address spdk req.address s ≡ ok a)
          × AllDeleted (spdk.engine_frontend_snapshot_delete a req.engine_frontend_name) names s))
unfolding v2_snapshot_remove with_spdk reached
v2_snapshot_remove_lem spdk req names s =
    elim (Result-cases (client_from_address spdk req.address s)) [
      | inr (a, client) ↦
          let delete_snapshot = spdk.engine_frontend_snapshot_delete a req.engine_frontend_name in
          let tried = remove_all delete_snapshot names none s in
          let (one, other) = remove_all-none delete_snapshot names s in
          rw (client, v2_snapshot_remove, with_spdk, reached)
            (
              acted-same tried ∙ remove_all-delete_each delete_snapshot names none s,
              (
                λ h. (a, refl, one ((acted-none tried).0 h)),
                λ h. (acted-none tried).1 (other (at_reached spdk req names s a h)),
              ),
            )
      | inl (e, failure) ↦
          rw (failure, v2_snapshot_remove, with_spdk, reached) (refl, (λ h. cc, λ h. cc h.1))
    ]
