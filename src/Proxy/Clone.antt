-- ===== src/Proxy/Clone.antt =====
-- What `SnapshotCloneStatus` of the second data engine answers.
use longhorn_instance_manage.Base.{
  Text, ◌≡◌, ◌∙◌, ap, refl, Bool, true, false, ◌||◌, List, [], ◌∷◌, Dict, insert, arith, Result, ok,
  err,
}
use longhorn_instance_manage.Proxy.{ProxyEngineRequest, CloneStatus}
use longhorn_instance_manage.Proxy.Address.{add_tcp_prefix}
use longhorn_instance_manage.Proxy.Calls.{asked, internal_of, reached}
use longhorn_instance_manage.Proxy.Spdk.{
  SpdkClients, SpdkEngine, Mode, client_from_address, with_spdk,
}
use longhorn_instance_manage.Proxy.Replicas.{address_of}
use longhorn_instance_manage.Proxy.Snapshots.{
  CloneAnswer, silent, idle, cloning, CloneFound, clone_answer, note, clone_loop, clone_result,
  v2_snapshot_clone_status,
}
use longhorn_instance_manage.Instance.Ops.{insert_all}

abbrev nonempty {ℓ} : {A : Type ℓ} → List A → Bool
nonempty [] = false
nonempty (x ∷ xs) = true

abbrev pub is_ok : {A : Type 0} → Result A → Bool
is_ok (err e) = false
is_ok (ok a) = true

abbrev pub is_heard : CloneAnswer → Bool
is_heard silent = false
is_heard idle = true
is_heard (cloning answer) = true

-- Something was gathered.
abbrev told : CloneFound → Bool
told found = nonempty found.statuses || nonempty found.reachable_no_state

nonempty-insert {ℓ} : {V : Type ℓ} (k : Text) (v : V) (m : Dict V) → nonempty (insert k v m) ≡ true
unfolding insert
nonempty-insert k v [] = refl
nonempty-insert k v ((j, w) ∷ m) = ground arith

module _ {S : Type 0} (spdk : SpdkClients S) (req : ProxyEngineRequest) (s : S) where
  -- Some replica says something.
  unfoldable pub any_heard : Dict Text → Dict Mode → Bool
  any_heard addresses [] = false
  any_heard addresses ((name, mode) ∷ modes) =
      is_heard (clone_answer spdk req addresses name mode s) || any_heard addresses modes

  -- The clones that the replicas tell of, under their addresses with the prefix.
  abbrev told_of : Text → CloneAnswer → List (Text × CloneStatus) → List (Text × CloneStatus)
  told_of key silent rest = rest
  told_of key idle rest = rest
  told_of key (cloning answer) rest = (key, answer) ∷ rest

  unfoldable pub clones : Dict Text → Dict Mode → List (Text × CloneStatus)
  clones addresses [] = []
  clones addresses ((name, mode) ∷ modes) =
      told_of (add_tcp_prefix (address_of addresses name))
        (clone_answer spdk req addresses name mode s) (clones addresses modes)

  note-statuses :
      (addresses : Dict Text) (name : Text) (answer : CloneAnswer) (found : CloneFound)
      (rest : List (Text × CloneStatus))
      → insert_all rest (note addresses name answer found).statuses
        ≡ insert_all
            (told_of (add_tcp_prefix (address_of addresses name)) answer rest)
            found.statuses
  unfolding note insert_all
  note-statuses addresses name silent found rest = refl
  note-statuses addresses name idle found rest = refl
  note-statuses addresses name (cloning answer) found rest = refl

  clone_loop-statuses :
      (addresses : Dict Text) (modes : Dict Mode) (found : CloneFound)
      → (clone_loop spdk req addresses modes found s).statuses
        ≡ insert_all (clones addresses modes) found.statuses
  unfolding clone_loop clones insert_all
  clone_loop-statuses addresses [] found = refl
  clone_loop-statuses addresses ((name, mode) ∷ modes) found =
      let answer = clone_answer spdk req addresses name mode s in
      clone_loop-statuses addresses modes (note addresses name answer found)
      ∙ note-statuses addresses name answer found (clones addresses modes)

nonempty-insert_all {ℓ} :
    {V : Type ℓ} (items : List (Text × V)) (m : Dict V)
    → nonempty m ≡ true
    → nonempty (insert_all items m) ≡ true
unfolding insert_all
nonempty-insert_all [] m h = h
nonempty-insert_all ((k, v) ∷ items) m h =
    nonempty-insert_all items (insert k v m) (nonempty-insert k v m)

clone_result-statuses :
    (addresses : Dict Text) (found : CloneFound)
    → nonempty found.statuses ≡ true
    → clone_result addresses found ≡ ok found.statuses
unfolding clone_result
clone_result-statuses addresses found h = ground arith

module _ {S : Type 0} (spdk : SpdkClients S) (req : ProxyEngineRequest) (s : S) (a : Text)
    (engine : SpdkEngine) (client : client_from_address spdk req.address s ≡ ok a)
    (engine_found : spdk.engine_get a req.engine_name s ≡ ok engine) where
  abbrev gathered : CloneFound
  gathered =
      clone_loop spdk req engine.replica_address_map engine.replica_mode_map
        (record { statuses = []; reachable_no_state = [] }) s

  asked_all :
      v2_snapshot_clone_status spdk req s ≡ (s, clone_result engine.replica_address_map gathered)
  unfolding v2_snapshot_clone_status with_spdk reached asked internal_of
  asked_all =
      rw (client, engine_found, v2_snapshot_clone_status, with_spdk, reached, asked, internal_of)
        refl

  -- Where the engine answers and some replica tells of a clone, the answer has the clones that the replicas tell of, under their addresses with the prefix, and nothing else; of replicas with one address it has the last one asked.
  pub v2_snapshot_clone_status-clones :
      (key : Text) (answer : CloneStatus) (rest : List (Text × CloneStatus))
      → clones spdk req s engine.replica_address_map engine.replica_mode_map ≡ (key, answer) ∷ rest
      → v2_snapshot_clone_status spdk req s ≡ (s, ok (insert_all ((key, answer) ∷ rest) []))
  unfolding insert_all insert
  v2_snapshot_clone_status-clones key answer rest told_clones =
      let statuses : gathered.statuses ≡ insert_all ((key, answer) ∷ rest) [] =
        clone_loop-statuses spdk req s engine.replica_address_map engine.replica_mode_map
          (record { statuses = []; reachable_no_state = [] })
        ∙ ap (λ l. insert_all l []) told_clones in
      let filled : nonempty gathered.statuses ≡ true =
        ap nonempty statuses ∙ nonempty-insert_all rest ((key, answer) ∷ []) refl in
      asked_all
      ∙ ap (λ r. (s, r)) (clone_result-statuses engine.replica_address_map gathered filled)
      ∙ ap (λ r. (s, ok r)) statuses
