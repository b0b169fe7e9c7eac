-- ===== src/Proxy/Search.antt =====
-- How the proxy looks for the replica that has a backup.
use longhorn_instance_manage.Base.{
  Text, ◌≡◌, ◌∙◌, ap, sym, refl, true, false, Option, none, some, List, [], ◌∷◌, ◌++◌, Dict, lookup,
  UniqueKeys, text_eq, text_eq_iff, arith, Error, failed, codes, Result, ok, err, Bool-cases, inl,
  inr, Reordered, nil, cons, swap, trans,
}
use longhorn_instance_manage.Strings.{sort_texts}
use longhorn_instance_manage.Strings.Sort.{sort_texts-Reordered}
use longhorn_instance_manage.Proxy.{ProxyEngineRequest}
use longhorn_instance_manage.Proxy.Calls.{internal_of}
use longhorn_instance_manage.Proxy.Spdk.{SpdkClients, SpdkEngine, SpdkBackupStatus, Mode}
use longhorn_instance_manage.Proxy.Replicas.{address_of}
use longhorn_instance_manage.Proxy.Backups.{
  keys, rw_addresses, find_v2_backup_replica_addresses, is_not_found, filled, failure_of,
  search_replicas, after_search, v2_status_anywhere,
}

module _ {ℓ} {V : Type ℓ} where
  lookup-Reordered :
      {m m' : Dict V}
      → Reordered m m'
      → UniqueKeys m
      → UniqueKeys m' × ((k : Text) → lookup k m ≡ lookup k m')
  unfolding lookup UniqueKeys
  lookup-Reordered nil u = (tt, λ k. refl)
  lookup-Reordered (cons (j, v) d) u =
      let (u', same) = lookup-Reordered d u.1 in
      ((sym (same j) ∙ u.0, u'), λ k. ground (arith, same k))
  lookup-Reordered (swap (i, v) (j, w) l) u =
      let apart : text_eq i j ≡ false = ground (arith, text_eq_iff i j, text_eq_iff j i) in
      (ground arith, λ k. ground (arith, text_eq_iff i k, text_eq_iff j k, text_eq_iff j i))
  lookup-Reordered (trans d e) u =
      let (u', same) = lookup-Reordered d u in
      let (u'', same') = lookup-Reordered e u' in (u'', λ k. same k ∙ same' k)

keys-Reordered : {V : Type 0} {m m' : Dict V} → Reordered m m' → Reordered (keys m) (keys m')
keys-Reordered nil = nil
keys-Reordered (cons (j, v) d) = cons j (keys-Reordered d)
keys-Reordered (swap (i, v) (j, w) l) = swap i j (keys l)
keys-Reordered (trans d e) = trans (keys-Reordered d) (keys-Reordered e)

rw_addresses-same :
    (modes modes' : Dict Mode) (addresses addresses' : Dict Text) (names : List Text)
    → ((k : Text) → lookup k modes ≡ lookup k modes')
    → ((k : Text) → lookup k addresses ≡ lookup k addresses')
    → rw_addresses modes addresses names ≡ rw_addresses modes' addresses' names
unfolding rw_addresses address_of
rw_addresses-same modes modes' addresses addresses' [] f g = refl
rw_addresses-same modes modes' addresses addresses' (name ∷ names) f g =
    ground (arith, f name, g name, rw_addresses-same modes modes' addresses addresses' names f g)

-- The replicas that are asked for a backup, and their order, do not depend on the order in which Go goes through the maps of modes and of addresses.
pub find_v2_backup_replica_addresses-Reordered :
    {modes modes' : Dict Mode} {addresses addresses' : Dict Text}
    → Reordered modes modes'
    → UniqueKeys modes
    → Reordered addresses addresses'
    → UniqueKeys addresses
    → find_v2_backup_replica_addresses modes addresses
      ≡ find_v2_backup_replica_addresses modes' addresses'
unfolding find_v2_backup_replica_addresses
find_v2_backup_replica_addresses-Reordered {modes} {modes'} {addresses} {addresses'} d u e v =
    ap (rw_addresses modes addresses) (sort_texts-Reordered (keys-Reordered d))
    ∙ rw_addresses-same modes modes' addresses addresses' (sort_texts (keys modes'))
        (lookup-Reordered d u).1 (lookup-Reordered e v).1

module _ (ask : Text → Result (Option SpdkBackupStatus)) where
  -- No replica of the list has the backup.
  abbrev pub AllFail : List Text → Type 0
  AllFail [] = Unit
  AllFail (address ∷ rest) = ((e : Error) × (filled (ask address) ≡ err e)) × AllFail rest

  -- Each of them says that it does not know it.
  abbrev pub AllMissing : List Text → Type 0
  AllMissing [] = Unit
  AllMissing (address ∷ rest) =
      ((e : Error) × (filled (ask address) ≡ err e) × (is_not_found e ≡ true)) × AllMissing rest

  search_skips :
      (before after : List Text) (missing : Option Error)
      → AllMissing before
      → (last : Option Error) × (search_replicas ask (before ++ after) (none, missing)
          ≡ search_replicas ask after (none, last))
  unfolding search_replicas
  search_skips [] after missing h = (missing, refl)
  search_skips (a ∷ before) after missing ((e, failure, absent), h) =
      let (last, same) = search_skips before after (some e) h in
      (last, rw (failure, absent, search_replicas) same)

  search_fails :
      (rest : List Text) (e : Error) (missing : Option Error)
      → AllFail rest
      → search_replicas ask rest (some e, missing)
        ≡ record { answer = none; address = []; error = some e }
  unfolding search_replicas
  search_fails [] e missing h = refl
  search_fails (a ∷ rest) e missing ((f, failure), h) = elim (Bool-cases (is_not_found f)) [
    | inl b ↦ rw (failure, b, search_replicas) (search_fails rest e (some f) h)
    | inr b ↦ rw (failure, b, search_replicas) (search_fails rest e missing h)
  ]

  search_missing :
      (addresses : List Text) (missing : Option Error)
      → AllMissing addresses
      → failure_of missing ≡ none
      → after_search (search_replicas ask addresses (none, missing))
        ≡ err (failed (codes "failed to find a replica with backup"))
  unfolding search_replicas after_search
  search_missing [] missing h m = rw (m, after_search) refl
  search_missing (a ∷ addresses) missing ((e, failure, absent), h) m =
      rw (failure, absent, search_replicas) (search_missing addresses (some e) h (rw absent refl))

module _ {S : Type 0} (spdk : SpdkClients S) (req : ProxyEngineRequest) (a backup : Text) (s : S)
    (engine : SpdkEngine) (engine_found : spdk.engine_get a req.engine_name s ≡ ok engine) where
  abbrev ask : Text → Result (Option SpdkBackupStatus)
  ask address = spdk.engine_backup_status a backup req.engine_name address s

  abbrev candidates : List Text
  candidates = find_v2_backup_replica_addresses engine.replica_mode_map engine.replica_address_map

  searched :
      v2_status_anywhere spdk req a backup s
      ≡ after_search (search_replicas ask candidates (none, none))
  unfolding v2_status_anywhere internal_of
  searched = rw (engine_found, v2_status_anywhere, internal_of) refl

  -- When every such replica says that it does not know the backup, the request fails as one for a backup that is not found.
  pub v2_status_anywhere-missing :
      AllMissing ask candidates
      → v2_status_anywhere spdk req a backup s
        ≡ err (failed (codes "failed to find a replica with backup"))
  v2_status_anywhere-missing h = searched ∙ search_missing ask candidates none h refl

  -- When no such replica has the backup and one fails for another reason, the first such error is returned.
  pub v2_status_anywhere-failed :
      (before after : List Text) (address : Text) (e : Error)
      → candidates ≡ before ++ address ∷ after
      → AllMissing ask before
      → filled (ask address) ≡ err e
      → is_not_found e ≡ false
      → AllFail ask after
      → v2_status_anywhere spdk req a backup s ≡ err e
  unfolding search_replicas after_search
  v2_status_anywhere-failed before after address e split h failure other later =
      let (last, skipped) = search_skips ask before (address ∷ after) none h in
      let kept : search_replicas ask (address ∷ after) (none, last)
          ≡ search_replicas ask after (some e, last) =
        rw (failure, other, search_replicas) refl in
      searched
      ∙ ap after_search (
          ap (λ l. search_replicas ask l (none, none)) split
          ∙ skipped
          ∙ kept
          ∙ search_fails ask after e last later)
      ∙ rw (other, after_search) refl
