-- ===== src/Proxy/Safety.antt =====
-- What a request to the proxy leaves alone.
use longhorn_instance_manage.Base.{
  Text, ◌≡◌, ◌≢◌, refl, false, Option, none, some, List, Dict, lookup, Error, Result, ok, err,
  Option-cases, inl, inr, ap, [], ◌∙◌,
}
use longhorn_instance_manage.Instance.{DataEngine, v1, v2}
use longhorn_instance_manage.Proxy.{ProxyEngineRequest, proxy_ops}
use longhorn_instance_manage.Proxy.Env.{is_backup_env_allowed, set_env}
use longhorn_instance_manage.Proxy.Env.Laws.{set_env-keeps}
use longhorn_instance_manage.Proxy.Engines.{EngineClients}
use longhorn_instance_manage.Proxy.Spdk.{SpdkClients}
use longhorn_instance_manage.Proxy.Server.{
  Call, Given, Services, backup_target_of, handle_with, v1_call, v2_call, route, with_found,
  once_set, with_credential, perform, handle,
}

module _ {E S A : Type 0} where
  route-spdk :
      (o : Option DataEngine) (first : E → E × Result A) (second : S → S × Result A)
      (w : Services E S)
      → o ≢ some v2
      → (route o first second w).0.spdk ≡ w.spdk
  unfolding route
  route-spdk none first second w h = refl
  route-spdk (some v1) first second w h = refl
  route-spdk (some v2) first second w h = absurd (h refl)

  route-engines :
      (o : Option DataEngine) (first : E → E × Result A) (second : S → S × Result A)
      (w : Services E S)
      → o ≢ some v1
      → (route o first second w).0.engines ≡ w.engines
  unfolding route
  route-engines none first second w h = refl
  route-engines (some v1) first second w h = absurd (h refl)
  route-engines (some v2) first second w h = refl

  route-environ :
      (o : Option DataEngine) (first : E → E × Result A) (second : S → S × Result A)
      (w : Services E S)
      → (route o first second w).0.environ ≡ w.environ
  unfolding route
  route-environ none first second w = refl
  route-environ (some v1) first second w = refl
  route-environ (some v2) first second w = refl

  with_found-keeps {ℓ} :
      {V : Type ℓ} (view : Services E S → V)
      (next : Dict Text → Services E S → Services E S × Result A) (found : Result (Dict Text))
      (w : Services E S)
      → ((c : Dict Text) (u : Services E S) → view (next c u).0 ≡ view u)
      → view (with_found next found w).0 ≡ view w
  unfolding with_found
  with_found-keeps view next (err e) w keeps = refl
  with_found-keeps view next (ok c) w keeps = keeps c w

  once_set-keeps {ℓ} :
      {V : Type ℓ} (view : Services E S → V) (given : Given) (target : Text)
      (next : Dict Text → Services E S → Services E S × Result A) (w : Services E S)
      (set : Dict Text × Option Error)
      → ((c : Dict Text) (u : Services E S) → view (next c u).0 ≡ view u)
      → view (once_set given target next w set).0 ≡ view (record w { environ = set.0 })
  unfolding once_set
  once_set-keeps view given target next w (environ, some e) keeps = refl
  once_set-keeps view given target next w (environ, none) keeps =
      with_found-keeps view next (given.get_backup_credential target environ) _ keeps

  -- Whatever part of the services `next` keeps is kept after the environment is set.
  with_credential-keeps {ℓ} :
      {V : Type ℓ} (view : Services E S → V) (given : Given) (envs : List Text) (target : Text)
      (next : Dict Text → Services E S → Services E S × Result A) (w : Services E S)
      → ((c : Dict Text) (u : Services E S) → view (next c u).0 ≡ view u)
      → view (with_credential given envs target next w).0
        ≡ view (record w { environ = (set_env given.types envs w.environ).0 })
  unfolding with_credential
  with_credential-keeps view given envs target next w keeps =
      once_set-keeps view given target next w (set_env given.types envs w.environ) keeps

module _ {E S : Type 0} (given : Given) (engines : EngineClients E) (spdk : SpdkClients S)
    (req : ProxyEngineRequest) (call : Call) (w : Services E S) where
  -- The part `view` of the services changes only with the environment, if the data engine keeps it.
  handle_with-keeps {ℓ} :
      {V : Type ℓ} (view : Services E S → V) (target : Option (List Text × Text))
      → ((c : Dict Text) (u : Services E S)
          → view (perform given engines spdk req call c u).0 ≡ view u)
      → ((environ : Dict Text) → view (record w { environ = environ }) ≡ view w)
      → view (handle_with given engines spdk req call target w).0 ≡ view w
  unfolding handle_with
  handle_with-keeps view none keeps same = keeps [] w
  handle_with-keeps view (some (envs, target)) keeps same =
      with_credential-keeps view given envs target (perform given engines spdk req call) w keeps
      ∙ same (set_env given.types envs w.environ).0

  perform-environ :
      (c : Dict Text) (u : Services E S)
      → (perform given engines spdk req call c u).0.environ ≡ u.environ
  unfolding perform
  perform-environ c u =
      route-environ (proxy_ops req.data_engine) (v1_call given engines req c call)
        (v2_call given spdk req c call) u

  -- A request that does not name the second data engine leaves the SPDK services alone.
  pub handle-spdk :
      proxy_ops req.data_engine ≢ some v2 → (handle given engines spdk req call w).0.spdk ≡ w.spdk
  unfolding handle perform
  handle-spdk h =
      handle_with-keeps (λ u. u.spdk) (backup_target_of call)
        (λ c u.
          route-spdk (proxy_ops req.data_engine) (v1_call given engines req c call)
            (v2_call given spdk req c call) u h)
        (λ environ. refl)

  -- A request that does not name the first data engine leaves its engines alone.
  pub handle-engines :
      proxy_ops req.data_engine ≢ some v1
      → (handle given engines spdk req call w).0.engines ≡ w.engines
  unfolding handle perform
  handle-engines h =
      handle_with-keeps (λ u. u.engines) (backup_target_of call)
        (λ c u.
          route-engines (proxy_ops req.data_engine) (v1_call given engines req c call)
            (v2_call given spdk req c call) u h)
        (λ environ. refl)

  -- No request changes a variable of the environment that is not on the allowlist, whatever the request asks for and however it ends.
  pub handle-environ :
      (k : Text)
      → is_backup_env_allowed given.types k ≡ false
      → lookup k (handle given engines spdk req call w).0.environ ≡ lookup k w.environ
  unfolding handle handle_with perform
  handle-environ k h = elim (Option-cases (backup_target_of call)) [
    | inl e ↦ rw (e, handle_with) (ap (lookup k) (perform-environ [] w))
    | inr ((envs, target), e) ↦
        let kept =
          with_credential-keeps (λ u. u.environ) given envs target
            (perform given engines spdk req call) w perform-environ in
        rw (e, handle_with) (ap (lookup k) kept ∙ set_env-keeps given.types k envs w.environ h)
  ]
