-- ===== src/Manager/Replace.antt =====
-- `ProcessReplace` of pkg/process/process_manager.go, as a sequence of sections.
use longhorn_instance_manage.Base.{
  ℕ, zero, suc, ◌+◌, Text, Bool, true, false, not, Option, none, some, status, failed, external,
  invalid_argument, already_exists, codes, text_eq, is_empty, if◌then◌else◌, ◌||◌, Result, ok, err,
}
use longhorn_instance_manage.Bitmap.{PortBitmap}
use longhorn_instance_manage.Process.{State, starting, running, close_logger}
use longhorn_instance_manage.Process.Response.{ProcessResponse, ProcessSpec, rpc_response}
use longhorn_instance_manage.Manager.{
  Manager, sighup, sigint, init_process_replace, drop_replacement, commit_replace,
}
use longhorn_instance_manage.Manager.Handlers.{
  Env, new_process, add_object, modify, send, start_process, stop_with_signal,
}

unfoldable pub poll : State → Option Bool
poll running = some true
poll starting = none
poll _ = some false

module _ {B : Type 0} where
  -- The 30 rounds in which `ProcessReplace` waits for the new process: `false` if it failed.
  unfoldable pub wait_replacement :
      (ℕ → Manager B → Manager B) → ℕ → ℕ → Manager B → Manager B × Bool
  unfolding poll
  wait_replacement others zero r m = (m, true)
  wait_replacement others (suc n) r m =
      let rest = wait_replacement others n r (others (n + 8) m) in
      elim (poll (m.heap r).state) [ none ↦ rest | some is_up ↦ (m, is_up) ]

module _ {B : Type 0} (bm : PortBitmap B) where
  -- `cleanupReplacementProcess`. That `Stop` waits for the channel before the ports are released is not
  -- an interleaving here: no other goroutine runs between the two.
  unfoldable pub cleanup_replacement : Env B → ℕ → Manager B → Manager B
  cleanup_replacement env r m = drop_replacement bm r (stop_with_signal sigint (env.now 0) r m)

  unfoldable pub replace_committed :
      Env B → ℕ → Manager B × Bool → Manager B × Result ProcessResponse
  unfolding cleanup_replacement
  replace_committed env r (m, false) = (cleanup_replacement env r m, err (status already_exists))
  replace_committed env r (m, true) =
      let done = env.others 3 (send r m) in (done, ok (rpc_response (done.heap r)))

  unfoldable pub replace_waited :
      Env B → ℕ → ℕ → Manager B × Bool → Manager B × Result ProcessResponse
  unfolding replace_committed
  replace_waited env r old (m, false) =
      (cleanup_replacement env r m, err (failed (codes "failed to start replacement process")))
  replace_waited env r old (m, true) =
      replace_committed env r
        (commit_replace bm r old (env.others 2 (stop_with_signal sighup (env.now 1) old m)))

  unfoldable pub replace_started :
      Env B → ℕ → ℕ → Manager B × Option Text → Manager B × Result ProcessResponse
  unfolding replace_waited wait_replacement
  replace_started env r old (m, some e) =
      (cleanup_replacement env r m, err (failed (codes "failed to init replacement process")))
  replace_started env r old (m, none) =
      replace_waited env r old (wait_replacement env.others 30 r (env.others 1 m))

  unfoldable pub replace_initialized :
      Env B → ℕ → Manager B × Result ℕ → Manager B × Result ProcessResponse
  unfolding replace_started
  replace_initialized env r (m, err e) = (modify r close_logger m, err e)
  replace_initialized env r (m, ok old) =
      let now = env.others 0 m in
      if text_eq (now.heap old).binary (now.heap r).binary
      then (drop_replacement bm r (modify r close_logger now), ok (rpc_response (now.heap old)))
      else replace_started env r old (start_process env.command_error r now)

  -- `terminate` is the request's `TerminateSignal`.
  unfoldable pub process_replace :
      Env B → ProcessSpec → Text → Manager B → Manager B × Result ProcessResponse
  unfolding replace_initialized
  process_replace env spec terminate m =
      if is_empty spec.name || is_empty spec.binary
      then (m, err (status invalid_argument))
      else if not (text_eq terminate (codes "SIGHUP"))
      then (m, err (status invalid_argument))
      else elim env.logger_error [
        | some e ↦ (m, err (external e))
        | none ↦
            replace_initialized env m.next
              (init_process_replace bm m.next (add_object (new_process spec env.uuid) m))
      ]
