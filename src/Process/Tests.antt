-- ===== src/Process/Tests.antt =====
-- Runs of the operations of one process.
use longhorn_instance_manage.Base.{
  false, ◌==◌, arith, if◌then◌else◌, ℕ, Bool, ◌≡◌, ◌≢◌, refl, [], pos, true, false, none, some,
  codes, inr,
}
use longhorn_instance_manage.Process.{
  Process, wait_count, State, running, stopping, stopped, started, stop_plan, stop_mark, is_stopped,
  stop_start, kill,
}
use longhorn_instance_manage.Process.Health.{
  Round, stop_closed, tick, wait_for_running, Started, wait_for_running-Started,
}
use longhorn_instance_manage.Process.Stop.{
  stop_again, final_stays, marks, health, apply_change, retry_plan,
}

abbrev engine : State → Process
engine s = record {
  name = codes "vol-e-0";
  binary = codes "longhorn";
  args = [];
  port_count = pos 1;
  port_args = [];
  uuid = codes "u0";
  state = s;
  error_msg = [];
  conditions = [];
  port_start = pos 10000;
  port_end = pos 10000;
  deletion_timestamp = none;
  cmd = some started;
  logger_closes = 0;
}

-- A call of `StopWithSignal`, another one a second later, and one after 61 s.
within_time : stop_plan (stop_mark 5 (engine running)) 1_000_000_005 ≡ retry_plan 5 5
unfolding stop_plan stop_mark
within_time = refl

after_time : (stop_plan (stop_mark 5 (engine running)) 61_000_000_005).need_timeout_kill ≡ true
unfolding stop_plan stop_mark
after_time = refl

kills : stop_start (retry_plan 5 61_000_000_005) true (stop_mark 5 (engine running)) ≡ kill
unfolding stop_start stop_mark stop_plan
kills = refl

stop_again_example :
    (stop_plan (engine running) 5
      ≡ record { need_stop = true; need_timeout_kill = false; need_close_logger = false })
    × ((stop_mark 5 (engine running)).state ≡ stopping)
    × (stop_plan (stop_mark 5 (engine running)) 61_000_000_005 ≡ retry_plan 5 61_000_000_005)
stop_again_example = stop_again (engine running) 5 61_000_000_005 (inr refl)

late : (healthy : Bool) → marks 5 ≢ health healthy
late healthy e = cc

final_stays_example : is_stopped (apply_change (marks 5) (engine stopped)) ≡ true
final_stays_example = final_stays (marks 5) (engine stopped) late (unfold is_stopped in refl)

-- The probe succeeds in the fourth round.
abbrev fourth : ℕ → Round
fourth i = tick (i == 3)

-- The process ends in the third one.
abbrev ends : ℕ → Round
ends i = if i == 2 then stop_closed else tick (i == 3)

not_healthy : wait_for_running ends ≡ false
unfolding wait_for_running
not_healthy = refl

fourth-Started : Started fourth 0 wait_count
fourth-Started = record {
  round = 3;
  from = omega arith;
  before_end = omega arith;
  healthy = refl;
  waited = λ j from before. ground arith;
}

wait_for_running-Started_example : Started fourth 0 wait_count
unfolding wait_for_running
wait_for_running-Started_example = wait_for_running-Started fourth refl
