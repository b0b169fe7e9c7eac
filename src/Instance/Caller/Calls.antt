-- ===== src/Instance/Caller/Calls.antt =====
-- pkg/client/instance.go: the calls of the client of the instance service. What stands for the service
-- has the connection in it, and may answer with an error of the connection.
use longhorn_instance_manage.Base.{Text, Bool, Dict, Result, ok, err}
use longhorn_instance_manage.Instance.Server.{Request, list, Answer}
use longhorn_instance_manage.Instance.Caller.Answers.{
  Instance, received_instance, received_list, received_empty,
}
use longhorn_instance_manage.Instance.Caller.{
  InstanceCreateRequest, ReplaceRequest, create_request, delete_request, get_request,
  replace_request, suspend_request, resume_request, switch_over_request, delete_target_request,
}

-- The calls, on the state `W` of everything behind the service.
module _ {W : Type 0} (service : Request → W → W × Answer) where
  unfoldable pub sent : {A : Type 0} → (Answer → Result A) → Result Request → W → W × Result A
  sent receive (err e) w = (w, err e)
  sent receive (ok request) w = let (w', answer) = service request w in (w', receive answer)

  unfoldable pub instance_create : InstanceCreateRequest → W → W × Result Instance
  unfolding sent received_instance create_request
  instance_create q = sent received_instance (create_request q)

  unfoldable pub instance_delete : Text → Text → Text → Text → Bool → W → W × Result Instance
  unfolding sent received_instance delete_request
  instance_delete engine_name name uuid type cleanup =
      sent received_instance (delete_request engine_name name uuid type cleanup)

  unfoldable pub instance_get : Text → Text → Text → W → W × Result Instance
  unfolding sent received_instance get_request
  instance_get engine_name name type = sent received_instance (get_request engine_name name type)

  unfoldable pub instance_list : W → W × Result (Dict Instance)
  unfolding sent received_list
  instance_list = sent received_list (ok list)

  unfoldable pub instance_replace : ReplaceRequest → W → W × Result Instance
  unfolding sent received_instance replace_request
  instance_replace q = sent received_instance (replace_request q)

  unfoldable pub instance_suspend : Text → Text → Text → W → W × Result (Unit {0})
  unfolding sent received_empty suspend_request
  instance_suspend engine_name name type =
      sent received_empty (suspend_request engine_name name type)

  unfoldable pub instance_resume : Text → Text → Text → W → W × Result (Unit {0})
  unfolding sent received_empty resume_request
  instance_resume engine_name name type = sent received_empty (resume_request engine_name name type)

  unfoldable pub instance_switch_over_target :
      Text → Text → Text → Text → Text → Text → W → W × Result (Unit {0})
  unfolding sent received_empty switch_over_request
  instance_switch_over_target engine_name name type address engine_object phase =
      sent received_empty (switch_over_request engine_name name type address engine_object phase)

  unfoldable pub instance_delete_target : Text → Text → Text → W → W × Result (Unit {0})
  unfolding sent received_empty delete_target_request
  instance_delete_target engine_name name type =
      sent received_empty (delete_target_request engine_name name type)
