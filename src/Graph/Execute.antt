-- ===== src/Graph/Execute.antt =====
-- What executing an operation leaves alone of the policy engine.
use pacemaker_cloud.Common.{
  ℕ, Bool, Option, none, some, List, [], ◌∷◌, ℤ, ltb, strcmp_eq, ok, After, After->>=, After-step,
  After-option,
}
use pacemaker_cloud.Common.Text.{codes, is_infix}
use pacemaker_cloud.Common.Map.{lookup}
use pacemaker_cloud.Recover.Outside.{Platform}
use pacemaker_cloud.Recover.{running, state_eq}
use pacemaker_cloud.Recover.Keeps.{After-if}
use pacemaker_cloud.Ocf.{ocf_unknown_error, ocf_not_running}
use pacemaker_cloud.Cape.{Ref, PeOperation, Cape, deref, find_resource}
use pacemaker_cloud.Cape.Memory.{load_op, store_op}
use pacemaker_cloud.Cape.History.{recurring_monitor_stop}
use pacemaker_cloud.Cape.Monitor.{
  resource_of, resource_action_completed, execute_monitor, execute_stop, resource_execute_cb,
  resource_action_completion,
}
use pacemaker_cloud.Graph.{
  Fired, pseudo_action, crmd_action, stonith_action, rsc_action, GraphAction, is_probe_complete,
  add_op, exec_rsc_action, exec_action, exec_actions,
}
use pacemaker_cloud.Graph.Engine.{EngineIs, unref_engine, monitor_stop_engine}
use pacemaker_cloud.Graph.Operations.{
  action_completed_engine, transport_engine, monitor_execute_engine, report_engine,
  monitor_start_engine, history_delete_engine,
}

module _ {p : Platform} (b : Bool) (n : ℕ) where
  abbrev Kept : Cape p → Type 0
  Kept = EngineIs b n

  execute_monitor_engine :
      (o : PeOperation) (q : ℕ) (w : Cape p) → Kept w → After Kept (execute_monitor o q w)
  unfolding execute_monitor
  execute_monitor_engine o q w h =
      After-if Kept (is_infix (codes o.hostname) (codes o.rname)) _ _
        (After-option Kept o.resource _ _ tt λ _.
          After-if Kept (ltb 0 o.interval) _ _ (monitor_start_engine b n q w h)
            (monitor_execute_engine b n q w h))
        (report_engine b n q ocf_not_running w h)

  execute_stop_engine :
      (r : Option Ref) (q : ℕ) (w : Cape p) → Kept w → After Kept (execute_stop r q w)
  unfolding execute_stop
  execute_stop_engine r q w h = After-step Kept (deref r) _ λ r'.
      After-step Kept (deref (find_resource r' w)) _ λ res.
        After->>= Kept Kept
          (elim res.monitor_op [ none ↦ ok w | some m ↦ recurring_monitor_stop m w ]) _
          (After-option Kept res.monitor_op _ _ h λ m. monitor_stop_engine b n m w h)
          λ w₁ h₁. transport_engine b n q w₁ h₁

  execute_engine : (q : ℕ) (w : Cape p) → Kept w → After Kept (resource_execute_cb q w)
  unfolding resource_execute_cb
  execute_engine q w h = After-step Kept (load_op q w) _ λ o.
      After-step Kept (deref (lookup o.hostname w.assembly_map)) _ λ a.
        After-step Kept (resource_of o w) _ λ r.
          let w₁ = store_op q (record o { resource = r }) w in
          After-if Kept (state_eq a.recover.state running) _ _
            (After-if Kept (strcmp_eq o.method "monitor") _ _
              (execute_monitor_engine (record o { resource = r }) q w₁ h)
              (After-if Kept (strcmp_eq o.method "start") _ _ (transport_engine b n q w₁ h) (
                After-if Kept (strcmp_eq o.method "stop") _ _ (execute_stop_engine r q w₁ h) (
                  After-if Kept (strcmp_eq o.method "delete") _ _ (history_delete_engine b n q w₁ h)
                    tt))))
            (action_completed_engine b n q ocf_unknown_error w h)

  pub completion_engine :
      (q : ℕ) (rc : ℤ) (w : Cape p) → Kept w → After Kept (resource_action_completion q rc w)
  unfolding resource_action_completion
  completion_engine q rc w h = After-step Kept (load_op q w) _ λ o.
      After->>= Kept Kept (resource_action_completed q _ w) _ (action_completed_engine b n q _ w h)
        λ w₁ h₁. unref_engine b n q w₁ h₁

  rsc_engine :
      (action : GraphAction) (w : Cape p)
      → Kept w
      → After (λ x. Kept x.1) (exec_rsc_action action w)
  unfolding exec_rsc_action add_op
  rsc_engine action w h =
      After-if (λ x. Kept x.1) (is_probe_complete action.operation) _ _ h
        (After-option (λ x. Kept x.1) action.resource _ _ h
          λ rsc.
            After-step (λ x. Kept x.1) (deref rsc.id) _
              λ rname.
                After-step (λ x. Kept x.1) (deref rsc.class) _
                  λ rclass.
                    After-step (λ x. Kept x.1) (deref rsc.type) _
                      λ rtype.
                        After-step (λ x. Kept x.1) (deref action.target) _
                          λ hostname.
                            After->>= Kept (λ x. Kept x.1) (resource_execute_cb w.next_op _) _
                              (execute_engine w.next_op _ h) λ w₁ h₁. h₁)

  pub actions_engine :
      (fired : List Fired) (w : Cape p) → Kept w → After Kept (exec_actions fired w)
  unfolding exec_actions
  actions_engine [] w h = h
  actions_engine (f ∷ fired) w h =
      After->>= (λ x. Kept x.1) Kept (exec_action f w) _ (one f)
        λ (done, w₁) h₁. actions_engine fired w₁ h₁
    where
      one : (f : Fired) → After (λ x. Kept x.1) (exec_action f w)
      one (pseudo_action a) = h
      one (crmd_action a) = h
      one (stonith_action a) = h
      one (rsc_action action) = rsc_engine action w h
