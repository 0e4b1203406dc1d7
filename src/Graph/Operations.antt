-- ===== src/Graph/Operations.antt =====
-- The same for the life of an operation.
use pacemaker_cloud.Common.{
  ℕ, ◌+◌, ◌%◌, Bool, true, false, Option, none, some, List, [], ◌∷◌, String, ℤ, u32_mod, leb, ltb,
  Result, ok, ◌>>=◌, After, After->>=, After-step, After-option, if◌then◌else◌,
}
use pacemaker_cloud.Common.Text.{codes, is_infix}
use pacemaker_cloud.Common.Map.{lookup}
use pacemaker_cloud.Recover.Outside.{Platform}
use pacemaker_cloud.Recover.{RecoverState, running, state_eq}
use pacemaker_cloud.Recover.Keeps.{After-if}
use pacemaker_cloud.Cape.{Ref, OperationHistory, Cape, deref, find_resource}
use pacemaker_cloud.Cape.Memory.{
  load_op, store_op, pe_resource_ref, pe_resource_unref, pe_resource_completed,
}
use pacemaker_cloud.Cape.History.{
  op_history_save, recurring_monitor_stop, history_remove, history_clear, op_history_delete,
  ref_ptr_eq,
}
use pacemaker_cloud.Cape.Monitor.{
  resource_state_set, set_if, state_after, resource_of, action_finish, resource_action_completed,
  transport_resource_action, resource_monitor_execute, recurring_monitor_start,
}
use pacemaker_cloud.Ocf.{ocf_ok, ocf_unknown_error}
use pacemaker_cloud.Graph.Engine.{
  EngineIs, free_engine, ref_engine, unref_engine, completed_engine, save_engine,
  monitor_stop_engine, recover_set_engine,
}

module _ {p : Platform} (b : Bool) (n : ℕ) where
  abbrev Kept : Cape p → Type 0
  Kept = EngineIs b n

  state_set_engine :
      (r : Option Ref) (q : ℕ) (rc : ℤ) (w : Cape p)
      → Kept w
      → After Kept (resource_state_set r q rc w)
  unfolding resource_state_set
  state_set_engine r q rc w h = After-step Kept (load_op q w) _ λ o. set (state_after o rc)
    where
      set : (state : Option RecoverState) → After Kept (set_if r state w)
      set none = h
      set (some state) = After-step Kept (deref r) _ λ r'. recover_set_engine b n r' state w h

  finish_engine :
      (r : Option Ref) (q : ℕ) (as_expected : Bool) (w : Cape p)
      → Kept w
      → After Kept (action_finish r q as_expected w)
  unfolding action_finish
  finish_engine r q true w h = After-step Kept (load_op q w) _ λ o.
      After-if Kept (ltb 0 o.interval) _ _ (After-step Kept (deref r) _ λ r'. h)
        (unref_engine b n q w h)
  finish_engine r q false w h =
      After-step Kept (load_op q w) _
        λ o. After-if Kept (ltb 0 o.interval) _ _ (unref_engine b n q _ h) (unref_engine b n q _ h)

  pub action_completed_engine :
      (q : ℕ) (rc : ℤ) (w : Cape p) → Kept w → After Kept (resource_action_completed q rc w)
  unfolding resource_action_completed
  action_completed_engine q rc w h = After-step Kept (load_op q w) _ λ o₀.
      After-step Kept (resource_of o₀ w) _ λ r.
        let o = record o₀ { times_executed = (o₀.times_executed + 1) % u32_mod } in
        let w₀ = store_op q o w in
        After->>= Kept Kept
          (if is_infix (codes o.hostname) (codes o.rname) then op_history_save r q rc w₀ else ok w₀)
          _
          (After-if Kept (is_infix (codes o.hostname) (codes o.rname)) _ _
            (save_engine b n r q rc w₀ h) h)
          λ w₁ h₁.
            After->>= Kept Kept
              (if leb o.times_executed 1 then pe_resource_completed q rc w₁ else ok w₁) _
              (After-if Kept (leb o.times_executed 1) _ _ (completed_engine b n q rc w₁ h₁) h₁)
              λ w₂ h₂.
                After->>= Kept Kept (resource_state_set r q rc w₂) _ (state_set_engine r q rc w₂ h₂)
                  λ w₃ h₃. finish_engine r q _ w₃ h₃

  pub transport_engine : (q : ℕ) (w : Cape p) → Kept w → After Kept (transport_resource_action q w)
  unfolding transport_resource_action
  transport_engine q w h =
      After->>= Kept Kept (pe_resource_ref q w) _ (ref_engine b n q w h) λ w₁ h₁. h₁

  pub monitor_execute_engine :
      (q : ℕ) (w : Cape p) → Kept w → After Kept (resource_monitor_execute q w)
  unfolding resource_monitor_execute
  monitor_execute_engine q w h = After-step Kept (load_op q w) _ λ o.
      After-step Kept (deref (lookup o.hostname w.assembly_map)) _ λ a.
        After-if Kept (state_eq a.recover.state running) _ _ (transport_engine q w h)
          (action_completed_engine q ocf_unknown_error w h)

  -- Reporting a result at once, and giving the operation back.
  pub report_engine :
      (q : ℕ) (rc : ℤ) (w : Cape p)
      → Kept w
      → After Kept (pe_resource_completed q rc w >>= pe_resource_unref q)
  report_engine q rc w h =
      After->>= Kept Kept (pe_resource_completed q rc w) _ (completed_engine b n q rc w h)
        λ w₁ h₁. unref_engine b n q w₁ h₁

  pub monitor_start_engine :
      (q : ℕ) (w : Cape p) → Kept w → After Kept (recurring_monitor_start q w)
  unfolding recurring_monitor_start
  monitor_start_engine q w h = After-step Kept (load_op q w) _ λ o.
      After-step Kept (deref o.resource) _ λ r. After-step Kept (deref (find_resource r w)) _ λ res.
        After-option Kept res.monitor_timer _ _
          (After->>= Kept Kept (pe_resource_ref q w) _ (ref_engine b n q w h)
            λ w₁ h₁. monitor_execute_engine q _ h₁)
          λ _. report_engine q ocf_ok w h

  history_remove_engine :
      (k : String) (oh : OperationHistory) (w : Cape p)
      → Kept w
      → After Kept (history_remove k oh w)
  unfolding history_remove
  history_remove_engine k oh w h = After-step Kept (deref oh.resource) _ λ r.
      After-step Kept (deref (find_resource r w)) _ λ res.
        After->>= Kept Kept
          (elim res.monitor_timer [
            | none ↦ ok w
            | some _ ↦ elim res.monitor_op [ none ↦ ok w | some m ↦ recurring_monitor_stop m w ]
          ])
          _
          (After-option Kept res.monitor_timer _ _ h
            λ _. After-option Kept res.monitor_op _ _ h λ m. monitor_stop_engine b n m w h)
          λ w₁ h₁. free_engine b n oh.op_digest _ h₁

  history_clear_engine :
      (hit : Option Ref → Result Bool) (entries : List (String × OperationHistory)) (w : Cape p)
      → Kept w
      → After Kept (history_clear hit entries w)
  unfolding history_clear
  history_clear_engine hit [] w h = h
  history_clear_engine hit ((k, oh) ∷ rest) w h = After-step Kept (hit oh.resource) _ λ gone.
      After->>= Kept Kept (if gone then history_remove k oh w else ok w) _
        (After-if Kept gone _ _ (history_remove_engine k oh w h) h)
        λ w₁ h₁. history_clear_engine hit rest w₁ h₁

  pub history_delete_engine : (q : ℕ) (w : Cape p) → Kept w → After Kept (op_history_delete q w)
  unfolding op_history_delete
  history_delete_engine q w h = After-step Kept (load_op q w) _ λ o.
      After->>= Kept Kept (history_clear (λ r. ok (ref_ptr_eq r o.resource)) w.op_history_map w) _
        (history_clear_engine (λ r. ok (ref_ptr_eq r o.resource)) w.op_history_map w h)
        λ w₁ h₁. report_engine q ocf_ok w₁ h₁
