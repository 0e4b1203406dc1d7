-- ===== src/Graph/Engine.antt =====
-- What an operation leaves alone of the policy engine: whether a transition is in progress, and its
-- jobs.
use pacemaker_cloud.Common.{
  ℕ, ◌+◌, ◌-◌, ◌%◌, ◌==◌, ◌≡◌, ◌∙◌, Bool, Option, none, some, String, ℤ, u32_mod, to_u32, strcmp_eq,
  ok, After, After->>=, After-step, After-option, Bool-cases, inl, inr,
}
use pacemaker_cloud.Common.Map.{lookup}
use pacemaker_cloud.Recover.Outside.{Platform}
use pacemaker_cloud.Recover.{RecoverState}
use pacemaker_cloud.Recover.Keeps.{set-After}
use pacemaker_cloud.Cape.{
  Ref, PeOperation, OperationHistory, Cape, deref, find_resource, update_resource,
}
use pacemaker_cloud.Cape.Memory.{
  complete_action-engine, load_op, free_text, pe_resource_ref, pe_resource_unref,
  pe_resource_completed, live,
}
use pacemaker_cloud.Cape.History.{
  dup_text, history_new, history_old, history_stamp, op_history_save, recurring_monitor_stop,
  history_key,
}
use pacemaker_cloud.Cape.Monitor.{
  resource_callbacks, resource_place, resource_recover_set, timer_del, instance_destroy,
  resource_state_change_event,
}

module _ {p : Platform} (b : Bool) (n : ℕ) where
  -- A transition is in progress as b says, and the main loop has n jobs to run the graph.
  abbrev pub EngineIs : Cape p → Type 0
  EngineIs w = (w.pe.busy ≡ b) × (w.pe.next_jobs ≡ n)

  pub free_engine : (t : ℕ) (w : Cape p) → EngineIs w → After EngineIs (free_text t w)
  unfolding free_text
  free_engine t w h = After-option EngineIs (w.texts t) _ _ tt λ s. h

  pub ref_engine : (q : ℕ) (w : Cape p) → EngineIs w → After EngineIs (pe_resource_ref q w)
  unfolding pe_resource_ref
  ref_engine q w h = After-step EngineIs (load_op q w) _ λ o. h

  pub unref_engine : (q : ℕ) (w : Cape p) → EngineIs w → After EngineIs (pe_resource_unref q w)
  unfolding pe_resource_unref
  unref_engine q w h = After-step EngineIs (load_op q w) _ λ o.
      elim (Bool-cases ((o.refcount + u32_mod - 1) % u32_mod == 0)) [
        | inl last ↦ rw last (
            After->>= EngineIs EngineIs (free_text o.op_digest w) _ (free_engine o.op_digest w h)
              λ w₁ h₁. h₁)
        | inr more ↦ rw more h
      ]

  pub completed_engine :
      (q : ℕ) (rc : ℤ) (w : Cape p) → EngineIs w → After EngineIs (pe_resource_completed q rc w)
  unfolding pe_resource_completed
  completed_engine q rc w h = After-step EngineIs (load_op q w) _ λ o.
      let (busy, jobs) = complete_action-engine (to_u32 rc == o.target_outcome) o.action w.pe in
      (busy ∙ h.0, jobs ∙ h.1)

  new_engine :
      (r : Option Ref) (o : PeOperation) (w : Cape p)
      → EngineIs w
      → After (λ x. EngineIs x.1) (history_new r o w)
  unfolding history_new dup_text
  new_engine r o w h =
      After->>= (λ x. EngineIs x.1) (λ x. EngineIs x.1) (dup_text o.op_digest w) _
        (After-step (λ x. EngineIs x.1) (live (w.texts o.op_digest)) _ λ s. h) λ x k. k

  old_engine :
      (oh : OperationHistory) (o : PeOperation) (w : Cape p)
      → EngineIs w
      → After (λ x. EngineIs x.1) (history_old oh o w)
  unfolding history_old
  old_engine oh o w h =
      After-step (λ x. EngineIs x.1) (live (w.texts oh.op_digest)) _
        λ s.
          After-step (λ x. EngineIs x.1) (live (w.texts o.op_digest)) _
            λ t. elim (Bool-cases (strcmp_eq s t)) [
              | inl same ↦ rw same h
              | inr differ ↦ rw differ (
                  After->>= EngineIs (λ x. EngineIs x.1) (free_text oh.op_digest w) _
                    (free_engine oh.op_digest w h) λ w₁ h₁. h₁)
            ]

  pub save_engine :
      (r : Option Ref) (q : ℕ) (ec : ℤ) (w : Cape p)
      → EngineIs w
      → After EngineIs (op_history_save r q ec w)
  unfolding op_history_save history_stamp
  save_engine r q ec w h = After-step EngineIs (load_op q w) _ λ o.
      After->>= (λ x. EngineIs x.1) EngineIs
        (elim (lookup (history_key o) w.op_history_map) [
          | none ↦ history_new r o w
          | some oh ↦ history_old oh o w
        ])
        _
        (After-option (λ x. EngineIs x.1) (lookup (history_key o) w.op_history_map) _ _
          (new_engine r o w h) λ oh. old_engine oh o w h)
        λ (oh, w₁) k. k

  pub monitor_stop_engine :
      (q : ℕ) (w : Cape p) → EngineIs w → After EngineIs (recurring_monitor_stop q w)
  unfolding recurring_monitor_stop
  monitor_stop_engine q w h = After-step EngineIs (load_op q w) _ λ o.
      After-step EngineIs (deref o.resource) _ λ r.
        After-step EngineIs (deref (find_resource r w)) _ λ res.
          After->>= EngineIs EngineIs
            (elim res.monitor_timer [
              | none ↦ ok w
              | some _ ↦
                  pe_resource_unref q (update_resource r (λ x. record x { monitor_timer = none }) w)
            ])
            _ (After-option EngineIs res.monitor_timer _ _ h λ _. unref_engine q _ h)
            λ w₁ h₁. unref_engine q _ h₁

  -- Setting a recovery state, for callbacks that keep the engine.
  event_engine :
      (r : Ref) (from to : RecoverState) (w : Cape p)
      → EngineIs w
      → After EngineIs (resource_state_change_event r from to w)
  event_engine r from to w h = After-step EngineIs (deref (find_resource r w)) _ λ res. h

  destroy_engine : (k : String) (w : Cape p) → EngineIs w → After EngineIs (instance_destroy k w)
  destroy_engine k w h = After-step EngineIs (deref (lookup k w.assembly_map)) _ λ a. h

  pub recover_set_engine :
      (r : Ref) (state : RecoverState) (w : Cape p)
      → EngineIs w
      → After EngineIs (resource_recover_set r state w)
  unfolding resource_recover_set
  recover_set_engine r state w h = After-step EngineIs (deref (find_resource r w)) _ λ res.
      set-After p (resource_callbacks r) (resource_place r res.recover) EngineIs (λ w v k. k)
        (λ w from to k. event_engine r from to w k) (λ w k. k)
        (λ w k. destroy_engine r.assembly (timer_del r w) k) w.now state w h
