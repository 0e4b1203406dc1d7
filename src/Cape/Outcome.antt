-- ===== src/Cape/Outcome.antt =====
-- The state of a resource after an operation on it has ended.
use pacemaker_cloud.Common.{
  ℕ, ◌≡◌, refl, ◌∙◌, Bool, true, false, some, ℤ, ◌>>=◌, After, After->>=, After-step, After-option,
  to_u32, ◌==◌, ltb, eq_refl, Option-cases, inl, inr, After-weaken, double_free, fault, u32_mod,
  ◌-◌, ◌+◌, ◌%◌,
}
use pacemaker_cloud.Common.Map.{lookup, lookup-update}
use pacemaker_cloud.Recover.Outside.{Platform}
use pacemaker_cloud.Recover.{RecoverState, Recover, recover_state_set}
use pacemaker_cloud.Recover.Keeps.{After-if}
use pacemaker_cloud.Recover.Reaches.{IsIn, set-IsIn}
use pacemaker_cloud.Recover.Total.{Ends}
use pacemaker_cloud.Cape.{Ref, PeOperation, Resource, Cape, find_resource, update_resource}
use pacemaker_cloud.Cape.Memory.{load_op, free_text, pe_resource_unref}
use pacemaker_cloud.Cape.Monitor.{
  schedule_processing, resource_callbacks, resource_place, resource_recover_set, resource_state_set,
  action_finish, resource_action_completed, state_after, timer_del, instance_destroy,
}
use pacemaker_cloud.Cape.Codes.{OcfMethod, method_name, state_of_code, state_of_code_lem}
use pacemaker_cloud.Cape.Frame.{find_inv, find-update_resource}
use pacemaker_cloud.Cape.Count.{CanComplete, store_same}
use pacemaker_cloud.Cape.Completion.{counted, resource_ref, executed, completed-Ends}

state_after-executed : (o : PeOperation) (rc : ℤ) → state_after (executed o) rc ≡ state_after o rc
unfolding state_after
state_after-executed o rc = refl

module _ {p : Platform} where
  abbrev There : Ref → Cape p → Type 0
  There r w = (x : Resource p) × (find_resource r w ≡ some x)

  -- The resource is there, in that recovery state.
  abbrev pub ResourceIs : Ref → RecoverState → Cape p → Type 0
  ResourceIs r state w = (x : Resource p) × (find_resource r w ≡ some x) × (x.recover.state ≡ state)

  update-ResourceIs :
      (r : Ref) (f : Resource p → Resource p) (state : RecoverState) (w : Cape p)
      → ((x : Resource p) → (f x).recover.state ≡ x.recover.state)
      → ResourceIs r state w
      → ResourceIs r state (update_resource r f w)
  update-ResourceIs r f state w keep (x, e, s) = (f x, find-update_resource r f w e, keep x ∙ s)

  destroy-ResourceIs :
      (r : Ref) (state : RecoverState) (w : Cape p)
      → ResourceIs r state w
      → After (ResourceIs r state) (instance_destroy r.assembly w)
  destroy-ResourceIs r state w (x, e, s) =
      let (a, f, l) = find_inv r.name (lookup r.assembly w.assembly_map) e in
      rw f (x, rw (lookup-update, f, eq_refl) l, s)

  place_state :
      (r : Ref) (d : Recover p) (y : Resource p) (state : RecoverState) (w : Cape p)
      → find_resource r w ≡ some y
      → ((resource_place r d).get w).state ≡ state
      → y.recover.state ≡ state
  place_state r d y state w e s = rw e at s

  -- Setting the recovery state of a resource brings it into that state, whatever follows from it.
  pub resource_recover_set-state :
      (r : Ref) (state : RecoverState) (w : Cape p)
      → After (ResourceIs r state) (resource_recover_set r state w)
  unfolding resource_recover_set
  resource_recover_set-state r state w = elim (Option-cases (find_resource r w)) [
    | inl gone ↦ rw gone tt
    | inr (x, there) ↦
        let cb = resource_callbacks r in
        let pl = resource_place r x.recover in
        rw there (
          After-weaken (IsIn p cb pl (There r) state) (ResourceIs r state)
            (recover_state_set p cb pl w.now state w)
            (λ w' ((y, e), s). (y, e, place_state r x.recover y state w' e s))
            (set-IsIn p cb pl (There r) state
              (λ w v (y, e).
                ((_, find-update_resource r _ w e), rw (find-update_resource r _ w e) refl))
              (λ w from to (y, e). rw e (y, e))
              (λ w ((y, e), s). (
                (_, find-update_resource r _ w e),
                rw (find-update_resource r _ w e) (place_state r x.recover y state w e s),
              ))
              (λ w ((y, e), s).
                After-weaken (ResourceIs r state) (IsIn p cb pl (There r) state)
                  (instance_destroy r.assembly (timer_del r w)) (λ w' (z, f, t). ((z, f), rw f t))
                  (destroy-ResourceIs r state (timer_del r w) (
                    update-ResourceIs r _ state w (λ x. refl)
                      (y, e, place_state r x.recover y state w e s))))
              w.now w (x, there)))
  ]

  unref-assembly_map :
      (q : ℕ) (w : Cape p) → After (λ w'. w'.assembly_map ≡ w.assembly_map) (pe_resource_unref q w)
  unfolding pe_resource_unref free_text
  unref-assembly_map q w =
      let Same = λ (w' : Cape p). w'.assembly_map ≡ w.assembly_map in
      After-step Same (load_op q w) _ λ o.
        After-if Same ((o.refcount + u32_mod - 1) % u32_mod == 0) _ _
          (After->>= Same Same (free_text o.op_digest w) _
            (After-option Same (w.texts o.op_digest) (fault double_free) _ tt λ s. refl) λ w₁ e. e)
          refl

  unref-ResourceIs :
      (r : Ref) (state : RecoverState) (q : ℕ) (w : Cape p)
      → ResourceIs r state w
      → After (ResourceIs r state) (pe_resource_unref q w)
  unref-ResourceIs r state q w h =
      After-weaken (λ w'. w'.assembly_map ≡ w.assembly_map) (ResourceIs r state)
        (pe_resource_unref q w) (λ w' e. rw e h) (unref-assembly_map q w)

  finish-ResourceIs :
      (r : Ref) (state : RecoverState) (q : ℕ) (b : Bool) (w : Cape p)
      → ResourceIs r state w
      → After (ResourceIs r state) (action_finish (some r) q b w)
  unfolding action_finish
  finish-ResourceIs r state q true w h = After-step (ResourceIs r state) (load_op q w) _ λ o.
      After-if (ResourceIs r state) (ltb 0 o.interval) _ _
        (update-ResourceIs r _ state w (λ x. refl) h) (unref-ResourceIs r state q w h)
  finish-ResourceIs r state q false w h = After-step (ResourceIs r state) (load_op q w) _ λ o.
      After-if (ResourceIs r state) (ltb 0 o.interval) _ _
        (unref-ResourceIs r state q (schedule_processing w) h)
        (unref-ResourceIs r state q (schedule_processing w) h)

  state_set-state :
      (r : Ref) (q : ℕ) (rc : ℤ) (o : PeOperation) (state : RecoverState) (w : Cape p)
      → w.ops q ≡ some o
      → state_after o rc ≡ some state
      → After (ResourceIs r state) (resource_state_set (some r) q rc w)
  unfolding resource_state_set
  state_set-state r q rc o state w e known = rw (e, known) (resource_recover_set-state r state w)

  completed_state :
      (q : ℕ) (rc : ℤ) (o : PeOperation) (state : RecoverState) (w : Cape p)
      → CanComplete q o w
      → state_after o rc ≡ some state
      → Ends (ResourceIs (resource_ref o) state) (resource_action_completed q rc w)
  completed_state q rc o state w c known =
      let r = resource_ref o in
      let expected = to_u32 rc == o.target_outcome in
      let (w', run, leaves) = completed-Ends q rc o w c in
      let (w₂, k₂, eq) = counted q rc o w c in
      let e₂ : w₂.ops q ≡ some (executed o) = rw k₂.ops_same (store_same q _ w.ops) in
      let after : After (ResourceIs r state) (resource_action_completed q rc w) = rw eq (
        After->>= (ResourceIs r state) (ResourceIs r state) (resource_state_set (some r) q rc w₂) _
          (state_set-state r q rc (executed o) state w₂ e₂ (state_after-executed o rc ∙ known))
          λ w₃ h. finish-ResourceIs r state q expected w₃ h) in
      (w', run, rw run at after)

  pub completed_unref-state :
      (q : ℕ) (rc : ℤ) (o : PeOperation) (state : RecoverState) (w : Cape p)
      → CanComplete q o w
      → state_after o rc ≡ some state
      → After
          (ResourceIs (resource_ref o) state)
          (resource_action_completed q rc w >>= pe_resource_unref q)
  completed_unref-state q rc o state w c known =
      let (w', run, is) = completed_state q rc o state w c known in
      rw run (unref-ResourceIs (resource_ref o) state q w' is)

  -- When an operation to monitor, to start or to stop a resource has ended, the resource is in the state
  -- that the code stands for, whatever else follows from that: a failure that restarts the resource,
  -- or one that destroys its node, leaves it failed. The code 0 stands for what the operation aims at;
  -- any other code of a monitor for failed, or stopped where the monitor does not recur; a code from 2
  -- to 6 of a start or a stop for unrecoverable, and any other for unknown. That needs the operation,
  -- its resource, its digest and that of its entry in the history to be there.
  pub completed-state :
      (method : OcfMethod) (q : ℕ) (rc : ℤ) (o : PeOperation) (w : Cape p)
      → o.method ≡ method_name method
      → CanComplete q o w
      → Ends
          (ResourceIs (resource_ref o) (state_of_code method o.interval rc))
          (resource_action_completed q rc w)
  completed-state method q rc o w e c =
      completed_state q rc o (state_of_code method o.interval rc) w c
        (state_of_code_lem method o rc e)
