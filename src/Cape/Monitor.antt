-- ===== src/Cape/Monitor.antt =====
-- The life of an operation in src/cape.c: executing it, its completion, and the recurring monitor of
-- a resource.
use pacemaker_cloud.Common.{
  ℕ, ◌+◌, ◌%◌, Bool, Option, none, some, [], ◌∷◌, ◌++◌, String, ℤ, u32_mod, to_u32, eq_ℤ, Result,
  ok, fault, assert_failed, ◌>>=◌, strcmp_eq, ◌==◌, ltb, leb, if◌then◌else◌,
}
use pacemaker_cloud.Common.Text.{codes, is_infix}
use pacemaker_cloud.Common.Map.{lookup}
use pacemaker_cloud.Recover.Outside.{Platform}
use pacemaker_cloud.Recover.{
  RecoverState, unknown, running, failed, stopped, unrecoverable, Recover, Callbacks, Place,
  state_eq, recover_state_set,
}
use pacemaker_cloud.Cape.{
  Ref, PeOperation, Resource, Event, Cape, deref, find_resource, update_resource, update_assembly,
}
use pacemaker_cloud.Cape.Memory.{
  load_op, store_op, pe_resource_ref, pe_resource_unref, pe_resource_completed,
}
use pacemaker_cloud.Cape.History.{op_history_save, op_history_delete, recurring_monitor_stop}
use pacemaker_cloud.Ocf.{
  ocf_ok, ocf_unknown_error, ocf_not_running, pe_resource_is_hard_error,
  pe_resource_ocf_exitcode_get,
}

-- The table `state_str`: what is told of a change of state, null where the table has a null.
abbrev pub state_str : RecoverState → RecoverState → Option String
state_str unknown running = some "running"
state_str unknown stopped = some "needs starting"
state_str unknown unrecoverable = some "unrecoverable"
state_str running unknown = some "unknown"
state_str running failed = some "recovering"
state_str running stopped = some "stopped"
state_str running unrecoverable = some "unrecoverable"
state_str failed unknown = some "unknown"
state_str failed running = some "running"
state_str failed stopped = some "stopped"
state_str failed unrecoverable = some "unrecoverable"
state_str stopped unknown = some "unknown"
state_str stopped running = some "started"
state_str stopped unrecoverable = some "unrecoverable"
state_str _ _ = none

-- The state that `resource_state_set` gives a resource when an operation ends with a code; nothing,
-- for a method that it does not know.
unfoldable pub state_after : PeOperation → ℤ → Option RecoverState
state_after o rc =
    let start_stop = λ (done : RecoverState).
      if eq_ℤ rc ocf_ok
      then some done
      else if pe_resource_is_hard_error rc
      then some unrecoverable
      else some unknown in
    if strcmp_eq o.method "monitor"
    then (if eq_ℤ rc ocf_ok
        then some running
        else if o.interval == 0
        then some stopped
        else some failed)
    else if strcmp_eq o.method "start"
    then start_stop running
    else if strcmp_eq o.method "stop"
    then start_stop stopped
    else none

module _ {p : Platform} where
  abbrev pub send_event : Event → Cape p → Cape p
  send_event e w = record w { events = w.events ++ e ∷ [] }

  abbrev pub schedule_processing : Cape p → Cape p
  schedule_processing w = record w { process_jobs = w.process_jobs + 1 }

  abbrev pub timer_del : Ref → Cape p → Cape p
  timer_del r = update_resource r λ x. record x { monitor_timer = none }

  abbrev pub resource_state_change_event :
      Ref → RecoverState → RecoverState → Cape p → Result (Cape p)
  resource_state_change_event r from to w = do
    res ← deref (find_resource r w)
    ok (
        send_event
          (record { node = r.assembly; resource = some res.name; state = state_str from to }) w)

  abbrev pub resource_recover_restart : Ref → Cape p → Result (Cape p)
  resource_recover_restart r w = ok (timer_del r w)

  -- `instance_destroy` of src/inst_ctrl.c: the cloud is asked, and `instance_destroy_completion`
  -- clears the identifier.
  abbrev pub instance_destroy : String → Cape p → Result (Cape p)
  instance_destroy k w = do
    a ← deref (lookup k w.assembly_map)
    ok (
        update_assembly k (λ x. record x { instance_id = "" })
          (record w { destroyed = w.destroyed ++ a.instance_id ∷ [] }))

  abbrev pub resource_recover_escalate : Ref → Cape p → Result (Cape p)
  resource_recover_escalate r w = instance_destroy r.assembly (timer_del r w)

  abbrev pub resource_callbacks : Ref → Callbacks (Cape p)
  resource_callbacks r = record {
    state_changing = some (resource_state_change_event r);
    restart = resource_recover_restart r;
    escalate = resource_recover_escalate r;
  }

  abbrev recover_of : Recover p → Option (Resource p) → Recover p
  recover_of d none = d
  recover_of d (some r) = r.recover

  -- `&r->recover`; the default is never read, since the resource is there.
  abbrev pub resource_place : Ref → Recover p → Place p (Cape p)
  resource_place r d = record {
    get = λ w. recover_of d (find_resource r w);
    put = λ v. update_resource r (λ x. record x { recover = v });
  }

  unfoldable pub resource_recover_set : Ref → RecoverState → Cape p → Result (Cape p)
  resource_recover_set r state w = do
    res ← deref (find_resource r w)
    recover_state_set p (resource_callbacks r) (resource_place r res.recover) w.now state w

  abbrev pub set_if : Option Ref → Option RecoverState → Cape p → Result (Cape p)
  set_if r none w = ok w
  set_if r (some state) w = do r' ← deref r; resource_recover_set r' state w

  unfoldable pub resource_state_set : Option Ref → ℕ → ℤ → Cape p → Result (Cape p)
  resource_state_set r q rc w = do o ← load_op q w; set_if r (state_after o rc) w

  -- The `struct resource *` found for an operation, null if its assembly has no such resource.
  unfoldable pub resource_of : PeOperation → Cape p → Result (Option Ref)
  resource_of o w = do
    a ← deref (lookup o.hostname w.assembly_map)
    ok (elim (lookup o.rname a.resource_map) [
      | none ↦ none
      | some _ ↦ some (record { assembly = o.hostname; name = o.rname })
    ])

  -- What follows the change of state: a transition, and the timer of a recurring monitor or one
  -- reference less.
  unfoldable pub action_finish : Option Ref → ℕ → Bool → Cape p → Result (Cape p)
  action_finish r q as_expected w = do
    o ← load_op q w
    let w₁ = if as_expected then w else schedule_processing w
    if ltb 0 o.interval
        then (if as_expected
            then (deref r >>= λ r.
                ok (update_resource r (λ x. record x { monitor_timer = some q }) w₁))
            else pe_resource_unref q w₁)
        else pe_resource_unref q w₁

  unfoldable pub resource_action_completed : ℕ → ℤ → Cape p → Result (Cape p)
  resource_action_completed q rc w = do
    o₀ ← load_op q w
    r ← resource_of o₀ w
    let o = record o₀ { times_executed = (o₀.times_executed + 1) % u32_mod }
    let w₀ = store_op q o w
    w₁ ← (if is_infix (codes o.hostname) (codes o.rname) then op_history_save r q rc w₀ else ok w₀)
    w₂ ← (if leb o.times_executed 1 then pe_resource_completed q rc w₁ else ok w₁)
    w₃ ← resource_state_set r q rc w₂
    action_finish r q (to_u32 rc == o.target_outcome) w₃

  -- `transport_resource_action` of src/trans_ssh.c and src/trans_cim.c, as far as it concerns the
  -- operation: the transport holds a reference until it reports the result.
  unfoldable pub transport_resource_action : ℕ → Cape p → Result (Cape p)
  transport_resource_action q w = do
    w₁ ← pe_resource_ref q w
    ok (record w₁ { actions_sent = w₁.actions_sent ++ q ∷ [] })

  unfoldable pub resource_monitor_execute : ℕ → Cape p → Result (Cape p)
  resource_monitor_execute q w = do
    o ← load_op q w
    a ← deref (lookup o.hostname w.assembly_map)
    if state_eq a.recover.state running
        then transport_resource_action q w
        else resource_action_completed q ocf_unknown_error w

  unfoldable pub recurring_monitor_start : ℕ → Cape p → Result (Cape p)
  recurring_monitor_start q w = do
    o ← load_op q w
    r ← deref o.resource
    res ← deref (find_resource r w)
    elim res.monitor_timer [
      | none ↦ pe_resource_ref q w >>= λ w₁.
          resource_monitor_execute q (update_resource r (λ x. record x { monitor_op = some q }) w₁)
      | some _ ↦ pe_resource_completed q ocf_ok w >>= pe_resource_unref q
    ]

  unfoldable pub execute_monitor : PeOperation → ℕ → Cape p → Result (Cape p)
  execute_monitor o q w =
      if is_infix (codes o.hostname) (codes o.rname)
      then elim o.resource [
        | none ↦ fault assert_failed
        | some _ ↦
            if ltb 0 o.interval then recurring_monitor_start q w else resource_monitor_execute q w
      ]
      else (pe_resource_completed q ocf_not_running w >>= pe_resource_unref q)

  unfoldable pub execute_stop : Option Ref → ℕ → Cape p → Result (Cape p)
  execute_stop r q w = do
    r ← deref r
    res ← deref (find_resource r w)
    w₁ ← elim res.monitor_op [ none ↦ ok w | some m ↦ recurring_monitor_stop m w ]
    transport_resource_action q w₁

  unfoldable pub resource_execute_cb : ℕ → Cape p → Result (Cape p)
  unfolding execute_monitor execute_stop
  resource_execute_cb q w = do
    o₀ ← load_op q w
    a ← deref (lookup o₀.hostname w.assembly_map)
    r ← resource_of o₀ w
    let o = record o₀ { resource = r }
    let w₁ = store_op q o w
    if state_eq a.recover.state running
        then (if strcmp_eq o.method "monitor"
            then execute_monitor o q w₁
            else if strcmp_eq o.method "start"
            then transport_resource_action q w₁
            else if strcmp_eq o.method "stop"
            then execute_stop r q w₁
            else if strcmp_eq o.method "delete"
            then op_history_delete q w₁
            else fault assert_failed)
        else resource_action_completed q ocf_unknown_error w

  -- `resource_action_completion` of src/trans_ssh.c: the result arrives, and the transport gives its
  -- reference back.
  unfoldable pub resource_action_completion : ℕ → ℤ → Cape p → Result (Cape p)
  resource_action_completion q ssh_rc w = do
    o ← load_op q w
    let pe_rc =
        if strcmp_eq o.rclass "lsb"
        then pe_resource_ocf_exitcode_get o.rclass o.method ssh_rc
        else ssh_rc
    w₁ ← resource_action_completed q pe_rc w
    pe_resource_unref q w₁
