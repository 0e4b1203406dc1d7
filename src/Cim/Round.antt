-- ===== src/Cim/Round.antt =====
-- A round of an action by a CIM server: it is handed over, and the job of the main loop performs it.
use pacemaker_cloud.Common.{
  ℕ, suc, ◌+◌, ◌%◌, ◌<◌, ◌≡◌, refl, ap, ◌∙◌, Bool, true, false, some, [], String, ℤ, pos, ok, ◌>>=◌,
  chained, strcmp_eq, u32_mod, to_u32, ltb, ◌==◌, arith, if◌then◌else◌,
}
use pacemaker_cloud.Recover.Outside.{Platform}
use pacemaker_cloud.Recover.{RecoverState, unknown, running, failed, stopped}
use pacemaker_cloud.Recover.Total.{Ends}
use pacemaker_cloud.Cape.{PeOperation, Cape}
use pacemaker_cloud.Cape.Memory.{store_op, pe_resource_ref, pe_resource_unref}
use pacemaker_cloud.Cape.Instance.{Cloud}
use pacemaker_cloud.Cape.Monitor.{resource_action_completed, state_after}
use pacemaker_cloud.Cape.Count.{CanComplete, store_same}
use pacemaker_cloud.Cape.Completion.{executed, resource_ref}
use pacemaker_cloud.Cape.Recurring.{completed_unref, with_count, kept_count}
use pacemaker_cloud.Cape.Outcome.{ResourceIs, completed_unref-state}
use pacemaker_cloud.Cim.{cimc_boolean, Cimc, invoked}
use pacemaker_cloud.Cim.Codes.{
  IsServed, accepted, started_code, start_code, stop_code, monitor_code, start_state, stop_state,
}
use pacemaker_cloud.Cim.Jobs.{
  ActionFunc, call_started, call_start, call_stop, CimDaemon, action_func_of, call, perform_action,
  next_action, cim_resource_action,
}

-- The operation with the reference that the transport takes.
abbrev pub held : PeOperation → PeOperation
held o = record o { refcount = (o.refcount + 1) % u32_mod }

state_after-held : (o : PeOperation) (rc : ℤ) → state_after (held o) rc ≡ state_after o rc
unfolding state_after
state_after-held o rc = refl

module _ {p : Platform} where
  held-CanComplete :
      (q : ℕ) (o : PeOperation) (w : Cape p)
      → CanComplete q o w
      → CanComplete q (held o) (store_op q (held o) w)
  held-CanComplete q o w c = record {
    op_live = store_same q _ w.ops;
    digests = record { mine = c.digests.mine; entry = c.digests.entry };
    resource_there = c.resource_there;
  }

  performed :
      (lib : Cimc) (cloud : Cloud) (key : String) (q : ℕ) (o : PeOperation) (rc : ℤ)
      (func : ActionFunc) (d : CimDaemon p) {w' : Cape p}
      → d.cape.ops q ≡ some o
      → strcmp_eq o.rclass "lsb" ≡ true
      → action_func_of o.method ≡ ok func
      → d.jobs ≡ []
      → call lib func d.clients (d.transports key) o.rtype ≡ ok rc
      → (resource_action_completed q rc (store_op q (held o) d.cape) >>= pe_resource_unref q)
        ≡ ok w'
      → (cim_resource_action cloud true true key q d >>= next_action lib)
        ≡ ok (record d { cape = w'; jobs = [] })
  unfolding cim_resource_action next_action perform_action pe_resource_ref
  performed lib cloud key q o rc func d e lsb known idle answered run =
      rw (e, lsb, known, idle, answered)
        (chained (resource_action_completed q rc (store_op q (held o) d.cape)) (pe_resource_unref q)
          _ run)

  -- A round of an action by a CIM server, on a resource of the class lsb, where no other job waits,
  -- the job could be added and the call of the server returns, and the operation, its resource, its
  -- digest and that of its entry in the history are there: the job is gone, and the references of
  -- the operation are counted right, whatever the server answers. The operation keeps its references
  -- if it recurs and has the expected result, and loses one otherwise, with which it is freed if
  -- that was the last.
  pub cim_round-Ends :
      (lib : Cimc) (cloud : Cloud) (key : String) (q : ℕ) (o : PeOperation) (n : ℕ) (rc : ℤ)
      (func : ActionFunc) (d : CimDaemon p)
      → CanComplete q o d.cape
      → o.refcount ≡ suc n
      → suc (suc n) < u32_mod
      → strcmp_eq o.rclass "lsb" ≡ true
      → action_func_of o.method ≡ ok func
      → d.jobs ≡ []
      → call lib func d.clients (d.transports key) o.rtype ≡ ok rc
      → let again = ltb 0 o.interval in
        let expected = to_u32 rc == o.target_outcome in
        Ends
          (λ d'.
            (d'.cape.ops q ≡ with_count (executed o) (kept_count again expected n))
            × (d'.jobs ≡ []))
          (cim_resource_action cloud true true key q d >>= next_action lib)
  cim_round-Ends lib cloud key q o n rc func d c e h lsb known idle answered =
      let (w', run, left) =
        completed_unref q rc (held o) n (store_op q (held o) d.cape) (held-CanComplete q o d.cape c)
          (omega arith) h in
      (_, performed lib cloud key q o rc func d c.op_live lsb known idle answered run, (left, refl))

  -- The same round brings the resource into the state that the code stands for.
  round-state :
      (lib : Cimc) (cloud : Cloud) (key : String) (q : ℕ) (o : PeOperation) (n : ℕ) (rc : ℤ)
      (func : ActionFunc) (state : RecoverState) (d : CimDaemon p)
      → CanComplete q o d.cape
      → o.refcount ≡ suc n
      → suc (suc n) < u32_mod
      → strcmp_eq o.rclass "lsb" ≡ true
      → action_func_of o.method ≡ ok func
      → d.jobs ≡ []
      → call lib func d.clients (d.transports key) o.rtype ≡ ok rc
      → state_after o rc ≡ some state
      → Ends
          (λ d'. ResourceIs (resource_ref o) state d'.cape)
          (cim_resource_action cloud true true key q d >>= next_action lib)
  round-state lib cloud key q o n rc func state d c e h lsb known idle answered means =
      let w₁ = store_op q (held o) d.cape in
      let c₁ = held-CanComplete q o d.cape c in
      let (w', run, left) = completed_unref q rc (held o) n w₁ c₁ (omega arith) h in
      let after = completed_unref-state q rc (held o) state w₁ c₁ (state_after-held o rc ∙ means) in
      (
        _,
        performed lib cloud key q o rc func d c.op_live lsb known idle answered run,
        rw run at after,
      )

  -- A monitor of a service by a CIM server that is reached turns the answer around: the resource of a
  -- service that is not started is running after the round, and the resource of one that is started
  -- is stopped, or failed where the monitor recurs.
  pub monitor_turned :
      (lib : Cimc) (cloud : Cloud) (key : String) (q : ℕ) (o : PeOperation) (n b : ℕ)
      (d : CimDaemon p)
      → CanComplete q o d.cape
      → o.refcount ≡ suc n
      → suc (suc n) < u32_mod
      → strcmp_eq o.rclass "lsb" ≡ true
      → o.method ≡ "monitor"
      → d.jobs ≡ []
      → IsServed lib d.clients (d.transports key) o.rtype
      → lib.get_property o.rtype "Started" ≡ (cimc_boolean b, 0)
      → Ends
          (λ d'.
            ResourceIs
              (resource_ref o)
              (if b == 0 then running else if o.interval == 0 then stopped else failed)
              d'.cape)
          (cim_resource_action cloud true true key q d >>= next_action lib)
  monitor_turned lib cloud key q o n b d c e h lsb monitor idle served answer =
      round-state lib cloud key q o n (pos b) call_started _ d c e h lsb (ap action_func_of monitor)
        idle (started_code lib d.clients (d.transports key) o.rtype b served answer)
        (monitor_code o b monitor)

  -- A start or a stop by a CIM server that is reached: the resource is running, or stopped, exactly
  -- where the server accepts the call. Where it does not, for whatever reason, the state is unknown,
  -- and never failed.
  pub change_outcome :
      (lib : Cimc) (cloud : Cloud) (key : String) (q : ℕ) (o : PeOperation) (n : ℕ) (enabled : Bool)
      (d : CimDaemon p)
      → CanComplete q o d.cape
      → o.refcount ≡ suc n
      → suc (suc n) < u32_mod
      → strcmp_eq o.rclass "lsb" ≡ true
      → o.method ≡ (if enabled then "start" else "stop")
      → d.jobs ≡ []
      → IsServed lib d.clients (d.transports key) o.rtype
      → let call : String = if enabled then "StartService" else "StopService" in
        Ends
          (λ d'.
            ResourceIs
              (resource_ref o)
              (if accepted (lib.invoke_method o.rtype call)
                then (if enabled then running else stopped)
                else unknown)
              d'.cape)
          (cim_resource_action cloud true true key q d >>= next_action lib)
  change_outcome lib cloud key q o n true d c e h lsb start idle served =
      let answer = lib.invoke_method o.rtype "StartService" in
      round-state lib cloud key q o n (invoked answer) call_start _ d c e h lsb
        (ap action_func_of start) idle (start_code lib d.clients (d.transports key) o.rtype served)
        (start_state o answer start)
  change_outcome lib cloud key q o n false d c e h lsb stop idle served =
      let answer = lib.invoke_method o.rtype "StopService" in
      round-state lib cloud key q o n (invoked answer) call_stop _ d c e h lsb
        (ap action_func_of stop) idle (stop_code lib d.clients (d.transports key) o.rtype served)
        (stop_state o answer stop)
