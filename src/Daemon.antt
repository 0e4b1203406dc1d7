-- ===== src/Daemon.antt =====
-- The daemon as a whole: src/cape.c on the transport of src/trans_ssh.c and the cloud of
-- src/inst_ctrl.c. A node is named by its key in the map of nodes.
pub mod Restart
pub mod Rejoin
pub mod Health
pub mod Exit
pub mod Completes
pub mod Action
use pacemaker_cloud.Common.{
  ℕ, Bool, true, false, Option, none, some, List, [], ◌∷◌, ◌++◌, String, ℤ, is_zero, Result, ok,
  fault, use_after_free, assert_failed, ◌>>=◌, strcmp_eq, if◌then◌else◌,
}
use pacemaker_cloud.Common.Map.{lookup}
use pacemaker_cloud.Recover.Outside.{Platform}
use pacemaker_cloud.Recover.{
  RecoverState, unknown, running, failed, Recover, Callbacks, Place, state_eq, recover_state_set,
}
use pacemaker_cloud.Cape.{Assembly, Cape, deref, update_assembly}
use pacemaker_cloud.Cape.History.{node_op_history_clear}
use pacemaker_cloud.Cape.Instance.{Cloud, with_instance, instance_requested}
use pacemaker_cloud.Cape.Monitor.{resource_action_completion}
use pacemaker_cloud.Cape.Node.{node_state_change_event}
use pacemaker_cloud.Ssh.{Transport, transport_execute}
use pacemaker_cloud.Ssh.Handlers.{Client}
use pacemaker_cloud.Ssh.Connect.{
  Slot, null_transport, freed_transport, transport_at, Connection, Dial, again, gave_up, is_running,
  get_transport, transport_connect, ssh_assembly_connect, transport_disconnect,
}

-- What a command carries: the health check of a node, or an action of one of its resources, a
-- `struct ra_op`, by its operation.
pub data Work : Type 0 where
  healthcheck : String → Work
  resource_action : String → ℕ → Work

-- `links` is the connection of each node, with its `transport`.
pub record Daemon (p : Platform) : Type 0 where
  pub cape : Cape p
  pub links : String → Connection Work

abbrev transport_of : Slot Work → Option (Transport Work)
transport_of null_transport = none
transport_of freed_transport = none
transport_of (transport_at t) = some t

-- `readable` is whether reading a block just freed is harmless; `cloud` answers the requests that a
-- handler makes.
module _ {p : Platform} where
  abbrev pub set_link : String → Connection Work → Daemon p → Daemon p
  set_link key k d = record d { links = λ n. if strcmp_eq n key then k else d.links n }

  abbrev pub set_cape : Daemon p → Cape p → Daemon p
  set_cape d w = record d { cape = w }

  abbrev pub put_transport : String → Transport Work → Daemon p → Daemon p
  put_transport key t d = set_link key (record (d.links key) { slot = transport_at t }) d

  -- `instance_create` of a node that is in the map.
  unfoldable pub instance_create : Cloud → String → Cape p → Result (Cape p)
  instance_create cloud key w = do
    a ← deref (lookup key w.assembly_map)
    ok (update_assembly key (with_instance cloud) (instance_requested cloud a w))

  module _ (readable : Bool) (cloud : Cloud) where
    unfoldable pub node_recover_restart : String → Daemon p → Result (Daemon p)
    unfolding instance_create
    node_recover_restart key d = do
      k ← transport_disconnect readable (d.links key)
      w ← node_op_history_clear key d.cape
      w₁ ← instance_create cloud key w
      ok (set_cape (set_link key k d) w₁)

    abbrev pub node_recover_escalate : Daemon p → Result (Daemon p)
    node_recover_escalate d = ok d

    -- The callbacks that `assembly_create` gives to `recover_init`.
    abbrev pub node_callbacks : String → Callbacks (Daemon p)
    node_callbacks key = record {
      state_changing =
          some λ from to d. node_state_change_event key from to d.cape >>= λ w. ok (set_cape d w);
      restart = node_recover_restart key;
      escalate = node_recover_escalate;
    }

    abbrev recover_of : Recover p → Option (Assembly p) → Recover p
    recover_of default none = default
    recover_of default (some a) = a.recover

    -- `&assembly->recover`; the default is never read, since the node is there.
    abbrev pub node_place : String → Recover p → Place p (Daemon p)
    node_place key default = record {
      get = λ d. recover_of default (lookup key d.cape.assembly_map);
      put = λ r d. set_cape d (update_assembly key (λ a. record a { recover = r }) d.cape);
    }

    unfoldable pub node_recover_set : String → RecoverState → Daemon p → Result (Daemon p)
    node_recover_set key state d = do
      a ← deref (lookup key d.cape.assembly_map)
      recover_state_set p (node_callbacks key) (node_place key a.recover) d.cape.now state d

    unfoldable pub transport_failed : String → Daemon p → Result (Daemon p)
    transport_failed key d = do
      t ← get_transport (d.links key).slot
      ok (put_transport key (record t { keepalive_timer = false }) d)

    unfoldable pub assembly_healthcheck_failed : String → Daemon p → Result (Daemon p)
    unfolding transport_failed node_recover_set
    assembly_healthcheck_failed key d = do
      d₁ ← transport_failed key d
      node_recover_set key failed d₁

    abbrev pub assembly_healthcheck_timeout : String → Daemon p → Result (Daemon p)
    assembly_healthcheck_timeout = assembly_healthcheck_failed

    -- The timer of the next health check.
    abbrev pub start_healthcheck_timer : String → Daemon p → Result (Daemon p)
    start_healthcheck_timer key d = do
      t ← get_transport (d.links key).slot
      ok (put_transport key (record t { healthcheck_timer = true }) d)

    unfoldable pub assembly_healthcheck_completion : String → ℤ → Daemon p → Result (Daemon p)
    unfolding assembly_healthcheck_failed
    assembly_healthcheck_completion key ssh_rc d = do
      a ← deref (lookup key d.cape.assembly_map)
      if is_zero ssh_rc
          then (if state_eq a.recover.state running then start_healthcheck_timer key d else ok d)
          else assembly_healthcheck_failed key d

    -- `transport_execute` asserts that there is a transport.
    unfoldable pub assembly_healthcheck : String → Daemon p → Result (Daemon p)
    assembly_healthcheck key d = elim (d.links key).slot [
      | null_transport ↦ fault assert_failed
      | freed_transport ↦ fault use_after_free
      | transport_at t ↦ ok (put_transport key (transport_execute "uptime" (healthcheck key) t) d)
    ]

    unfoldable pub resource_action_timeout : String → Daemon p → Result (Daemon p)
    unfolding node_recover_set
    resource_action_timeout key d = node_recover_set key failed d

    -- The end of a command, and its time-out.
    abbrev pub work_completed : Work → ℤ → Daemon p → Result (Daemon p)
    work_completed (healthcheck key) rc d = assembly_healthcheck_completion key rc d
    work_completed (resource_action key q) rc d =
        resource_action_completion q rc d.cape >>= λ w. ok (set_cape d w)

    abbrev pub work_timed_out : Work → Daemon p → Result (Daemon p)
    work_timed_out (healthcheck key) d = assembly_healthcheck_timeout key d
    work_timed_out (resource_action key q) d = resource_action_timeout key d

    -- The transport of a node in the daemon, with what its commands carry.
    abbrev pub client : String → Client Work (Daemon p)
    client key = record {
      get = λ d. transport_of (d.links key).slot;
      put = put_transport key;
      completion_func = work_completed;
      timeout_func = work_timed_out;
    }

    -- `ssh_assembly_connect`, with what follows when the session is up.
    unfoldable pub connect_step : ℤ → Dial → String → Daemon p → Result (Daemon p)
    unfolding node_recover_set assembly_healthcheck
    connect_step eagain dial key d = do
      progress ← ssh_assembly_connect eagain dial (d.links key)
      elim progress [
        | again k ↦ ok (set_link key k d)
        | gave_up k ↦ ok (set_link key k d)
        | is_running k ↦
            node_recover_set key running (set_link key k d) >>= λ d₁. assembly_healthcheck key d₁
      ]

    -- The address is copied, so it must be there where the instance is active.
    unfoldable pub instance_state_completion :
        String → String → Option String → Daemon p → Result (Daemon p)
    unfolding node_recover_set
    instance_state_completion key state address d =
        if strcmp_eq state "ACTIVE"
        then (deref address >>= λ address.
            let w = update_assembly key (λ a. record a { address = some address }) d.cape in
            ok (set_link key (transport_connect (d.links key)) (set_cape d w)))
        else (node_recover_set key unknown d >>= λ d₁.
            ok (set_cape d₁ (record d₁.cape { state_gets = d₁.cape.state_gets ++ key ∷ [] })))

    -- What the driver of the cloud answers about an instance: its state and address, or nothing, where
    -- the completion is not called.
    unfoldable pub my_instance_state_get :
        (String → Result (Option (String × Option String))) → String → Daemon p → Result (Daemon p)
    unfolding instance_state_completion
    my_instance_state_get answer key d = do
      a ← deref (lookup key d.cape.assembly_map)
      answered ← answer a.instance_id
      elim answered [ none ↦ ok d | some found ↦ instance_state_completion key found.0 found.1 d ]
