-- ===== src/Cim/Jobs.antt =====
-- src/trans_cim.c: the transport that asks a CIM server, in a job of the main loop for each action,
-- and the restart of a node in src/cape.c and src/inst_ctrl.c on that transport.
use pacemaker_cloud.Common.{
  ℕ, Bool, Option, none, some, List, [], ◌∷◌, ◌++◌, String, ℤ, Result, ok, fault, assert_failed,
  ◌>>=◌, strcmp_eq, if◌then◌else◌,
}
use pacemaker_cloud.Common.Map.{lookup}
use pacemaker_cloud.Recover.Outside.{Platform}
use pacemaker_cloud.Recover.{
  RecoverState, failed, unknown, Recover, Callbacks, Place, recover_state_set,
}
use pacemaker_cloud.Cape.{Assembly, Cape, deref, update_assembly}
use pacemaker_cloud.Cape.Memory.{load_op, pe_resource_ref, pe_resource_unref}
use pacemaker_cloud.Cape.History.{node_op_history_clear}
use pacemaker_cloud.Cape.Instance.{Cloud}
use pacemaker_cloud.Cape.Monitor.{resource_action_completed}
use pacemaker_cloud.Cape.Node.{node_state_change_event}
use pacemaker_cloud.Daemon.{instance_create}
use pacemaker_cloud.Cim.{
  Cimc, Clients, cim_service_connect, cim_service_disconnect, cim_service_started,
  cim_service_start, cim_service_stop,
}

-- The functions that `action_func` points to.
pub data ActionFunc : Type 0 where
  call_started call_start call_stop : ActionFunc

-- `cim_action_t`; `op` is an operation.
pub record CimAction : Type 0 where
  pub transport : Option ℕ
  pub service : String
  pub action_func : ActionFunc
  pub op : ℕ

-- `transports` is the field `transport` of each node; `jobs` are the jobs `perform_action` that were
-- added to the main loop.
pub record CimDaemon (p : Platform) : Type 0 where
  pub cape : Cape p
  pub clients : Clients
  pub transports : String → Option ℕ
  pub jobs : List CimAction

abbrev pub action_func_of : String → Result ActionFunc
action_func_of method =
    if strcmp_eq method "monitor"
    then ok call_started
    else if strcmp_eq method "start"
    then ok call_start
    else if strcmp_eq method "stop"
    then ok call_stop
    else fault assert_failed

abbrev pub call : Cimc → ActionFunc → Clients → Option ℕ → String → Result ℤ
call lib call_started = cim_service_started lib
call lib call_start = cim_service_start lib
call lib call_stop = cim_service_stop lib

abbrev set_transport : String → Option ℕ → (String → Option ℕ) → String → Option ℕ
set_transport key t f n = if strcmp_eq n key then t else f n

module _ {p : Platform} where
  abbrev pub set_cape : CimDaemon p → Cape p → CimDaemon p
  set_cape d w = record d { cape = w }

  abbrev made : String → CimDaemon p → Clients × Option ℕ → CimDaemon p
  made key d (s, t) = record d { clients = s; transports = set_transport key t d.transports }

  -- `transport_connect`, of a node that is there.
  unfoldable pub cim_transport_connect : Cimc → String → Assembly p → CimDaemon p → CimDaemon p
  cim_transport_connect lib key a d = elim (d.transports key) [
    | none ↦ made key d (cim_service_connect lib a.address d.clients)
    | some c ↦ d
  ]

  -- `transport_disconnect` leaves the field as it is.
  unfoldable pub cim_transport_disconnect : String → CimDaemon p → Result (CimDaemon p)
  cim_transport_disconnect key d = do
    s ← cim_service_disconnect (d.transports key) d.clients
    ok (record d { clients = s })

  unfoldable pub perform_action : Cimc → CimAction → CimDaemon p → Result (CimDaemon p)
  perform_action lib action d = do
    result ← call lib action.action_func d.clients action.transport action.service
    w ← resource_action_completed action.op result d.cape
    w₁ ← pe_resource_unref action.op w
    ok (set_cape d w₁)

  -- The main loop runs its next job.
  unfoldable pub next_action : Cimc → CimDaemon p → Result (CimDaemon p)
  unfolding perform_action
  next_action lib d = elim d.jobs [
    | [] ↦ ok d
    | action ∷ rest ↦ perform_action lib action (record d { jobs = rest })
  ]

  module _ (cloud : Cloud) where
    -- `node_recover_restart` of src/cape.c.
    unfoldable pub cim_node_restart : String → CimDaemon p → Result (CimDaemon p)
    unfolding cim_transport_disconnect
    cim_node_restart key d = do
      d₁ ← cim_transport_disconnect key d
      w ← node_op_history_clear key d₁.cape
      w₁ ← instance_create cloud key w
      ok (set_cape d₁ w₁)

    abbrev pub cim_node_callbacks : String → Callbacks (CimDaemon p)
    cim_node_callbacks key = record {
      state_changing =
          some λ from to d. node_state_change_event key from to d.cape >>= λ w. ok (set_cape d w);
      restart = cim_node_restart key;
      escalate = λ d. ok d;
    }

    abbrev recover_of : Recover p → Option (Assembly p) → Recover p
    recover_of default none = default
    recover_of default (some a) = a.recover

    -- `&a->recover`; the default is never read, since the node is there.
    abbrev pub cim_node_place : String → Recover p → Place p (CimDaemon p)
    cim_node_place key default = record {
      get = λ d. recover_of default (lookup key d.cape.assembly_map);
      put = λ r d. set_cape d (update_assembly key (λ a. record a { recover = r }) d.cape);
    }

    unfoldable pub cim_node_set : String → RecoverState → CimDaemon p → Result (CimDaemon p)
    cim_node_set key state d = do
      a ← deref (lookup key d.cape.assembly_map)
      recover_state_set p (cim_node_callbacks key) (cim_node_place key a.recover) d.cape.now state d

    -- What `done` does where no job was added: the action is read, which is null where there was no
    -- memory for it.
    unfoldable pub not_added : String → Option ℕ → CimDaemon p → Result (CimDaemon p)
    unfolding cim_node_set
    not_added key op d = do
      d₁ ← cim_node_set key failed d
      q ← deref op
      w ← pe_resource_unref q d₁.cape
      ok (set_cape d₁ w)

    -- `transport_resource_action`. There is memory for the action where `allocated`, and the job is
    -- added where `added`.
    unfoldable pub cim_resource_action :
        Bool → Bool → String → ℕ → CimDaemon p → Result (CimDaemon p)
    unfolding not_added
    cim_resource_action allocated added key q d = do
      o ← load_op q d.cape
      w ← pe_resource_ref q d.cape
      if allocated
          then (if strcmp_eq o.rclass "lsb"
              then (action_func_of o.method >>= λ func.
                  if added
                  then ok (record d {
                    cape = w;
                    jobs =
                        d.jobs
                        ++ record {
                          transport = d.transports key;
                          service = o.rtype;
                          action_func = func;
                          op = q;
                        }
                          ∷ [];
                  })
                  else not_added key (some q) (set_cape d w))
              else fault assert_failed)
          else not_added key none (set_cape d w)

    -- `instance_state_completion` of src/inst_ctrl.c, with `lib` for the new connection.
    unfoldable pub cim_instance_state_completion :
        Cimc → String → String → Option String → CimDaemon p → Result (CimDaemon p)
    unfolding cim_transport_connect cim_node_set
    cim_instance_state_completion lib key state address d =
        if strcmp_eq state "ACTIVE"
        then (deref address >>= λ address. deref (lookup key d.cape.assembly_map) >>= λ a.
            let a₁ = record a { address = some address } in
            ok (
              cim_transport_connect lib key a₁ (set_cape d (update_assembly key (λ _. a₁) d.cape))))
        else (cim_node_set key unknown d >>= λ d₁.
            ok (set_cape d₁ (record (d₁.cape) { state_gets = d₁.cape.state_gets ++ key ∷ [] })))
