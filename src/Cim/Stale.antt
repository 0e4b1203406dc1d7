-- ===== src/Cim/Stale.antt =====
-- The client of a CIM server after its node was restarted: it is released, and the node still has it.
use pacemaker_cloud.Common.{
  ℕ, ◌≡◌, refl, ap, true, false, some, String, ok, fault, use_after_free, double_free, ◌>>=◌, ◌==◌,
  ==_self, eq_refl,
}
use pacemaker_cloud.Common.Map.{lookup, lookup-update}
use pacemaker_cloud.Recover.Outside.{Platform}
use pacemaker_cloud.Recover.Total.{Ends}
use pacemaker_cloud.Cape.{Assembly, Cape, update_assembly}
use pacemaker_cloud.Cape.History.{node_op_history_clear}
use pacemaker_cloud.Cape.Instance.{Cloud, with_instance, instance_requested}
use pacemaker_cloud.Daemon.{instance_create}
use pacemaker_cloud.Cim.{
  Cimc, Clients, create_object_path, service_get_property, service_set_enabled, cim_service_started,
  cim_service_start, cim_service_stop, cim_service_disconnect, flag,
}
use pacemaker_cloud.Cim.Jobs.{
  ActionFunc, call_started, call_start, call_stop, CimAction, CimDaemon, call, perform_action,
  set_cape, cim_transport_connect, cim_transport_disconnect, cim_node_restart,
  cim_instance_state_completion,
}

-- The library can make an object path for every service.
pub record CanName (lib : Cimc) : Type 0 where
  pub named : (service : String) → (lib.new_string service == 0) ≡ true
  pub path : lib.new_object_path ≡ true

-- Every call of a client that was released reads it.
stale_call :
    (lib : Cimc) (func : ActionFunc) (s : Clients) (c : ℕ) (service : String)
    → CanName lib
    → s.env ≡ true
    → s.in_use c ≡ false
    → call lib func s (some c) service ≡ fault use_after_free
unfolding cim_service_started cim_service_start cim_service_stop service_get_property
    service_set_enabled create_object_path
stale_call lib call_started s c service can e gone = rw (e, can.named service, can.path, gone) refl
stale_call lib call_start s c service can e gone = rw (e, can.named service, can.path, gone) refl
stale_call lib call_stop s c service can e gone = rw (e, can.named service, can.path, gone) refl

module _ {p : Platform} where
  -- The node has a client that was released.
  record IsStale (key : String) (c : ℕ) (d : CimDaemon p) : Type 0 where
    has : d.transports key ≡ some c
    released : d.clients.in_use c ≡ false
    environment : d.clients.env ≡ true

  stale_action :
      (lib : Cimc) (key : String) (c : ℕ) (d : CimDaemon p) (action : CimAction)
      → CanName lib
      → IsStale key c d
      → action.transport ≡ d.transports key
      → perform_action lib action d ≡ fault use_after_free
  unfolding perform_action
  stale_action lib key c d action can s t =
      rw
        (
          t,
          s.has,
          stale_call lib action.action_func d.clients c action.service can s.environment s.released,
        )
        refl

  stale_restart :
      (cloud : Cloud) (key : String) (c : ℕ) (d : CimDaemon p)
      → IsStale key c d
      → cim_node_restart cloud key d ≡ fault double_free
  unfolding cim_node_restart cim_transport_disconnect cim_service_disconnect
  stale_restart cloud key c d s = rw (s.has, s.released) refl

  abbrev asked_again : Cloud → String → Assembly p → Cape p → Cape p
  asked_again cloud key a w =
      update_assembly key (with_instance cloud) (instance_requested cloud a w)

  restarted :
      (cloud : Cloud) (key : String) (c : ℕ) (a : Assembly p) (d : CimDaemon p) (w : Cape p)
      → d.transports key ≡ some c
      → d.clients.in_use c ≡ true
      → node_op_history_clear key d.cape ≡ ok w
      → lookup key w.assembly_map ≡ some a
      → cim_node_restart cloud key d
        ≡ ok (record d {
          clients = record (d.clients) { in_use = flag c false d.clients.in_use };
          cape = asked_again cloud key a w;
        })
  unfolding cim_node_restart cim_transport_disconnect cim_service_disconnect instance_create
  restarted cloud key c a d w has live cleared there = rw (has, live, cleared, there) refl

  connect_same :
      (lib : Cimc) (key : String) (c : ℕ) (a : Assembly p) (d : CimDaemon p)
      → d.transports key ≡ some c
      → cim_transport_connect lib key a d ≡ d
  unfolding cim_transport_connect
  connect_same lib key c a d has = rw (cim_transport_connect, has) refl

  -- A node that has a client keeps it when its instance is active.
  active_same :
      (lib : Cimc) (cloud : Cloud) (key : String) (c : ℕ) (address : String) (a : Assembly p)
      (d : CimDaemon p)
      → d.transports key ≡ some c
      → lookup key d.cape.assembly_map ≡ some a
      → (w : Cape p) × (cim_instance_state_completion cloud lib key "ACTIVE" (some address) d
          ≡ ok (set_cape d w))
  unfolding cim_instance_state_completion
  active_same lib cloud key c address a d has there =
      let a₁ = record a { address = some address } in
      let d₁ = set_cape d (update_assembly key (λ _. a₁) d.cape) in
      rw there (d₁.cape, ap ok (connect_same lib key c a₁ d₁ has))

  -- When a node with a client of a CIM server is restarted, and its new instance is then active, the
  -- daemon goes on, without a new client: each action that is performed for the node reads the client
  -- that was released, and another restart of the node releases it a second time.
  pub rejoined_after_free :
      (lib : Cimc) (cloud : Cloud) (key : String) (c : ℕ) (a : Assembly p) (address : String)
      (d : CimDaemon p) (w : Cape p)
      → CanName lib
      → d.clients.env ≡ true
      → d.transports key ≡ some c
      → d.clients.in_use c ≡ true
      → node_op_history_clear key d.cape ≡ ok w
      → lookup key w.assembly_map ≡ some a
      → Ends
          (λ d'.
            ((action : CimAction)
              → action.transport ≡ d'.transports key
              → perform_action lib action d' ≡ fault use_after_free)
            × (cim_node_restart cloud key d' ≡ fault double_free))
          (cim_node_restart cloud key d
            >>= cim_instance_state_completion cloud lib key "ACTIVE" (some address))
  rejoined_after_free lib cloud key c a address d w can e has live cleared there =
      let d₁ = record d {
        clients = record (d.clients) { in_use = flag c false d.clients.in_use };
        cape = asked_again cloud key a w;
      } in
      let (w', run) =
        active_same lib cloud key c address (with_instance cloud a) d₁ has
          (rw (lookup-update, there, eq_refl) refl) in
      let stale : IsStale key c (set_cape d₁ w') = record {
        has = has;
        released = rw (==_self c) refl;
        environment = e;
      } in
      rw (restarted cloud key c a d w has live cleared there, run)
        (
          _,
          refl,
          (
            λ action t. stale_action lib key c _ action can stale t,
            stale_restart cloud key c _ stale,
          ),
        )
