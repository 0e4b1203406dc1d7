-- ===== src/Deltacloud/Poll.antt =====
-- Polling the state of an instance through libdeltacloud.
use pacemaker_cloud.Common.{
  ◌≡◌, refl, ◌⊎◌, Bool, true, false, none, some, [], ◌∷◌, ◌++◌, String, ok, fault,
  uninitialised_read, Bool-cases, inl, inr, eq_refl, strcmp_eq,
}
use pacemaker_cloud.Common.Map.{lookup, lookup-update}
use pacemaker_cloud.Recover.Outside.{Platform}
use pacemaker_cloud.Recover.{
  RecoverState, unrecoverable, stopped, unknown, running, failed, state_eq, recover_state_set,
}
use pacemaker_cloud.Recover.Total.{Ends}
use pacemaker_cloud.Cape.{Assembly}
use pacemaker_cloud.Cape.Instance.{Cloud}
use pacemaker_cloud.Cape.Node.{node_state_change_event}
use pacemaker_cloud.Ssh.Connect.{transport_connect}
use pacemaker_cloud.Daemon.{
  Daemon, node_recover_set, my_instance_state_get, instance_state_completion,
}
use pacemaker_cloud.Deltacloud.{
  Deltacloud, DeltacloudInstance, state_of, instance_state_get, head_address,
}

-- The instance is running and has a first private address.
abbrev pub Reachable : DeltacloudInstance → String → Type 0
Reachable i address =
    (i.state ≡ some "RUNNING") × (head_address i.private_addresses ≡ some (some address))

-- It is in a state other than running, or its first private address is null.
abbrev pub Pending : DeltacloudInstance → Type 0
Pending i =
    ((state : String) × (i.state ≡ some state) × (strcmp_eq state "RUNNING" ≡ false))
    ⊎ ((i.state ≡ some "RUNNING") × (head_address i.private_addresses ≡ some none))

state_of-Reachable :
    (i : DeltacloudInstance) (address : String)
    → Reachable i address
    → state_of i ≡ ok ("ACTIVE", some address)
unfolding state_of
state_of-Reachable i address (s, h) = rw (s, h) refl

state_of-Pending : (i : DeltacloudInstance) → Pending i → state_of i ≡ ok ("PENDING", none)
unfolding state_of
state_of-Pending i (inl (state, e, other)) = rw (e, other) refl
state_of-Pending i (inr (s, h)) = rw (s, h) refl

is_unknown : (s : RecoverState) → state_eq s unknown ≡ true → s ≡ unknown
is_unknown unknown e = refl
is_unknown running e = cc
is_unknown failed e = cc
is_unknown stopped e = cc
is_unknown unrecoverable e = cc

module _ {p : Platform} (readable : Bool) (cloud : Cloud) where
  pub set_unknown :
      (key : String) (a : Assembly p) (d : Daemon p)
      → lookup key d.cape.assembly_map ≡ some a
      → Ends
          (λ d'.
            (d'.links ≡ d.links)
            × (d'.cape.state_gets ≡ d.cape.state_gets)
            × ((a' : Assembly p) × (lookup key d'.cape.assembly_map ≡ some a')
                × (a'.recover.state ≡ unknown)))
          (node_recover_set readable cloud key unknown d)
  unfolding node_recover_set recover_state_set node_state_change_event
  set_unknown key a d e = elim (Bool-cases (state_eq a.recover.state unknown)) [
    | inl s ↦ rw e (rw s (d, refl, (refl, refl, (a, e, is_unknown a.recover.state s))))
    | inr s ↦
        rw (e, s)
          (rw e (
            _,
            refl,
            (
              refl,
              refl,
              (
                record a { recover = record a.recover { state = unknown } },
                rw
                    (
                      lookup-update key key
                          (λ x. record x { recover = record a.recover { state = unknown } })
                          d.cape.assembly_map,
                      e,
                      eq_refl key,
                    )
                    refl,
                refl,
              ),
            ),
          ))
  ]

  -- As long as the library finds an instance that is not running yet, or has no address, the node is
  -- unknown, its state is asked for again, and no connection changes.
  pub Pending-polls :
      (lib : Deltacloud) (key : String) (a : Assembly p) (i : DeltacloudInstance) (d : Daemon p)
      → lookup key d.cape.assembly_map ≡ some a
      → lib.initialized ≡ true
      → lib.get_instance_by_id a.instance_id ≡ some i
      → Pending i
      → Ends
          (λ d'.
            (d'.links ≡ d.links)
            × (d'.cape.state_gets ≡ d.cape.state_gets ++ key ∷ [])
            × ((a' : Assembly p) × (lookup key d'.cape.assembly_map ≡ some a')
                × (a'.recover.state ≡ unknown)))
          (my_instance_state_get readable cloud (instance_state_get lib) key d)
  unfolding my_instance_state_get instance_state_completion instance_state_get
  Pending-polls lib key a i d e up found pending =
      let (d', run, (links, gets, node)) = set_unknown key a d e in
      rw (e, up, found, state_of-Pending i pending) (rw run (_, refl, (links, rw gets refl, node)))

  -- Once the library finds an instance running at an address, the node has the address and is dialled.
  pub Reachable-dials :
      (lib : Deltacloud) (key address : String) (a : Assembly p) (i : DeltacloudInstance)
      (d : Daemon p)
      → lookup key d.cape.assembly_map ≡ some a
      → lib.initialized ≡ true
      → lib.get_instance_by_id a.instance_id ≡ some i
      → Reachable i address
      → Ends
          (λ d'.
            (d'.links key ≡ transport_connect (d.links key))
            × (lookup key d'.cape.assembly_map ≡ some (record a { address = some address })))
          (my_instance_state_get readable cloud (instance_state_get lib) key d)
  unfolding my_instance_state_get instance_state_completion instance_state_get
  Reachable-dials lib key address a i d e up found reachable =
      rw (e, up, found, state_of-Reachable i address reachable)
        (
          _,
          refl,
          (
            rw (eq_refl key) refl,
            rw
                (
                  lookup-update key key (λ x. record x { address = some address })
                      d.cape.assembly_map,
                  e,
                  eq_refl key,
                )
                refl,
          ),
        )

  -- Where the library does not find the instance, what it left on the stack is read.
  pub not_found_reads :
      (lib : Deltacloud) (key : String) (a : Assembly p) (d : Daemon p)
      → lookup key d.cape.assembly_map ≡ some a
      → lib.initialized ≡ true
      → lib.get_instance_by_id a.instance_id ≡ none
      → my_instance_state_get readable cloud (instance_state_get lib) key d
        ≡ fault uninitialised_read
  unfolding my_instance_state_get instance_state_get
  not_found_reads lib key a d e up lost = rw (e, up, lost) refl
