-- ===== src/Daemon/Health.antt =====
-- The health of a node: the first check of a node that comes up, and the failure of one that failed
-- too often.
use pacemaker_cloud.Common.{
  ℕ, ◌+◌, if_true, if_false, ==_self, ◌≡◌, refl, sym, ap, ◌∙◌, subst, not, Bool, true, false, none,
  some, List, [], ◌∷◌, ◌++◌, String, ℤ, eq_ℤ, ok, eq_refl,
}
use pacemaker_cloud.Common.Map.{lookup, lookup-update}
use pacemaker_cloud.Recover.Outside.{Platform}
use pacemaker_cloud.Recover.{
  running, failed, state_eq, measured, measure, Recover, recover_failed, recover_state_set,
}
use pacemaker_cloud.Recover.Total.{Ends}
use pacemaker_cloud.Cape.{Assembly, Cape, update_assembly}
use pacemaker_cloud.Cape.Monitor.{send_event, schedule_processing, state_str}
use pacemaker_cloud.Cape.Instance.{Cloud}
use pacemaker_cloud.Cape.Node.{
  map_values, lookup-map_values, update_resources, node_update_addr_info, node_state_change_event,
}
use pacemaker_cloud.Ssh.{
  is_connected, Transport, userauth_publickey_fromfile, session_connected, new_op,
  transport_execute, transport_schedule,
}
use pacemaker_cloud.Cape.Memory.{store}
use pacemaker_cloud.Ssh.Invariant.{Inv, Connected}
use pacemaker_cloud.Ssh.Connect.{
  transport_at, Dial, ssh_assembly_connect, connect_from, keepalive, authenticate,
}
use pacemaker_cloud.Ssh.Queue.{is_empty}
use pacemaker_cloud.Ssh.Release.{unconnected_jobs}
use pacemaker_cloud.Daemon.{
  Work, healthcheck, Daemon, set_cape, set_link, put_transport, node_recover_set,
  assembly_healthcheck, assembly_healthcheck_failed, connect_step,
}
use pacemaker_cloud.Daemon.Restart.{unkept, noted, noted_kept, failed_lem}

-- The transport with a new command, which was idle.
abbrev pub only_op : String → Work → Transport Work → Transport Work
only_op command work t = record t {
  scheduled = true;
  ssh_op_head = t.next_op ∷ [];
  jobs = t.jobs ++ t.next_op ∷ [];
  ops = store t.next_op (some (new_op command work)) t.ops;
  next_op = t.next_op + 1;
}

unconnected_queue :
    (queue : List ℕ) (t : Transport Work)
    → t.ssh_op_head ≡ queue
    → is_connected t.ssh_state ≡ false
    → Inv t
    → t.ssh_op_head ≡ []
unconnected_queue [] t e c v = e
unconnected_queue (q ∷ rest) t e c v =
    let on : is_connected t.ssh_state ≡ true = subst (λ q. Connected q t.ssh_state) e v.connected in
    let clash : true ≡ false = sym on ∙ c in cc

pub execute_idle :
    (command : String) (work : Work) (t : Transport Work)
    → t.ssh_state ≡ session_connected
    → t.ssh_op_head ≡ []
    → t.scheduled ≡ false
    → transport_execute command work t ≡ only_op command work t
unfolding transport_execute transport_schedule
execute_idle command work t up empty idle =
    let queued : List ℕ → Transport Work = λ head. record t {
      ssh_op_head = head;
      ops = store t.next_op (some (new_op command work)) t.ops;
      next_op = t.next_op + 1;
    } in
    if_true (is_connected t.ssh_state) _ _ (ap is_connected up)
    ∙ if_false t.scheduled _ _ idle
    ∙ ap (λ head. transport_schedule (queued (head ++ t.next_op ∷ []))) empty

module _ {p : Platform} (readable : Bool) (cloud : Cloud) where
  -- A health check that fails on a node that failed too often.
  pub record GivenUp (key : String) (a : Assembly p) (t : Transport Work) (r : Recover p)
      (d d' : Daemon p) : Type 0 where
    pub link : d'.links key ≡ record (d.links key) { slot = transport_at (unkept t) }
    pub node : lookup key d'.cape.assembly_map ≡ some (record a { recover = r })
    pub created : d'.cape.created ≡ d.cape.created
    pub destroyed : d'.cape.destroyed ≡ d.cape.destroyed
    pub state_gets : d'.cape.state_gets ≡ d.cape.state_gets

  -- When a health check fails on a node that measures its failures, and this one is one too many, then
  -- nothing is asked of the cloud, and the connection stays as it is, but for its keep-alive timer.
  pub escalate-GivenUp :
      (key : String) (a : Assembly p) (t : Transport Work) (r : Recover p) (d : Daemon p)
      → lookup key d.cape.assembly_map ≡ some a
      → state_eq a.recover.state failed ≡ false
      → (d.links key).slot ≡ transport_at t
      → measured p a.recover ≡ true
      → measure p d.cape.now (record a.recover { state = failed }) ≡ ok (true, r)
      → Ends (GivenUp key a t r d) (assembly_healthcheck_failed readable cloud key d)
  unfolding recover_failed
  escalate-GivenUp key a t r d e s at m many = rw (failed_lem readable cloud key a t d e s at) (
      rw (noted_kept readable cloud key a d.cape e) (
        rw (m, many)
          (
            _,
            refl,
            record {
              link = rw (eq_refl key) refl;
              node =
                  rw
                    (
                      lookup-update key key (λ x. record x { recover = r })
                          (noted key a d.cape).assembly_map,
                      noted_kept readable cloud key a d.cape e,
                      eq_refl key,
                    )
                    refl;
              created = refl;
              destroyed = refl;
              state_gets = refl;
            },
          )))

  came_up : String → Assembly p → Cape p → Cape p
  came_up key a w =
      let w₁ =
        send_event
          (record { node = a.name; resource = none; state = state_str a.recover.state running })
          w in
      update_assembly key (λ x. record x { recover = record a.recover { state = running } })
        (schedule_processing (node_update_addr_info a w₁))

  set_running :
      (key : String) (a : Assembly p) (d : Daemon p)
      → lookup key d.cape.assembly_map ≡ some a
      → state_eq a.recover.state running ≡ false
      → node_recover_set readable cloud key running d ≡ ok (set_cape d (came_up key a d.cape))
  unfolding came_up node_recover_set recover_state_set node_state_change_event node_update_addr_info
  set_running key a d e s =
      rw (e, s)
        (rw (lookup-map_values (update_resources a.name a.address) key d.cape.assembly_map, e) refl)

  came_up-node :
      (key : String) (a : Assembly p) (w : Cape p)
      → lookup key w.assembly_map ≡ some a
      → (a' : Assembly p) × (lookup key (came_up key a w).assembly_map ≡ some a')
        × (a'.recover.state ≡ running)
  unfolding came_up node_update_addr_info
  came_up-node key a w e = (
    record (update_resources a.name a.address a) { recover = record a.recover { state = running } },
    rw
        (
          lookup-update key key (λ x. record x { recover = record a.recover { state = running } })
              (map_values (update_resources a.name a.address) w.assembly_map),
          lookup-map_values (update_resources a.name a.address) key w.assembly_map,
          e,
          eq_refl key,
        )
        refl,
    refl,
  )

  -- A session that is up, with the command q as its only one.
  pub record Checked (key : String) (q : ℕ) (d : Daemon p) : Type 0 where
    pub t : Transport Work
    pub slot : (d.links key).slot ≡ transport_at t
    pub up : t.ssh_state ≡ session_connected
    pub queue : t.ssh_op_head ≡ q ∷ []
    pub jobs : t.jobs ≡ q ∷ []
    pub op : t.ops q ≡ some (new_op "uptime" (healthcheck key))
    pub node :
        (a : Assembly p) × (lookup key d.cape.assembly_map ≡ some a) × (a.recover.state ≡ running)

  checks :
      (key : String) (t : Transport Work) (d : Daemon p)
      → (d.links key).slot ≡ transport_at t
      → assembly_healthcheck readable cloud key d
        ≡ ok (put_transport key (transport_execute "uptime" (healthcheck key) t) d)
  unfolding assembly_healthcheck
  checks key t d e = rw (assembly_healthcheck, e) refl

  -- When the key of a node that is not running was accepted, or refused for good, and the keep-alive
  -- is set up, the node is running, and its first health check is the only command of its transport,
  -- with a job to run it.
  pub connect_step-Checked :
      (eagain : ℤ) (dial : Dial) (key : String) (a : Assembly p) (t : Transport Work) (d : Daemon p)
      → lookup key d.cape.assembly_map ≡ some a
      → state_eq a.recover.state running ≡ false
      → (d.links key).slot ≡ transport_at t
      → Inv t
      → t.ssh_state ≡ userauth_publickey_fromfile
      → eq_ℤ dial.userauth eagain ≡ false
      → Ends (Checked key t.next_op) (connect_step readable cloud eagain dial key d)
  unfolding connect_step ssh_assembly_connect connect_from authenticate
  connect_step-Checked eagain dial key a t d e s at v userauth done =
      let t₁ = record t { ssh_state = session_connected; keepalive_timer = true } in
      let d₁ = set_link key (keepalive t (d.links key)) d in
      let empty = unconnected_queue t.ssh_op_head t refl (ap is_connected userauth) v in
      let idle : t.scheduled ≡ false = v.scheduled ∙ ap (λ q. not (is_empty q)) empty in
      let none_left = unconnected_jobs t.ssh_op_head t refl (ap is_connected userauth) v in
      rw (at, userauth, done)
        (rw (set_running key a d₁ e s) (
          rw (checks key t₁ (set_cape d₁ (came_up key a d.cape)) (rw (eq_refl key) refl)) (
            rw (execute_idle "uptime" (healthcheck key) t₁ refl empty idle) (
              put_transport key (only_op "uptime" (healthcheck key) t₁)
                  (set_cape d₁ (came_up key a d.cape)),
              refl,
              record {
                t = only_op "uptime" (healthcheck key) t₁;
                slot = rw (eq_refl key) refl;
                up = refl;
                queue = refl;
                jobs = ap (λ js. js ++ t.next_op ∷ []) none_left;
                op = rw (==_self t.next_op) refl;
                node = came_up-node key a d.cape e;
              },
            ))))
