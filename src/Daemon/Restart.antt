-- ===== src/Daemon/Restart.antt =====
-- What becomes of a node whose health check fails.
use pacemaker_cloud.Common.{
  ◌≡◌, refl, ◌∙◌, subst, Bool, false, Option, none, some, [], ◌∷◌, ◌++◌, String, After, ok, eq_refl,
  strcmp_eq,
}
use pacemaker_cloud.Common.Map.{lookup, lookup-update}
use pacemaker_cloud.Recover.Outside.{Platform}
use pacemaker_cloud.Recover.{failed, state_eq, measured, recover_failed, recover_state_set}
use pacemaker_cloud.Cape.{Assembly, Cape, update_assembly}
use pacemaker_cloud.Cape.Monitor.{send_event, schedule_processing, state_str}
use pacemaker_cloud.Cape.History.{node_op_history_clear}
use pacemaker_cloud.Cape.Instance.{
  Cloud, with_instance, image_id_get_completion, instance_create_completion,
}
use pacemaker_cloud.Cape.Node.{node_state_change_event}
use pacemaker_cloud.Cape.Clear.{NodeKept, clear_kept}
use pacemaker_cloud.Ssh.{Transport}
use pacemaker_cloud.Recover.Total.{Ends}
use pacemaker_cloud.Ssh.Connect.{transport_at, transport_disconnect, Connection}
use pacemaker_cloud.Daemon.{
  Work, Daemon, set_cape, put_transport, node_callbacks, node_place, node_recover_restart,
  node_recover_set, transport_failed, assembly_healthcheck_failed,
}

-- The transport whose keep-alive timer was deleted.
abbrev pub unkept : Transport Work → Transport Work
unkept t = record t { keepalive_timer = false }

module _ {p : Platform} where
  abbrev pub failed_node : Assembly p → Assembly p
  failed_node a = record a { recover = record a.recover { state = failed } }

  -- The node has the state `failed`, and the event is sent.
  abbrev pub noted : String → Assembly p → Cape p → Cape p
  noted key a w =
      update_assembly key (λ x. record x { recover = record a.recover { state = failed } })
        (schedule_processing (
          send_event
            (record { node = a.name; resource = none; state = state_str a.recover.state failed })
            w))

  -- A node that measures no failures and has not failed, and whose history can be cleared.
  pub record Up (key : String) (a : Assembly p) (w : Cape p) : Type 0 where
    pub node : lookup key w.assembly_map ≡ some a
    pub not_failed : state_eq a.recover.state failed ≡ false
    pub unmeasured : measured p a.recover ≡ false
    pub clears : (w' : Cape p) × (node_op_history_clear key (noted key a w) ≡ ok w')

  -- A node that was asked for again, with the connection k.
  pub record Asked (key : String) (a : Assembly p) (k : Connection Work) (d d' : Daemon p)
      : Type 0 where
    pub link : d'.links key ≡ k
    pub other_links : (n : String) → strcmp_eq n key ≡ false → d'.links n ≡ d.links n
    pub node :
        (a' : Assembly p) × (lookup key d'.cape.assembly_map ≡ some a') × (a'.recover ≡ a.recover)
    pub created : d'.cape.created ≡ d.cape.created ++ a.name ∷ []
    pub state_gets : d'.cape.state_gets ≡ d.cape.state_gets ++ a.name ∷ []

  with_instance-recover :
      (cloud : Cloud) (a : Assembly p) → (with_instance cloud a).recover ≡ a.recover
  with_instance-recover cloud a =
      created_kept (cloud.instance_id _) (image_id_get_completion (cloud.image a.name) a)
      ∙ image_kept (cloud.image a.name) a
    where
      image_kept :
          (id : Option String) (a : Assembly p) → (image_id_get_completion id a).recover ≡ a.recover
      image_kept none a = refl
      image_kept (some id) a = refl

      created_kept :
          (id : Option String) (a : Assembly p)
          → (instance_create_completion id a).recover ≡ a.recover
      created_kept none a = refl
      created_kept (some id) a = refl

  module _ (readable : Bool) (cloud : Cloud) where
    set_failed :
        (key : String) (a : Assembly p) (d : Daemon p)
        → lookup key d.cape.assembly_map ≡ some a
        → state_eq a.recover.state failed ≡ false
        → node_recover_set readable cloud key failed d
          ≡ recover_failed p
              (node_callbacks readable cloud key)
              (node_place readable cloud key a.recover)
              d.cape.now
              (set_cape d (noted key a d.cape))
    unfolding node_recover_set recover_state_set node_state_change_event
    set_failed key a d e s = rw (e, s) (rw e refl)

    pub failed_lem :
        (key : String) (a : Assembly p) (t : Transport Work) (d : Daemon p)
        → lookup key d.cape.assembly_map ≡ some a
        → state_eq a.recover.state failed ≡ false
        → (d.links key).slot ≡ transport_at t
        → assembly_healthcheck_failed readable cloud key d
          ≡ recover_failed p
              (node_callbacks readable cloud key)
              (node_place readable cloud key a.recover)
              d.cape.now
              (set_cape (put_transport key (unkept t) d) (noted key a d.cape))
    unfolding assembly_healthcheck_failed transport_failed
    failed_lem key a t d e s at = rw at (set_failed key a (put_transport key (unkept t) d) e s)

    unmeasured_restart :
        (key : String) (a : Assembly p) (d : Daemon p)
        → lookup key d.cape.assembly_map ≡ some (failed_node a)
        → measured p a.recover ≡ false
        → recover_failed p
            (node_callbacks readable cloud key)
            (node_place readable cloud key a.recover)
            d.cape.now
            d
          ≡ node_recover_restart readable cloud key d
    unfolding recover_failed
    unmeasured_restart key a d e m = rw e (rw m refl)

    cleared :
        (key : String) (a : Assembly p) (w w' : Cape p)
        → lookup key w.assembly_map ≡ some a
        → node_op_history_clear key w ≡ ok w'
        → NodeKept key a w.created w.state_gets w'
    unfolding node_op_history_clear
    cleared key a w w' e run = subst (After (NodeKept key a w.created w.state_gets)) run (
        clear_kept key a w.created w.state_gets _ w.op_history_map w
          ((a, e, refl, refl), refl, refl))

    -- Taking the transport down, where reading it afterwards is harmless, clearing the history and
    -- asking for the instance.
    restart_lem :
        (key : String) (a : Assembly p) (k : Connection Work) (d : Daemon p) (w : Cape p)
        → transport_disconnect readable (d.links key) ≡ ok k
        → node_op_history_clear key d.cape ≡ ok w
        → NodeKept key a d.cape.created d.cape.state_gets w
        → Ends (Asked key a k d) (node_recover_restart readable cloud key d)
    unfolding node_recover_restart
    restart_lem key a k d w e c ((a', there, n, r), made, gets) =
        rw (e, c, there)
          (
            _,
            refl,
            record {
              link = rw (eq_refl key) refl;
              other_links = λ m h. rw h refl;
              node = (
                with_instance cloud a',
                rw (lookup-update key key (with_instance cloud) w.assembly_map, there, eq_refl key)
                    refl,
                with_instance-recover cloud a' ∙ r,
              );
              created = rw (made, n) refl;
              state_gets = rw (gets, n) refl;
            },
          )

    pub noted_kept :
        (key : String) (a : Assembly p) (w : Cape p)
        → lookup key w.assembly_map ≡ some a
        → lookup key (noted key a w).assembly_map ≡ some (failed_node a)
    noted_kept key a w e =
        rw
          (
            lookup-update key key (λ x. record x { recover = record a.recover { state = failed } })
                w.assembly_map,
            e,
            eq_refl key,
          )
          refl

    -- A health check that fails on a node that is up, when its connection can be taken down.
    pub healthcheck_failed-Asked :
        (key : String) (a : Assembly p) (t : Transport Work) (k : Connection Work) (d : Daemon p)
        → Up key a d.cape
        → (d.links key).slot ≡ transport_at t
        → transport_disconnect readable (record (d.links key) { slot = transport_at (unkept t) })
          ≡ ok k
        → Ends (Asked key (failed_node a) k d) (assembly_healthcheck_failed readable cloud key d)
    healthcheck_failed-Asked key a t k d u at e =
        let d₁ = put_transport key (unkept t) d in
        let d₂ = set_cape d₁ (noted key a d.cape) in
        let there = noted_kept key a d.cape u.node in
        let (w, run) = u.clears in
        let a' = failed_node a in
        let kept = cleared key a' (noted key a d.cape) w there run in
        let down : transport_disconnect readable (d₂.links key) ≡ ok k = rw (eq_refl key) e in
        let (d', ends, h) = restart_lem key a' k d₂ w down run kept in
        (
          d',
          failed_lem key a t d u.node u.not_failed at
              ∙ unmeasured_restart key a d₂ there u.unmeasured
              ∙ ends,
          record {
            link = h.link;
            other_links = λ n other. h.other_links n other ∙ rw other refl;
            node = h.node;
            created = h.created;
            state_gets = h.state_gets;
          },
        )
