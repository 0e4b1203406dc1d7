-- ===== src/Daemon/Rejoin.antt =====
-- A node that does not answer any more is taken down, asked for again, and dialled when it is there.
use pacemaker_cloud.Common.{
  ℕ, ◌≡◌, refl, sym, ap, ◌∙◌, subst, true, false, none, some, [], String, ℤ, is_zero, Bool-cases,
  inl, inr, ok, fault, ◌>>=◌, use_after_free, eq_refl,
}
use pacemaker_cloud.Common.Map.{lookup}
use pacemaker_cloud.Recover.Outside.{Platform}
use pacemaker_cloud.Recover.Total.{Ends, Ends->>=}
use pacemaker_cloud.Cape.{Assembly}
use pacemaker_cloud.Cape.Instance.{Cloud}
use pacemaker_cloud.Ssh.{
  SshOp, Transport, session_connecting, session_connected, transport_unschedule,
}
use pacemaker_cloud.Ssh.Exec.{complete}
use pacemaker_cloud.Ssh.Handlers.{Client, ssh_timeout, timed_out, unlinked, settle}
use pacemaker_cloud.Ssh.Invariant.{Inv, HeadJob}
use pacemaker_cloud.Ssh.Runs.{complete_after_free}
use pacemaker_cloud.Ssh.Connect.{
  transport_release, release_in, transport_at, new_transport, transport_connect,
  transport_disconnect, Connection,
}
use pacemaker_cloud.Ssh.Link.{Waits, Dialled, DialledIn}
use pacemaker_cloud.Ssh.Release.{taken_down, transport_disconnect-taken_down, unscheduled_jobs}
use pacemaker_cloud.Daemon.{
  Work, healthcheck, work_completed, Daemon, client, put_transport, my_instance_state_get,
  instance_state_completion, assembly_healthcheck_failed, assembly_healthcheck_completion,
}
use pacemaker_cloud.Daemon.Restart.{failed_node, Up, Asked, unkept, healthcheck_failed-Asked}

unschedule-state : (t : Transport Work) → (transport_unschedule t).ssh_state ≡ t.ssh_state
unfolding transport_unschedule
unschedule-state t = elim (Bool-cases t.scheduled) [ inl e ↦ rw e refl | inr e ↦ rw e refl ]

unscheduled : (t : Transport Work) → (transport_unschedule t).scheduled ≡ false
unfolding transport_unschedule
unscheduled t = elim (Bool-cases t.scheduled) [ inl e ↦ rw e refl | inr e ↦ rw e refl ]

-- The transport after a time-out, without its keep-alive timer.
abbrev dropped : {W : Type 0} → Client Work W → Transport Work → Transport Work
dropped c t = unkept (timed_out c t)

dropped-Inv : {W : Type 0} (c : Client Work W) (t : Transport Work) → Inv t → Inv (dropped c t)
dropped-Inv c t v = record {
  scheduled = unscheduled t;
  jobs = subst (HeadJob []) (sym (unscheduled_jobs t.ssh_op_head t refl v)) tt;
  connected = tt;
  queued = tt;
  distinct = tt;
}

module _ {p : Platform} (cloud : Cloud) where
  -- When the health check of a node that measures no failures times out, where the history of the
  -- node can be cleared and reading a transport that was just freed is harmless: its commands are
  -- dropped, its connection is taken down, the node is set to failed, and the cloud is asked for a
  -- new instance and for its state; other connections stay as they are.
  pub ssh_timeout-Asked :
      (key : String) (a : Assembly p) (t : Transport Work) (q : ℕ) (o : SshOp Work) (d : Daemon p)
      → Up key a d.cape
      → Dialled t (d.links key)
      → Inv t
      → t.ops q ≡ some o
      → o.work ≡ healthcheck key
      → Ends
          (Asked key (failed_node a) (taken_down t.ssh_state) d)
          (ssh_timeout (client true cloud key) q d)
  unfolding ssh_timeout
  ssh_timeout-Asked key a t q o d u (at, waits) v e work =
      let c = client {p = p} true cloud key in
      let t₁ = timed_out c t in
      let d₁ = put_transport key t₁ d in
      let k₁ = record (d.links key) { slot = transport_at (dropped c t) } in
      let waits₁ : Waits t₁.ssh_state k₁.connect_jobs k₁.ssh_jobs k₁.sessions =
        subst (λ s. Waits s k₁.connect_jobs k₁.ssh_jobs k₁.sessions) (sym (unschedule-state t))
          waits in
      let down : transport_disconnect true k₁ ≡ ok (taken_down t.ssh_state) =
        transport_disconnect-taken_down (dropped c t) k₁ (refl, waits₁) (dropped-Inv c t v)
        ∙ ap (λ s. ok (taken_down s)) (unschedule-state t) in
      let (d', ends, h) =
        healthcheck_failed-Asked true cloud key a t₁ (taken_down t.ssh_state) d₁ u
          (rw (eq_refl key) refl) (rw (eq_refl key) down) in
      rw (at, e, work)
        (
          d',
          ends,
          record {
            link = h.link;
            other_links = λ n other. h.other_links n other ∙ rw other refl;
            node = h.node;
            created = h.created;
            state_gets = h.state_gets;
          },
        )

  address_found :
      (key address : String) (a a' : Assembly p) (d d' : Daemon p)
      → Asked key a (taken_down session_connected) d d'
      → Ends
          (λ d₂. DialledIn session_connecting (d₂.links key))
          (my_instance_state_get true cloud (λ id. ok (some ("ACTIVE", some address))) key d')
  unfolding my_instance_state_get instance_state_completion transport_connect
  address_found key address a a' d d' h =
      let (x, there, same) = h.node in
      rw there
        (_, refl, (new_transport, refl, rw (eq_refl key) (rw h.link (refl, (refl, refl, refl)))))

  -- When the health check of a connected node that measures no failures times out, where the history
  -- of the node can be cleared and reading a transport that was just freed is harmless, and the
  -- cloud then answers that its new instance is active at some address: the node is dialled. One job
  -- connects it, and no other job and no session of the old connection is left.
  pub rejoins :
      (key address : String) (a : Assembly p) (t : Transport Work) (q : ℕ) (o : SshOp Work)
      (d : Daemon p)
      → Up key a d.cape
      → Dialled t (d.links key)
      → Inv t
      → t.ssh_state ≡ session_connected
      → t.ops q ≡ some o
      → o.work ≡ healthcheck key
      → Ends
          (λ d'. DialledIn session_connecting (d'.links key))
          (ssh_timeout (client true cloud key) q d
            >>= my_instance_state_get true cloud (λ id. ok (some ("ACTIVE", some address))) key)
  rejoins key address a t q o d u h v s e work =
      Ends->>= (Asked key (failed_node a) (taken_down t.ssh_state) d) _ _ _
        (ssh_timeout-Asked key a t q o d u h v e work)
        λ d' asked.
          address_found key address (failed_node a) a d d'
            (subst (λ st. Asked key (failed_node a) (taken_down st) d d') s asked)

  work_failed :
      (key : String) (a : Assembly p) (rc : ℤ) (d d' : Daemon p) (work : Work)
      → work ≡ healthcheck key
      → lookup key d.cape.assembly_map ≡ some a
      → is_zero rc ≡ false
      → assembly_healthcheck_failed true cloud key d ≡ ok d'
      → work_completed true cloud work rc d ≡ ok d'
  unfolding assembly_healthcheck_completion
  work_failed key a rc d d' work is there bad ends = rw (is, there, bad) ends

  gone_transport :
      (key : String) (t : Transport Work) (k : Connection Work) (d : Daemon p)
      → d.links key ≡ transport_release t k
      → (client {p = p} true cloud key).get d ≡ none
  unfolding transport_release release_in
  gone_transport key t k d e = rw e refl

  -- When the health check of a node that measures no failures ends with an error, the node is
  -- restarted, and then the handler that ran the command reads the transport that was freed.
  pub settle-after_free :
      (key : String) (a : Assembly p) (t : Transport Work) (q : ℕ) (o : SshOp Work) (d : Daemon p)
      → Up key a d.cape
      → (d.links key).slot ≡ transport_at t
      → o.work ≡ healthcheck key
      → o.failed ≡ false
      → is_zero o.ssh_rc ≡ false
      → settle (client true cloud key) q t d (complete o) ≡ fault use_after_free
  unfolding transport_disconnect
  settle-after_free key a t q o d u at work ran rc =
      let c = client {p = p} true cloud key in
      let t₁ = unlinked c q o t in
      let d₁ = put_transport key t₁ d in
      let k₁ = record (d₁.links key) { slot = transport_at (unkept t₁) } in
      let k = transport_release (unkept t₁) k₁ in
      let (d', ends, h) =
        healthcheck_failed-Asked true cloud key a t₁ k d₁ u (rw (eq_refl key) refl) refl in
      complete_after_free c (λ t' w. rw (eq_refl key) refl) q o t d d' (rw at refl) ran
        (work_failed key a o.ssh_rc d₁ d' o.work work u.node rc ends)
        (gone_transport key (unkept t₁) k₁ d' h.link)
