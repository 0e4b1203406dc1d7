-- ===== src/Daemon/Exit.antt =====
-- The end of the daemon: `cape_exit` of src/cape.c.
use pacemaker_cloud.Common.{
  ◌≡◌, refl, sym, ◌∙◌, subst, ◌⊎◌, inl, inr, Bool, true, false, List, [], ◌∷◌, String, All, Result,
  ok, ◌>>=◌, arith, eq_iff, eq_refl, strcmp_eq,
}
use pacemaker_cloud.Common.Map.{QbMap}
use pacemaker_cloud.Recover.Outside.{Platform}
use pacemaker_cloud.Recover.Total.{Ends}
use pacemaker_cloud.Cape.{Assembly}
use pacemaker_cloud.Ssh.{Transport}
use pacemaker_cloud.Ssh.Invariant.{Inv}
use pacemaker_cloud.Ssh.Connect.{null_transport, transport_at, Connection, transport_disconnect}
use pacemaker_cloud.Ssh.Link.{Dialled}
use pacemaker_cloud.Ssh.Release.{taken_down, transport_disconnect-taken_down}
use pacemaker_cloud.Daemon.{Work, Daemon, set_link}

-- A connection that was never made, or one whose jobs and session go with its state.
abbrev pub Linked : Connection Work → Type 0
Linked k = (k.slot ≡ null_transport) ⊎ ((t : Transport Work) × Dialled t k × Inv t)

-- A connection, and what is left of it.
abbrev pub Down : Connection Work → Connection Work → Type 0
Down k k' =
    ((k.slot ≡ null_transport) × (k' ≡ k))
    ⊎ ((t : Transport Work) × (k.slot ≡ transport_at t) × (k' ≡ taken_down t.ssh_state))

goes-Down :
    (k : Connection Work)
    → Linked k
    → (k' : Connection Work) × (transport_disconnect true k ≡ ok k') × Down k k'
unfolding transport_disconnect
goes-Down k (inl e) = (k, rw e refl, inl (e, refl))
goes-Down k (inr (t, dialled, v)) = (
  taken_down t.ssh_state,
  transport_disconnect-taken_down t k dialled v,
  inr (t, dialled.0, refl),
)

All-zip {ℓ κ μ ν} :
    {A : Type ℓ} (P : A → Type κ) (Q : A → Type μ) (R : A → Type ν) (xs : List A)
    → ((x : A) → P x → Q x → R x)
    → All P xs
    → All Q xs
    → All R xs
All-zip P Q R [] f h k = tt
All-zip P Q R (x ∷ xs) f (h, hs) (k, ks) = (f x h k, All-zip P Q R xs f hs ks)

differ_sym : (a b : String) → strcmp_eq a b ≡ false → strcmp_eq b a ≡ false
differ_sym a b e = ground (arith, eq_iff a b, eq_iff b a)

module _ {p : Platform} where
  -- The loop over the nodes.
  unfoldable pub disconnect_all : Bool → QbMap (Assembly p) → Daemon p → Result (Daemon p)
  disconnect_all readable [] d = ok d
  disconnect_all readable (entry ∷ rest) d = do
    k ← transport_disconnect readable (d.links entry.0)
    disconnect_all readable rest (set_link entry.0 k d)

  unfoldable pub cape_exit : Bool → Daemon p → Result (Daemon p)
  unfolding disconnect_all
  cape_exit readable d = disconnect_all readable d.cape.assembly_map d

  -- No two entries have the same key.
  abbrev pub DistinctKeys : QbMap (Assembly p) → Type 0
  DistinctKeys [] = Unit
  DistinctKeys (entry ∷ rest) =
      All (λ (e : String × Assembly p). strcmp_eq e.0 entry.0 ≡ false) rest × DistinctKeys rest

  -- What happens to the connections of some nodes, and that those of others stay.
  abbrev AllDown : QbMap (Assembly p) → Daemon p → Daemon p → Type 0
  AllDown entries d d' =
      All (λ (e : String × Assembly p). Down (d.links e.0) (d'.links e.0)) entries
      × ((n : String)
          → All (λ (e : String × Assembly p). strcmp_eq n e.0 ≡ false) entries
          → d'.links n ≡ d.links n)

  same :
      (key : String) (k : Connection Work) (d : Daemon p) (n : String)
      → strcmp_eq n key ≡ false
      → (set_link key k d).links n ≡ d.links n
  same key k d n e = rw e refl

  all_down :
      (entries : QbMap (Assembly p)) (d : Daemon p)
      → DistinctKeys entries
      → All (λ (e : String × Assembly p). Linked (d.links e.0)) entries
      → Ends (AllDown entries d) (disconnect_all true entries d)
  unfolding disconnect_all
  all_down [] d apart linked = (d, refl, (tt, λ n h. refl))
  all_down (entry ∷ rest) d (apart, distinct) (here, linked) =
      let (k, run, down) = goes-Down (d.links entry.0) here in
      let (d', ends, (downs, others)) = all_down rest (set_link entry.0 k d) distinct (
        All-zip (λ e. strcmp_eq e.0 entry.0 ≡ false) (λ e. Linked (d.links e.0))
          (λ e. Linked ((set_link entry.0 k d).links e.0)) rest
          (λ e other h. subst Linked (sym (same entry.0 k d e.0 other)) h) apart linked) in
      let kept : d'.links entry.0 ≡ k =
        others entry.0 (
          All-zip (λ e. strcmp_eq e.0 entry.0 ≡ false) (λ e. Linked (d.links e.0))
            (λ e. strcmp_eq entry.0 e.0 ≡ false) rest (λ e other h. differ_sym e.0 entry.0 other)
            apart linked)
        ∙ rw (eq_refl entry.0) refl in
      (
        d',
        rw run ends,
        (
          (
            subst (Down (d.links entry.0)) (sym kept) down,
            All-zip (λ e. strcmp_eq e.0 entry.0 ≡ false)
                (λ e. Down ((set_link entry.0 k d).links e.0) (d'.links e.0))
                (λ e. Down (d.links e.0) (d'.links e.0)) rest
                (λ e other h. subst (λ l. Down l (d'.links e.0)) (same entry.0 k d e.0 other) h)
                apart downs,
          ),
          λ n (here, rest). others n rest ∙ same entry.0 k d n here,
        ),
      )

  -- When the daemon ends, no node has two entries, each connection was never made or is there with
  -- the jobs and the session that go with its state, so that none was freed before, and reading a
  -- transport that was just freed is harmless: the connection of each node that was never made stays
  -- so, and each other is taken down, which leaves what its state leaves.
  pub cape_exit-AllDown :
      (d : Daemon p)
      → DistinctKeys d.cape.assembly_map
      → All (λ (e : String × Assembly p). Linked (d.links e.0)) d.cape.assembly_map
      → Ends
          (λ d'.
            All
              (λ (e : String × Assembly p). Down (d.links e.0) (d'.links e.0))
              d.cape.assembly_map)
          (cape_exit true d)
  unfolding cape_exit
  cape_exit-AllDown d apart linked =
      let (d', ends, (downs, others)) = all_down d.cape.assembly_map d apart linked in
      (d', ends, downs)
