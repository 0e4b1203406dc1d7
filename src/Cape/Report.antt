-- ===== src/Cape/Report.antt =====
-- What is reported to the policy engine, and when: the status section is replaced, each entry of the
-- history is reported on its node, and a transition is started at most once.
use pacemaker_cloud.Common.{
  ℕ, suc, ◌+◌, ◌≤◌, ◌≡◌, refl, ap, ◌∙◌, Bool, true, false, Option, none, some, List, [], ◌∷◌,
  String, Result, ok, arith, if◌then◌else◌, if_true, if_false, ℤ, pos, All, length, Bool-cases, inl,
  inr,
}
use pacemaker_cloud.Common.Xml.{XmlNode, XmlNodes, element, no_nodes, node, ◌<>◌, node_count}
use pacemaker_cloud.Recover.Outside.{Platform}
use pacemaker_cloud.Recover.Total.{Ends}
use pacemaker_cloud.Cape.{Ref, OperationHistory, Resource, Assembly, Pe, Cape, find_resource}
use pacemaker_cloud.Cape.Status.{
  is_on, entry_status, entries_status, insert_status, nodes_status, is_status, remove_status,
  with_status,
}
use pacemaker_cloud.Cape.Monitor.{schedule_processing}
use pacemaker_cloud.Cape.Process.{minus_eexist, started, pe_process_state, process, process_job}

abbrev pub status_count : XmlNodes → ℕ
status_count no_nodes = 0
status_count (node first rest) =
    if is_status first then suc (status_count rest) else status_count rest

remove-append :
    (children : XmlNodes) (last : XmlNode)
    → is_status last ≡ true
    → status_count children ≡ 0
    → remove_status (children <> node last no_nodes) ≡ children
unfolding remove_status
remove-append no_nodes last s e = rw s refl
remove-append (node first rest) last s e = elim (Bool-cases (is_status first)) [
  | inl h ↦ absurd (ground (arith, h, e))
  | inr h ↦ rw h (ap (node first) (remove-append rest last s (rw h at e)))
]

count-remove :
    (children : XmlNodes) → status_count children ≤ 1 → status_count (remove_status children) ≡ 0
unfolding remove_status
count-remove no_nodes e = refl
count-remove (node first rest) e = elim (Bool-cases (is_status first)) [
  | inl h ↦ rw h (let k : suc (status_count rest) ≤ 1 = rw h at e in omega arith)
  | inr h ↦ rw (h, h) (count-remove rest (rw h at e))
]

count-append :
    (children : XmlNodes) (last : XmlNode)
    → is_status last ≡ true
    → status_count (children <> node last no_nodes) ≡ status_count children + 1
count-append no_nodes last s = rw s refl
count-append (node first rest) last s = elim (Bool-cases (is_status first)) [
  | inl h ↦ rw h (omega (arith, count-append rest last s))
  | inr h ↦ rw h (count-append rest last s)
]

-- A document with at most one status section has exactly one after a report, and no trace of the
-- report is left after the next one.
pub status_replaced :
    (states later children : XmlNodes)
    → status_count children ≤ 1
    → (status_count (with_status states children) ≡ 1)
      × (with_status later (with_status states children) ≡ with_status later children)
status_replaced states later children h =
    let gone = count-remove children h in
    (
      count-append (remove_status children) (element "status" [] states) refl
          ∙ ap (λ n. n + 1) gone,
      ap (λ c. c <> node (element "status" [] later) no_nodes)
          (remove-append (remove_status children) (element "status" [] states) refl gone),
    )

module _ {p : Platform} (w : Cape p) where
  -- The resource and the digest of an entry are there.
  pub record Reportable (oh : OperationHistory) : Type 0 where
    pub ref : Ref
    pub res : Resource p
    pub digest : String
    pub has_resource : oh.resource ≡ some ref
    pub resource_there : find_resource ref w ≡ some res
    pub digest_there : w.texts oh.op_digest ≡ some digest

  abbrev pub found_on : String → Option (Resource p) → Bool
  found_on name none = false
  found_on name (some res) = is_on name res

  abbrev pub resource_by : Option Ref → Option (Resource p)
  resource_by none = none
  resource_by (some r) = find_resource r w

  -- The entries whose resource's name contains the name of the node.
  abbrev pub count_on : String → List (String × OperationHistory) → ℕ
  count_on name [] = 0
  count_on name (entry ∷ rest) =
      if found_on name (resource_by entry.1.resource)
      then suc (count_on name rest)
      else count_on name rest

  entry-Ends :
      (crmd_uuid name : String) (oh : OperationHistory)
      → Reportable oh
      → Ends
          (λ nodes.
            (others : XmlNodes)
            → node_count (nodes <> others) ≡ (
                if found_on name (resource_by oh.resource)
                then suc (node_count others)
                else node_count others))
          (entry_status crmd_uuid w name oh)
  unfolding entry_status
  entry-Ends crmd_uuid name oh r = elim (Bool-cases (is_on name r.res)) [
    | inl on ↦ rw (r.has_resource, r.resource_there, on, r.digest_there) (_, refl, λ others. refl)
    | inr off ↦ rw (r.has_resource, r.resource_there, off) (_, refl, λ others. refl)
  ]

  -- Where the resource and the digest of every entry are there, the history is reported without a
  -- fault on any node, with one element for each entry whose resource's name contains the name of the
  -- node, whichever node the resource is on.
  pub entries_status-count_on :
      (crmd_uuid name : String) (entries : List (String × OperationHistory))
      → All (λ e. Reportable e.1) entries
      → Ends
          (λ nodes. node_count nodes ≡ count_on name entries)
          (entries_status crmd_uuid w name entries)
  unfolding entries_status
  entries_status-count_on crmd_uuid name [] h = (no_nodes, refl, refl)
  entries_status-count_on crmd_uuid name (entry ∷ rest) (here, h) =
      let (first, run, counted) = entry-Ends crmd_uuid name entry.1 here in
      let (others, runs, same) = entries_status-count_on crmd_uuid name rest h in
      rw (run, runs) (first <> others, refl, rw same at (counted others))

  nodes-Ends :
      (crmd_uuid : String) (nodes : List (String × Assembly p))
      → All (λ e. Reportable e.1) w.op_history_map
      → Ends (λ states. node_count states ≡ length nodes) (nodes_status crmd_uuid w nodes)
  unfolding nodes_status insert_status
  nodes-Ends crmd_uuid [] h = (no_nodes, refl, refl)
  nodes-Ends crmd_uuid (entry ∷ rest) h =
      let (resources, run, _) = entries_status-count_on crmd_uuid entry.1.name w.op_history_map h in
      let (others, runs, same) = nodes-Ends crmd_uuid rest h in
      rw (run, runs) (_, refl, ap suc same)

  -- One transition in progress has one job; none has none.
  abbrev pub job_of : Bool → ℕ
  job_of busy = if busy then 1 else 0

  -- What a run of `process_job` leaves of the document, of which `children` are the children of the
  -- root, and of the daemon.
  abbrev pub Reported : Bool → XmlNodes → XmlNodes × Cape p → Type 0
  Reported true children (doc, w') =
      (doc ≡ children) × (w'.pe ≡ w.pe) × (w'.process_jobs ≡ w.process_jobs + 1)
  Reported false children (doc, w') =
      ((states : XmlNodes) × (doc ≡ with_status states children)
        × (node_count states ≡ length w.assembly_map))
      × (w'.pe.busy ≡ true)
      × (w'.pe.next_jobs ≡ w.pe.next_jobs + 1)
      × (w'.process_jobs ≡ w.process_jobs)

  process_reports :
      (validate_xml : XmlNodes → Bool) (crmd_uuid : String) (children : XmlNodes)
      → w.pe.busy ≡ false
      → All (λ e. Reportable e.1) w.op_history_map
      → Ends (Reported false children) (process validate_xml false crmd_uuid (children, w))
  unfolding process pe_process_state
  process_reports validate_xml crmd_uuid children e h =
      let (states, run, same) = nodes-Ends crmd_uuid w.assembly_map h in
      rw
        (
          run,
          if_false {A = Result (ℤ × Pe)} w.pe.busy (ok (minus_eexist, w.pe))
              (ok (pos 0, started w.pe)) e,
        )
        (_, refl, ((states, refl, same), refl, refl, refl))

  process_job_at :
      (validate_xml : XmlNodes → Bool) (crmd_uuid : String) (children : XmlNodes) (b : Bool)
      → w.pe.busy ≡ b
      → All (λ e. Reportable e.1) w.op_history_map
      → Ends (Reported b children) (process_job validate_xml false crmd_uuid (children, w))
  unfolding process_job
  process_job_at validate_xml crmd_uuid children true e h =
      rw
        (if_true w.pe.busy (ok (children, schedule_processing w))
          (process validate_xml false crmd_uuid (children, w)) e)
        (_, refl, (refl, refl, refl))
  process_job_at validate_xml crmd_uuid children false e h =
      rw
        (if_false w.pe.busy (ok (children, schedule_processing w))
          (process validate_xml false crmd_uuid (children, w)) e)
        (process_reports validate_xml crmd_uuid children e h)

  -- The job `process_job`, where every entry of the history can be reported and validation is off,
  -- ends without a fault. While a transition is in progress it leaves the document and the policy
  -- engine alone and asks to be run again. Otherwise it reports every node in a new status section
  -- and starts one transition, with one job.
  pub process_job-Reported :
      (validate_xml : XmlNodes → Bool) (crmd_uuid : String) (children : XmlNodes)
      → All (λ e. Reportable e.1) w.op_history_map
      → Ends (Reported w.pe.busy children) (process_job validate_xml false crmd_uuid (children, w))
  process_job-Reported validate_xml crmd_uuid children h =
      process_job_at validate_xml crmd_uuid children w.pe.busy refl h
