-- ===== src/Cape/Process.antt =====
-- `process` of src/cape.c, which starts a transition of the policy engine, with `pe_process_state`
-- and `pe_is_busy_processing` of src/pcmk_pe.c.
use pacemaker_cloud.Common.{
  ◌+◌, Bool, true, false, String, ℤ, pos, negsuc, is_zero, Result, ok, fault, assert_failed, ◌>>=◌,
  if◌then◌else◌,
}
use pacemaker_cloud.Common.Xml.{XmlNodes}
use pacemaker_cloud.Recover.Outside.{Platform}
use pacemaker_cloud.Cape.{Pe, Cape}
use pacemaker_cloud.Cape.Monitor.{schedule_processing}
use pacemaker_cloud.Cape.Status.{nodes_status, with_status}

-- -EEXIST.
abbrev pub minus_eexist : ℤ
minus_eexist = negsuc 16

-- The globals once a transition is made.
abbrev pub started : Pe → Pe
started g = record g {
  busy = true;
  graph_updated = true;
  aborted = false;
  next_jobs = g.next_jobs + 1;
  transition_count = g.transition_count + 1;
}

-- `validate_xml` of the policy engine is asked where `debug` is set.
module _ (validate_xml : XmlNodes → Bool) (debug : Bool) where
  unfoldable pub pe_process_state : XmlNodes → Pe → Result (ℤ × Pe)
  pe_process_state doc g =
      if g.busy
      then ok (minus_eexist, g)
      else if debug
      then (if validate_xml doc then ok (pos 0, started g) else fault assert_failed)
      else ok (pos 0, started g)

  module _ {p : Platform} (crmd_uuid : String) where
    -- The children of the root of the document, and the daemon.
    unfoldable pub process : XmlNodes × Cape p → Result (XmlNodes × Cape p)
    unfolding pe_process_state
    process (children, w) = do
      states ← nodes_status crmd_uuid w w.assembly_map
      let doc = with_status states children
      (rc, g) ← pe_process_state doc w.pe
      let w₁ = record w { pe = g }
      ok (doc, if is_zero rc then w₁ else schedule_processing w₁)

    -- The job, which the main loop has taken off its list.
    unfoldable pub process_job : XmlNodes × Cape p → Result (XmlNodes × Cape p)
    unfolding process
    process_job (children, w) =
        if w.pe.busy then ok (children, schedule_processing w) else process (children, w)
