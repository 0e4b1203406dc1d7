-- ===== src/Tests/Ocf.antt =====
-- Runs of the code tables of src/pcmk_pe.c.
use pacemaker_cloud.Common.{◌≡◌, ◌≢◌, false, pos}
use pacemaker_cloud.Ocf.{pe_resource_ocf_exitcode_get, ocf_ok, ocf_not_running, ocf_pending, gt_ℤ}
use pacemaker_cloud.Ocf.Bounds.{exitcode_bounds}

exitcode_bounds_example :
    let r = pe_resource_ocf_exitcode_get "lsb" "start" (pos 150) in
    (gt_ℤ r ocf_not_running ≡ false) × (gt_ℤ ocf_ok r ≡ false) × (r ≢ ocf_pending)
exitcode_bounds_example = exitcode_bounds "lsb" "start" 150
