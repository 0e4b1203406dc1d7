-- ===== src/Ocf/Bounds.antt =====
-- Ranges of the exit codes, and of the reads of the table of reasons.
use pacemaker_cloud.Common.{
  ℕ, zero, suc, ◌<◌, ◌≡◌, ◌≢◌, ◌⊎◌, ◌↔◌, false, none, String, ℤ, pos, negsuc, arith, List, [], ◌∷◌,
  length, get_elem?,
}
use pacemaker_cloud.Ocf.{
  pe_resource_ocf_exitcode_get, pe_resource_reason_get, ocf_ok, ocf_not_running, ocf_unknown_error,
  ocf_pending, ocf_reasons, gt_ℤ,
}

get_elem?-ne-none {ℓ} : {A : Type ℓ} (xs : List A) (n : ℕ) → n < length xs → get_elem? xs n ≢ none
get_elem?-ne-none [] n h = elim h [ ]
get_elem?-ne-none (x ∷ xs) zero h = λ e. cc
get_elem?-ne-none (x ∷ xs) (suc n) h = get_elem?-ne-none xs n (omega arith)

-- For every exit code, negative ones included, the reason is read inside the table of ten reasons,
-- so that a text is returned.
pub reason_in_table : (rc : ℤ) → pe_resource_reason_get rc ≢ none
unfolding pe_resource_reason_get
reason_in_table (pos n) = ground (arith, get_elem?-ne-none ocf_reasons n)
reason_in_table (negsuc n) = ground arith

-- For an LSB status operation the OCF code is 0 exactly for 0, 7 exactly for 1, 2 and 3, and 1 for
-- every other code.
pub status_exitcode_lem :
    (rc : ℤ)
    → let r = pe_resource_ocf_exitcode_get "lsb" "monitor" rc in
      ((r ≡ ocf_ok) ↔ (rc ≡ pos 0))
      × ((r ≡ ocf_not_running) ↔ ((rc ≡ pos 1) ⊎ ((rc ≡ pos 2) ⊎ (rc ≡ pos 3))))
      × ((r ≡ ocf_ok) ⊎ ((r ≡ ocf_not_running) ⊎ (r ≡ ocf_unknown_error)))
unfolding pe_resource_ocf_exitcode_get
status_exitcode_lem rc = ground arith

-- Whatever the class, the method and the exit status of the remote command, a status that is not
-- negative is turned into a code from 0 to 7, which is never "pending".
pub exitcode_bounds :
    (rclass method : String) (n : ℕ)
    → let r = pe_resource_ocf_exitcode_get rclass method (pos n) in
      (gt_ℤ r ocf_not_running ≡ false) × (gt_ℤ ocf_ok r ≡ false) × (r ≢ ocf_pending)
unfolding pe_resource_ocf_exitcode_get
exitcode_bounds rclass method n = ground arith
