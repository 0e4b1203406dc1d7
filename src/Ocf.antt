-- ===== src/Ocf.antt =====
-- The exit codes of src/pcmk_pe.h and src/pcmk_pe.c: LSB codes turned into OCF codes, hard errors,
-- reasons. An exit code is an `int`, since the source moves codes between `int` and the enumeration.
pub mod Bounds
use pacemaker_cloud.Common.{
  ℕ, ◌≡◌, refl, Bool, true, false, ◌&&◌, ◌||◌, Option, none, some, List, [], ◌∷◌, String, ℤ, pos,
  negsuc, minus_one, eq_ℤ, ltb, strcmp_eq, if◌then◌else◌, get_elem?,
}

abbrev pub ocf_pending : ℤ
ocf_pending = minus_one

abbrev pub ocf_ok : ℤ
ocf_ok = pos 0

abbrev pub ocf_unknown_error : ℤ
ocf_unknown_error = pos 1

abbrev pub ocf_invalid_param : ℤ
ocf_invalid_param = pos 2

abbrev pub ocf_unimplement_feature : ℤ
ocf_unimplement_feature = pos 3

abbrev pub ocf_insufficient_priv : ℤ
ocf_insufficient_priv = pos 4

abbrev pub ocf_not_installed : ℤ
ocf_not_installed = pos 5

abbrev pub ocf_not_configured : ℤ
ocf_not_configured = pos 6

abbrev pub ocf_not_running : ℤ
ocf_not_running = pos 7

abbrev pub ocf_failed_master : ℤ
ocf_failed_master = pos 9

-- a > b on `int`.
abbrev pub gt_ℤ : ℤ → ℤ → Bool
gt_ℤ (pos a) (pos b) = ltb b a
gt_ℤ (pos a) (negsuc b) = true
gt_ℤ (negsuc a) (pos b) = false
gt_ℤ (negsuc a) (negsuc b) = ltb a b

-- The `switch` over the LSB status codes 0 to 4, and its `default`.
status_exitcode : ℤ → ℤ
status_exitcode rc =
    if eq_ℤ rc (pos 0)
    then ocf_ok
    else if eq_ℤ rc (pos 1) || eq_ℤ rc (pos 2) || eq_ℤ rc (pos 3)
    then ocf_not_running
    else ocf_unknown_error

unfoldable pub pe_resource_ocf_exitcode_get : String → String → ℤ → ℤ
unfolding status_exitcode
pe_resource_ocf_exitcode_get rclass method lsb_exitcode =
    if strcmp_eq rclass "lsb" && strcmp_eq "monitor" method
    then status_exitcode lsb_exitcode
    else if gt_ℤ lsb_exitcode (pos 7)
    then ocf_unknown_error
    else lsb_exitcode

unfoldable pub pe_resource_is_hard_error : ℤ → Bool
pe_resource_is_hard_error ec =
    eq_ℤ ec ocf_invalid_param
    || eq_ℤ ec ocf_unimplement_feature
    || eq_ℤ ec ocf_insufficient_priv
    || eq_ℤ ec ocf_not_installed
    || eq_ℤ ec ocf_not_configured

abbrev pub ocf_reasons : List String
ocf_reasons =
    "OK" ∷ "unknown error" ∷ "invalid paramter" ∷ "unimplemented feature" ∷ "insufficient privliges"
    ∷ "not installed" ∷ "not configured" ∷ "not running" ∷ "already running on the master"
    ∷ "failed on the master" ∷ []

-- A read of the array: nothing, where the index lies outside.
abbrev reason_at : ℤ → Option String
reason_at (pos n) = get_elem? ocf_reasons n
reason_at (negsuc n) = none

unfoldable pub pe_resource_reason_get : ℤ → Option String
pe_resource_reason_get exitcode =
    if eq_ℤ exitcode ocf_pending
    then some "Operation pending"
    else if gt_ℤ ocf_ok exitcode || gt_ℤ exitcode ocf_failed_master
    then some "Unknown Error"
    else reason_at exitcode
