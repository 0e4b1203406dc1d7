-- ===== src/Recover/Init.antt =====
-- `recover_init` of src/recover.c: the limits read from the configuration, and the stopwatch.
use pacemaker_cloud.Common.{
  ℕ, ◌&&◌, ◌||◌, not, Option, none, some, String, ℤ, pos, negsuc, minus_one, eq_ℤ, is_zero, to_i32,
  ◌==◌, if◌then◌else◌,
}
use pacemaker_cloud.Common.Text.{codes, strtol, long_max, erange}
use pacemaker_cloud.Recover.Outside.{Platform}
use pacemaker_cloud.Recover.{unknown, Recover, measured, nat}

-- A limit, and `errno`, which is not cleared before `strtol` is called. -1 is "no limit".
unfoldable pub limit_of : ℕ → Option String → ℤ × ℕ
limit_of errno none = (minus_one, errno)
limit_of errno (some s) =
    let r = strtol errno (codes s) in
    (
      if (r.errno == erange && (eq_ℤ r.val (pos long_max) || eq_ℤ r.val (negsuc long_max)))
            || (not (r.errno == 0) && is_zero r.val)
            || r.no_digits
          then minus_one
          else to_i32 r.val,
      r.errno,
    )

module _ (p : Platform) where
  unfoldable pub initial : ℕ → ℤ → ℤ → Recover p
  initial now failures period =
      let r : Recover p = record {
        state = unknown;
        num_failures = failures;
        failure_period = period;
        sw = none;
      } in
      if measured p r then record r { sw = some (p.split_ctl (nat failures) (p.create now)) } else r

  unfoldable pub recover_init : ℕ → ℕ → Option String → Option String → Recover p × ℕ
  unfolding initial
  recover_init now errno escalation_failures escalation_period =
      let (failures, errno₁) = limit_of errno escalation_failures in
      let (period, errno₂) = limit_of errno₁ escalation_period in
      (initial now failures period, errno₂)
