-- ===== src/Matahari/Beats.antt =====
-- Which heartbeats make a node fail.
use pacemaker_cloud.Common.{
  ℕ, suc, ◌+◌, ◌%◌, ◌≡◌, refl, sym, ap, ◌∙◌, true, false, Option, none, some, List, [], ◌∷◌, ltb,
  u32_mod, Bool-cases, inl, inr, if_false, if◌then◌else◌,
}
use pacemaker_cloud.Recover.{RecoverState, running, failed}
use pacemaker_cloud.Matahari.{Matahari, is_ok, heartbeat_recv, check_state, host_event}

abbrev pub one_more : Option ℕ → Option ℕ
one_more none = none
one_more (some n) = some (suc n)

abbrev if_failed : Option RecoverState → Option ℕ → Option ℕ
if_failed none rest = one_more rest
if_failed (some state) rest = some 0

-- A running node receives heartbeats, none of them late, until it is set to failed: how many came
-- before the one at which it was, if it was.
unfoldable pub fails_at : List ℕ → Matahari → Option ℕ
fails_at [] m = none
fails_at (sequence ∷ beats) m =
    let r = host_event running sequence false false m in
    let rest = fails_at beats r.0 in if_failed r.1 rest

-- The first heartbeat whose number is beyond the successor of the one before, as 32-bit numbers.
unfoldable pub first_gap : ℕ → List ℕ → Option ℕ
first_gap last [] = none
first_gap last (sequence ∷ beats) =
    let rest = first_gap sequence beats in
    if ltb ((last + 1) % u32_mod) sequence then some 0 else one_more rest

abbrev after : List ℕ → Matahari × Option RecoverState → Option ℕ
after beats r = if_failed r.1 (fails_at beats r.0)

gap_fails :
    (sequence : ℕ) (m : Matahari)
    → is_ok m.hb_state ≡ true
    → ltb ((m.last_sequence + 1) % u32_mod) sequence ≡ true
    → (host_event running sequence false false m).1 ≡ some failed
unfolding host_event heartbeat_recv check_state
gap_fails sequence m good gap = rw (good, gap) refl

next_counts :
    (sequence : ℕ) (m : Matahari)
    → is_ok m.hb_state ≡ true
    → ltb ((m.last_sequence + 1) % u32_mod) sequence ≡ false
    → host_event running sequence false false m ≡ (record m { last_sequence = sequence }, none)
unfolding host_event heartbeat_recv check_state
next_counts sequence m good next = rw (good, next, good) refl

-- A running node that receives its heartbeats in time is set to failed at the first one that leaves a
-- gap after the number before it, and not before. Heartbeats that are repeated, or that come in
-- another order, are no gap by themselves; the number before them is then theirs.
pub fails_at-first_gap :
    (beats : List ℕ) (m : Matahari)
    → is_ok m.hb_state ≡ true
    → fails_at beats m ≡ first_gap m.last_sequence beats
unfolding fails_at first_gap
fails_at-first_gap [] m good = refl
fails_at-first_gap (sequence ∷ beats) m good =
    elim (Bool-cases (ltb ((m.last_sequence + 1) % u32_mod) sequence)) [
      | inl gap ↦ rw (fails_at, gap_fails sequence m good gap, first_gap, gap) refl
      | inr next ↦
          ap (after beats) (next_counts sequence m good next)
          ∙ ap one_more (fails_at-first_gap beats (record m { last_sequence = sequence }) good)
          ∙ sym (if_false _ (some 0) (one_more (first_gap sequence beats)) next)
    ]
