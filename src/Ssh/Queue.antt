-- ===== src/Ssh/Queue.antt =====
-- The queue of commands of a transport: what holds of it, and how linking and unlinking keep it.
use pacemaker_cloud.Common.{
  ℕ, ◌+◌, ◌<◌, ◌≡◌, refl, ap, Bool, true, false, Option, some, List, [], ◌∷◌, ◌++◌, arith, ◌==◌,
  ==_self, All, All-append,
}
use pacemaker_cloud.Cape.Memory.{store}
use pacemaker_cloud.Ssh.{SshOp, remove}

abbrev pub is_empty : List ℕ → Bool
is_empty [] = true
is_empty (q ∷ qs) = false

abbrev pub Distinct : List ℕ → Type 0
Distinct [] = Unit
Distinct (q ∷ qs) = All (λ x. (x == q) ≡ false) qs × Distinct qs

-- A command in the queue: its memory is there, its timer runs, and it has not failed.
abbrev pub IsQueued : {D : Type 0} → (ℕ → Option (SshOp D)) → ℕ → ℕ → Type 0
IsQueued {D} ops next q =
    (o : SshOp D) × (ops q ≡ some o) × (o.timer ≡ true) × (o.failed ≡ false) × (q < next)

pub remove-head : (q : ℕ) (qs : List ℕ) → All (λ x. (x == q) ≡ false) qs → remove q (q ∷ qs) ≡ qs
remove-head q qs h = rw (==_self q) (remove-none q qs h)
  where
    remove-none : (q : ℕ) (qs : List ℕ) → All (λ x. (x == q) ≡ false) qs → remove q qs ≡ qs
    remove-none q [] h = refl
    remove-none q (x ∷ xs) h = rw h.0 (ap (◌∷◌ x) (remove-none q xs h.1))

ne_of_lt : (a b : ℕ) → a < b → (b == a) ≡ false
ne_of_lt a b h = ground arith

ne_of_lt' : (a b : ℕ) → a < b → (a == b) ≡ false
ne_of_lt' a b h = ground arith

module _ {D : Type 0} (ops : ℕ → Option (SshOp D)) (next : ℕ) where
  -- Commands that are queued stay so when a command is written at a new place.
  pub All-store_new :
      (o : SshOp D) (qs : List ℕ)
      → All (IsQueued ops next) qs
      → All (IsQueued (store next (some o) ops) (next + 1)) qs
  All-store_new o [] h = tt
  All-store_new o (q ∷ qs) ((c, at, timer, failed, lt), rest) =
      ((c, rw (ne_of_lt q next lt) at, timer, failed, omega arith), All-store_new o qs rest)

  -- So they do when another command is changed.
  pub All-store_other :
      (p : ℕ) (c : Option (SshOp D)) (qs : List ℕ)
      → All (λ x. (x == p) ≡ false) qs
      → All (IsQueued ops next) qs
      → All (IsQueued (store p c ops) next) qs
  All-store_other p c [] d h = tt
  All-store_other p c (q ∷ qs) d ((o, at, timer, failed, lt), rest) =
      ((o, rw (swap_ne q p d.0) at, timer, failed, lt), All-store_other p c qs d.1 rest)
    where
      swap_ne : (a b : ℕ) → (a == b) ≡ false → (b == a) ≡ false
      swap_ne a b h = ground arith

  pub Distinct-append_new :
      (qs : List ℕ) → All (IsQueued ops next) qs → Distinct qs → Distinct (qs ++ next ∷ [])
  Distinct-append_new [] h d = (tt, tt)
  Distinct-append_new (q ∷ qs) ((c, at, timer, failed, lt), rest) (ne, d) = (
    All-append (λ x. (x == q) ≡ false) qs (next ∷ []) ne (ne_of_lt q next lt, tt),
    Distinct-append_new qs rest d,
  )
