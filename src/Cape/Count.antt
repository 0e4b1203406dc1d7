-- ===== src/Cape/Count.antt =====
-- Reference counts over the life of an operation: what each step adds and gives back.
use pacemaker_cloud.Common.{
  ℕ, ◌+◌, ◌-◌, ◌%◌, ◌≡◌, refl, Bool, true, false, Option, none, some, String, ℤ, ok, ◌⊎◌, inl, inr,
  arith, Bool-cases, Option-cases, if◌then◌else◌, eq_iff, strcmp_eq, u32_mod, ◌==◌, ==_self, ltb,
}
use pacemaker_cloud.Common.Map.{lookup}
use pacemaker_cloud.Recover.Outside.{Platform}
use pacemaker_cloud.Recover.Total.{IsReady, Ends}
use pacemaker_cloud.Cape.{Ref, PeOperation, Resource, Cape, find_resource, OperationHistory}
use pacemaker_cloud.Cape.Memory.{store, free_text, pe_resource_unref}
use pacemaker_cloud.Cape.History.{
  history_key, op_history_save, history_new, history_old, history_stamp,
}
use pacemaker_cloud.Cape.Monitor.{state_after, resource_state_set, action_finish, resource_of}
use pacemaker_cloud.Cape.Frame.{Kept, resource_recover_set-Kept, find_inv}

-- An operation after one reference less: freed with the last one.
abbrev pub dropped : PeOperation → Option PeOperation
dropped o =
    let n = (o.refcount + u32_mod - 1) % u32_mod in
    if n == 0 then none else some (record o { refcount = n })

-- What is left of an operation after the last part of its completion: the timer of a recurring
-- monitor keeps the reference if the result is the expected one.
abbrev pub finished : PeOperation → Bool → Option PeOperation
finished o as_expected =
    if ltb 0 o.interval then (if as_expected then some o else dropped o) else dropped o

pub store_same {ℓ} : {A : Type ℓ} (q : ℕ) (a : A) (f : ℕ → A) → store q a f q ≡ a
store_same q a f = rw (==_self q) refl

pub store_other {ℓ} :
    {A : Type ℓ} (q n : ℕ) (a : A) (f : ℕ → A) → (q == n) ≡ false → store q a f n ≡ f n
store_other q n a f h = rw h refl

-- A copy put at a free place, or over a text that is the same, leaves a text there.
store_live :
    (q n : ℕ) (s : String) (f : ℕ → Option String) → f n ≡ some s → store q (some s) f n ≡ some s
store_live q n s f e = elim (Bool-cases (q == n)) [ inl h ↦ rw h refl | inr h ↦ rw h e ]

-- Freeing a text leaves a different one alone.
pub free_other :
    (q n : ℕ) (s t : String) (f : ℕ → Option String)
    → f q ≡ some s
    → f n ≡ some t
    → strcmp_eq s t ≡ false
    → store q none f n ≡ some t
free_other q n s t f e g h = elim (Bool-cases (q == n)) [
  | inl same ↦ absurd (ground (arith, eq_iff s t))
  | inr other ↦ rw other g
]

module _ {p : Platform} where
  -- Operation q is now `here`, and the others are as they were in v.
  pub record OpIs (q : ℕ) (here : Option PeOperation) (v w : Cape p) : Type 0 where
    pub is_now : w.ops q ≡ here
    pub others : (n : ℕ) → (q == n) ≡ false → w.ops n ≡ v.ops n
    pub assemblies : w.assembly_map ≡ v.assembly_map

  -- Operation q is freed, or its digest d is still there.
  abbrev pub DigestAfter : ℕ → ℕ → Cape p → Type 0
  DigestAfter q d w = (w.ops q ≡ none) ⊎ ((s : String) × (w.texts d ≡ some s))

  pub free_text-some :
      (t : ℕ) (w : Cape p) {s : String}
      → w.texts t ≡ some s
      → free_text t w ≡ ok (record w { texts = store t none w.texts })
  unfolding free_text
  free_text-some t w e = rw (e, free_text) refl

  pub unref_ends :
      (q : ℕ) (o : PeOperation) (w : Cape p) {s : String}
      → w.ops q ≡ some o
      → w.texts o.op_digest ≡ some s
      → (w' : Cape p) × (pe_resource_unref q w ≡ ok w')
        × OpIs q (dropped o) w w'
        × DigestAfter q o.op_digest w'
  unfolding pe_resource_unref
  unref_ends q o w {s = s} e t = elim (Bool-cases ((o.refcount + u32_mod - 1) % u32_mod == 0)) [
    | inl z ↦
        rw (e, z, free_text-some o.op_digest w t)
          (
            _,
            refl,
            record {
              is_now = store_same q none w.ops;
              others = λ n h. store_other q n none w.ops h;
              assemblies = refl;
            },
            inl (store_same q none w.ops),
          )
    | inr z ↦
        rw (e, z)
          (
            _,
            refl,
            record {
              is_now = store_same q _ w.ops;
              others = λ n h. store_other q n _ w.ops h;
              assemblies = refl;
            },
            inr (s, t),
          )
  ]

  -- The digest of an operation is there, and so is that of its entry in the history.
  pub record DigestsLive (o : PeOperation) (w : Cape p) : Type 0 where
    pub mine : (s : String) × (w.texts o.op_digest ≡ some s)
    pub entry :
        (oh : OperationHistory)
        → lookup (history_key o) w.op_history_map ≡ some oh
        → (s : String) × (w.texts oh.op_digest ≡ some s)

  -- Saving an operation's result keeps operations, assemblies, engine, and the operation's digest.
  pub record Saved (o : PeOperation) (v w : Cape p) : Type 0 where
    pub ops_same : w.ops ≡ v.ops
    pub assemblies_same : w.assembly_map ≡ v.assembly_map
    pub digest_live : (s : String) × (w.texts o.op_digest ≡ some s)

  new_ends :
      (r : Option Ref) (o : PeOperation) (w : Cape p) {s : String}
      → w.texts o.op_digest ≡ some s
      → (oh : OperationHistory) × (w' : Cape p) × (history_new r o w ≡ ok (oh, w')) × Saved o w w'
  unfolding history_new
  new_ends r o w {s = s} t = rw t (
    _,
    _,
    refl,
    record {
      ops_same = refl;
      assemblies_same = refl;
      digest_live = (s, store_live w.next_text o.op_digest s w.texts t);
    },
  )

  old_ends :
      (oh : OperationHistory) (o : PeOperation) (w : Cape p) {s t : String}
      → w.texts oh.op_digest ≡ some s
      → w.texts o.op_digest ≡ some t
      → (oh' : OperationHistory) × (w' : Cape p) × (history_old oh o w ≡ ok (oh', w'))
        × Saved o w w'
  unfolding history_old
  old_ends oh o w {s = s} {t = t} e f = elim (Bool-cases (strcmp_eq s t)) [
    | inl same ↦
        rw (e, f, same)
          (oh, w, refl, record { ops_same = refl; assemblies_same = refl; digest_live = (t, f) })
    | inr diff ↦
        rw (e, f, diff, free_text-some oh.op_digest w e)
          (
            _,
            _,
            refl,
            record {
              ops_same = refl;
              assemblies_same = refl;
              digest_live = (t, free_other oh.op_digest o.op_digest s t w.texts e f diff);
            },
          )
  ]

  stamp-Saved :
      (ec : ℤ) (o : PeOperation) (oh : OperationHistory) (v w : Cape p)
      → Saved o v w
      → Saved o v (history_stamp ec o oh w)
  unfolding history_stamp
  stamp-Saved ec o oh v w k = record {
    ops_same = k.ops_same;
    assemblies_same = k.assemblies_same;
    digest_live = k.digest_live;
  }

  pub save-Ends :
      (r : Option Ref) (q : ℕ) (ec : ℤ) (o : PeOperation) (w : Cape p)
      → w.ops q ≡ some o
      → DigestsLive o w
      → Ends (Saved o w) (op_history_save r q ec w)
  unfolding op_history_save
  save-Ends r q ec o w e d = elim (Option-cases (lookup (history_key o) w.op_history_map)) [
    | inl fresh ↦
        let (oh, w', run, k) = new_ends r o w d.mine.1 in
        rw (e, fresh, run) (history_stamp ec o oh w', refl, stamp-Saved ec o oh w w' k)
    | inr (old, found) ↦
        let (oh, w', run, k) = old_ends old o w (d.entry old found).1 d.mine.1 in
        rw (e, found, run) (history_stamp ec o oh w', refl, stamp-Saved ec o oh w w' k)
  ]

  -- The operation and its resource are there, with what the completion of an operation reads.
  pub record CanComplete (q : ℕ) (o : PeOperation) (w : Cape p) : Type 0 where
    pub op_live : w.ops q ≡ some o
    pub digests : DigestsLive o w
    pub resource_there :
        (x : Resource p) × (find_resource (record { assembly = o.hostname; name = o.rname }) w
          ≡ some x)
        × IsReady p x.recover

  pub resource_of-some :
      (q : ℕ) (o : PeOperation) (w : Cape p)
      → CanComplete q o w
      → resource_of o w ≡ ok (some (record { assembly = o.hostname; name = o.rname }))
  unfolding resource_of
  resource_of-some q o w c =
      let (x, e, ready) = c.resource_there in
      let (a, f, l) = find_inv o.rname (lookup o.hostname w.assembly_map) e in rw (f, l) refl

  pub state_set-Ends :
      (r : Ref) (q : ℕ) (rc : ℤ) (o : PeOperation) (v w : Cape p)
      → w.ops q ≡ some o
      → Kept r v w
      → Ends (Kept r v) (resource_state_set (some r) q rc w)
  unfolding resource_state_set
  state_set-Ends r q rc o v w e k = elim (Option-cases (state_after o rc)) [
    | inl other ↦ rw (e, other) (w, refl, k)
    | inr (state, known) ↦ rw (e, known) (resource_recover_set-Kept r state v w k)
  ]

  pub finish_ends :
      (r : Ref) (q : ℕ) (b : Bool) (o : PeOperation) (w : Cape p) {s : String}
      → w.ops q ≡ some o
      → w.texts o.op_digest ≡ some s
      → (w' : Cape p) × (action_finish (some r) q b w ≡ ok w')
        × (w'.ops q ≡ finished o b)
        × ((n : ℕ) → (q == n) ≡ false → w'.ops n ≡ w.ops n)
        × DigestAfter q o.op_digest w'
  unfolding action_finish
  finish_ends r q true o w {s = s} e t = elim (Bool-cases (ltb 0 o.interval)) [
    | inl i ↦ rw (e, i) (_, refl, e, (λ n h. refl), inr (s, t))
    | inr i ↦
        let (w', run, k, d) = unref_ends q o w e t in rw (e, i) (w', run, k.is_now, k.others, d)
  ]
  finish_ends r q false o w e t = elim (Bool-cases (ltb 0 o.interval)) [
    | inl i ↦
        let (w', run, k, d) = unref_ends q o _ e t in rw (e, i) (w', run, k.is_now, k.others, d)
    | inr i ↦
        let (w', run, k, d) = unref_ends q o _ e t in rw (e, i) (w', run, k.is_now, k.others, d)
  ]
