-- ===== src/Qmf/Counts.antt =====
-- How many timers and outstanding calls hold a request, and the references that it counts.
use pacemaker_cloud.Common.{
  ℕ, ◌+◌, ◌-◌, ◌%◌, ◌≤◌, ◌≡◌, refl, sym, ◌∙◌, subst, if_true, if_false, false, Option, none, some,
  List, [], ◌∷◌, ◌++◌, ◌==◌, ==_self, ==_iff, u32_mod, arith, Bool-cases, inl, inr, ◌>>=◌,
  if◌then◌else◌,
}
use pacemaker_cloud.Recover.Total.{Ends}
use pacemaker_cloud.Cape.Memory.{store}
use pacemaker_cloud.Qmf.{
  QmfAsyncRequest, RpcResult, Calls, Qmf, take_out, get_call, erase_call, set_call, unref_request,
  method_response, respond,
}

abbrev pub one : ℕ → ℕ → ℕ
one r q = if r == q then 1 else 0

unfoldable pub count : ℕ → List ℕ → ℕ
count q [] = 0
count q (r ∷ rs) = one r q + count q rs

abbrev pub entry : ℕ → Option ℕ → ℕ
entry q none = 0
entry q (some r) = one r q

unfoldable pub calls_of : ℕ → Calls → ℕ
calls_of q [] = 0
calls_of q (call ∷ calls) = entry q call.1 + calls_of q calls

-- How many of them hold request q.
abbrev pub uses : List ℕ → Calls → ℕ → ℕ
uses timers calls q = count q timers + calls_of q calls

pub count-snoc : (q r : ℕ) (rs : List ℕ) → count q (rs ++ r ∷ []) ≡ count q rs + one r q
unfolding count
count-snoc q r [] = omega arith
count-snoc q r (x ∷ rs) = omega (arith, count-snoc q r rs)

pub count-take_out :
    (q r : ℕ) (rs : List ℕ) → 1 ≤ count r rs → count q (take_out r rs) + one r q ≡ count q rs
unfolding count
count-take_out q r [] h = absurd (omega arith)
count-take_out q r (x ∷ rs) h = elim (Bool-cases (x == r)) [
  | inl e ↦ ground arith
  | inr e ↦ let rest = count-take_out q r rs (ground arith) in rw e (omega arith)
]

pub calls-erase : (q cid : ℕ) (calls : Calls) → calls_of q (erase_call cid calls) ≤ calls_of q calls
unfolding calls_of
calls-erase q cid [] = omega arith
calls-erase q cid (call ∷ calls) = elim (Bool-cases (call.0 == cid)) [
  | inl e ↦ rw e (omega (arith, calls-erase q cid calls))
  | inr e ↦ rw e (omega (arith, calls-erase q cid calls))
]

pub calls-answered :
    (q cid : ℕ) (calls : Calls) {r : ℕ}
    → get_call cid calls ≡ some r
    → calls_of q (erase_call cid calls) + one r q ≤ calls_of q calls
unfolding calls_of
calls-answered q cid [] e = absurd cc
calls-answered q cid (call ∷ calls) {r} e = elim (Bool-cases (call.0 == cid)) [
  | inl h ↦
      let found : call.1 ≡ some r = sym (if_true _ call.1 (get_call cid calls) h) ∙ e in
      rw (h, found) (omega (arith, calls-erase q cid calls))
  | inr h ↦
      let rest = calls-answered q cid calls (sym (if_false _ call.1 (get_call cid calls) h) ∙ e) in
      rw h (omega arith)
]

-- A request in memory counts at least as many references, and at most two.
abbrev pub Counted : Option QmfAsyncRequest → ℕ → Type 0
Counted none n = n ≡ 0
Counted (some a) n = (n ≤ a.ref_count) × (a.ref_count ≤ 2)

pub Counted-less : (a : Option QmfAsyncRequest) (m n : ℕ) → m ≤ n → Counted a n → Counted a m
Counted-less none m n h e = omega arith
Counted-less (some a) m n h (k, b) = (omega arith, b)

-- What each place of the memory counts is at least m.
abbrev pub Held : (ℕ → ℕ) → (ℕ → Option QmfAsyncRequest) → Type 0
Held m f = (q : ℕ) → Counted (f q) (m q)

pub Held-store :
    (m n : ℕ → ℕ) (r : ℕ) (a : Option QmfAsyncRequest) (f : ℕ → Option QmfAsyncRequest)
    → Held m f
    → Counted a (n r)
    → ((q : ℕ) → (r == q) ≡ false → n q ≤ m q)
    → Held n (store r a f)
Held-store m n r a f h k less q = elim (Bool-cases (r == q)) [
  | inl e ↦
      let same : r ≡ q = (==_iff r q).0 e in
      subst (λ q. Counted (store r a f q) (n q)) same (rw (==_self r) k)
  | inr e ↦ rw e (Counted-less (f q) (n q) (m q) (less q e) (h q))
]

pub live_request :
    (a : Option QmfAsyncRequest) (n : ℕ)
    → Counted a n
    → 1 ≤ n
    → (b : QmfAsyncRequest) × (a ≡ some b)
live_request none n h k = absurd (omega arith)
live_request (some b) n h k = (b, refl)

-- The parts of the state that a request's own functions leave alone; what is free stays free.
pub record KeptBy (v w : Qmf) : Type 0 where
  pub connected_same : w.connected ≡ v.connected
  pub agent_same : w.has_agent ≡ v.has_agent
  pub pending_same : w.pending_jobs ≡ v.pending_jobs
  pub calls_same : w.outstanding_calls ≡ v.outstanding_calls
  pub timers_same : w.timers ≡ v.timers
  pub next_same : w.next_request ≡ v.next_request
  pub free_same : (q : ℕ) → v.requests q ≡ none → w.requests q ≡ none

kept_store :
    (r : ℕ) (x : Option QmfAsyncRequest) (told : List (ℕ × RpcResult)) (w : Qmf)
    {a : QmfAsyncRequest}
    → w.requests r ≡ some a
    → KeptBy w (record w { requests = store r x w.requests; responses = told })
kept_store r x told w e = record {
  connected_same = refl;
  agent_same = refl;
  pending_same = refl;
  calls_same = refl;
  timers_same = refl;
  next_same = refl;
  free_same = λ q free. elim (Bool-cases (r == q)) [
    | inl h ↦ let same : r ≡ q = (==_iff r q).0 h in absurd (ground arith)
    | inr h ↦ rw h free
  ];
}

-- One reference less is counted after `unref`.
pub unref_Held :
    (m : ℕ → ℕ) (r : ℕ) (w : Qmf)
    → Held (λ q. m q + one r q) w.requests
    → Ends (λ w'. Held m w'.requests × KeptBy w w') (unref_request r w)
unfolding unref_request
unref_Held m r w h =
    let here : one r r ≡ 1 = rw (==_self r) refl in
    let (a, e) = live_request (w.requests r) (m r + one r r) (h r) (omega arith) in
    let (few, two) = rw e at (h r) in
    let n = (a.ref_count + u32_mod - 1) % u32_mod in
    let less : n ≡ a.ref_count - 1 = omega arith in
    let others : (q : ℕ) → (r == q) ≡ false → m q ≤ m q + one r q = λ q d. omega arith in
    elim (Bool-cases (n == 0)) [
      | inl z ↦
          let last : n ≡ 0 = (==_iff n 0).0 z in
          rw (e, z)
            (
              _,
              refl,
              (Held-store _ m r none w.requests h (omega arith) others, kept_store r none _ w e),
            )
      | inr z ↦
          rw (e, z)
            (
              _,
              refl,
              (
                Held-store _ m r _ w.requests h (omega arith, omega arith) others,
                kept_store r _ _ w e,
              ),
            )
    ]

-- A response leaves the counts alone.
pub response_Held :
    (m : ℕ → ℕ) (r : ℕ) (rc : RpcResult) (w : Qmf)
    → Held m w.requests
    → 1 ≤ m r
    → Ends (λ w'. Held m w'.requests × KeptBy w w') (method_response r rc w)
unfolding method_response
response_Held m r rc w h k =
    let (a, e) = live_request (w.requests r) (m r) (h r) k in
    rw e (
      _,
      refl,
      (Held-store m m r _ w.requests h (rw e at (h r)) (λ q _. omega arith), kept_store r _ _ w e),
    )

pub calls-set :
    (q cid r : ℕ) (calls : Calls)
    → calls_of q (set_call cid (some r) calls) ≤ one r q + calls_of q calls
unfolding calls_of
calls-set q cid r calls = omega (arith, calls-erase q cid calls)

pub same_KeptBy : (w : Qmf) → KeptBy w w
same_KeptBy w = record {
  connected_same = refl;
  agent_same = refl;
  pending_same = refl;
  calls_same = refl;
  timers_same = refl;
  next_same = refl;
  free_same = λ q h. h;
}

pub KeptBy-trans : (u v w : Qmf) → KeptBy u v → KeptBy v w → KeptBy u w
KeptBy-trans u v w j k = record {
  connected_same = k.connected_same ∙ j.connected_same;
  agent_same = k.agent_same ∙ j.agent_same;
  pending_same = k.pending_same ∙ j.pending_same;
  calls_same = k.calls_same ∙ j.calls_same;
  timers_same = k.timers_same ∙ j.timers_same;
  next_same = k.next_same ∙ j.next_same;
  free_same = λ q h. k.free_same q (j.free_same q h);
}

-- A response, or none, and then one reference less.
pub settle_Held :
    (m : ℕ → ℕ) (r : ℕ) (told : Option RpcResult) (w : Qmf)
    → Held (λ q. m q + one r q) w.requests
    → Ends (λ w'. Held m w'.requests × KeptBy w w') (respond r told w >>= unref_request r)
settle_Held m r none w h = unref_Held m r w h
settle_Held m r (some rc) w h =
    let here : one r r ≡ 1 = rw (==_self r) refl in
    let (w₁, run₁, (h₁, k₁)) = response_Held (λ q. m q + one r q) r rc w h (omega arith) in
    let (w₂, run₂, (h₂, k₂)) = unref_Held m r w₁ h₁ in
    rw run₁ (w₂, run₂, (h₂, KeptBy-trans w w₁ w₂ k₁ k₂))
