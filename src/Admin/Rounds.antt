-- ===== src/Admin/Rounds.antt =====
-- When the sending of an event ends.
use pacemaker_cloud.Common.{
  ℕ, zero, suc, ◌+◌, ◌*◌, ◌%◌, ◌<◌, ◌≡◌, ◌≢◌, refl, sym, ap, ◌∙◌, List, [], ◌++◌, pos, ◌==◌, ==_iff,
  arith, Bool-cases, inl, inr,
}
use mathlib.Core.List.{append_assoc, append-nil}
use native.Mathlib.Nat.{mul-mod_left}
use pacemaker_cloud.Admin.{sent, spinning, retry_send, event_spammer, take}

multiple_mod : (i k len : ℕ) → i * k ≡ len → len % k ≡ 0
multiple_mod i k len e = rw (← e) (mul-mod_left i k)

spins_from :
    (k len : ℕ) (bytes : List ℕ)
    → len % k ≢ 0
    → (fuel round i processed : ℕ) (wire : List ℕ) → processed ≡ i * k
    → (retry_send (λ n. pos k) bytes len fuel round processed wire).0 ≡ spinning
unfolding retry_send
spins_from k len bytes h zero round i processed wire at = refl
spins_from k len bytes h (suc fuel) round i processed wire at =
    let next : processed + k ≡ suc i * k = grind arith in
    elim (Bool-cases (processed + k == len)) [
      | inl e ↦ absurd (h (multiple_mod (suc i) k len (sym next ∙ (==_iff _ _).0 e)))
      | inr e ↦ rw e (spins_from k len bytes h fuel (suc round) (suc i) _ _ next)
    ]

abbrev pub copies : ℕ → List ℕ → List ℕ
copies zero part = []
copies (suc n) part = part ++ copies n part

more_rounds : (i rest k len : ℕ) → 0 < k → (i + suc (suc rest)) * k ≡ len → i * k + k ≢ len
more_rounds i rest k len h e same =
    let longer : (i + suc (suc rest)) * k ≡ i * k + k + (k + rest * k) = grind arith in omega arith

ends_from :
    (k len : ℕ) (bytes : List ℕ)
    → 0 < k
    → (rest fuel round i processed : ℕ) (wire : List ℕ) → rest < fuel
    → processed ≡ i * k
    → (i + suc rest) * k ≡ len
    → retry_send (λ n. pos k) bytes len fuel round processed wire
      ≡ (sent, wire ++ copies (suc rest) (take k bytes))
unfolding retry_send
ends_from k len bytes h rest zero round i processed wire enough at e = absurd (omega arith)
ends_from k len bytes h zero (suc fuel) round i processed wire enough at e =
    rw ((==_iff (processed + k) len).1 (grind arith)) (rw (append-nil (take k bytes)) refl)
ends_from k len bytes h (suc rest) (suc fuel) round i processed wire enough at e =
    let next : processed + k ≡ suc i * k = grind arith in
    let part = take k bytes in
    elim (Bool-cases (processed + k == len)) [
      | inl same ↦
          absurd (more_rounds i rest k len h e (ap (λ n. n + k) (sym at) ∙ (==_iff _ _).0 same))
      | inr differ ↦ rw differ (
          ends_from k len bytes h rest fuel (suc round) (suc i) _ (wire ++ part) (omega arith) next
            (ap (λ n. n * k) (omega arith) ∙ e)
          ∙ ap (λ w. (sent, w)) (append_assoc wire part _))
    ]

-- Where every `send` takes k of the bytes, and k does not divide their number, the loop never ends,
-- however often it goes round.
pub event_spammer_spins :
    (fd k len fuel : ℕ) (bytes : List ℕ)
    → len % k ≢ 0
    → (event_spammer (pos fd) (λ n. pos k) bytes len fuel).0 ≡ spinning
unfolding event_spammer
event_spammer_spins fd k len fuel bytes h = spins_from k len bytes h fuel 0 0 0 [] (grind arith)

-- Where every `send` takes k of the bytes, at least one, and their number is k times m + 1, the loop
-- ends, for which m + 1 rounds are enough, and what is on the wire is the first k bytes m + 1 times.
pub event_spammer_ends :
    (fd k m fuel : ℕ) (bytes : List ℕ)
    → 0 < k
    → m < fuel
    → event_spammer (pos fd) (λ n. pos k) bytes (suc m * k) fuel
      ≡ (sent, copies (suc m) (take k bytes))
unfolding event_spammer
event_spammer_ends fd k m fuel bytes h enough =
    ends_from k (suc m * k) bytes h m fuel 0 0 0 [] enough (grind arith)
      (ap (λ n. n * k) (omega arith))
