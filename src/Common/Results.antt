-- ===== src/Common/Results.antt =====
-- What a C function can end in besides its result: the process is lost at a failed `assert`, at a
-- null pointer that is read through, at memory that was freed or never written, or at a buffer that is
-- too small.
use mathlib.Core.Option.{Option, none, some}
use mathlib.Core.Path.{◌≡◌, refl}

pub data Fault : Type 0 where
  assert_failed null_pointer use_after_free double_free uninitialised_read buffer_overflow : Fault

pub data Result {ℓ} (A : Type ℓ) : Type ℓ where
  ok : A → Result A
  fault : Fault → Result A

infixl 5 ◌>>=◌
abbrev pub ◌>>=◌ {ℓ κ} : {A : Type ℓ} {B : Type κ} → Result A → (A → Result B) → Result B
ok value >>= next = next value
fault why >>= next = fault why

-- A predicate on what a call returns; a call that ends the process satisfies any.
abbrev pub After {ℓ κ} : {A : Type ℓ} → (A → Type κ) → Result A → Type κ
After P (ok value) = P value
After P (fault why) = Unit

pub After->>= {ℓ κ μ ν} :
    {A : Type ℓ} {B : Type κ} (P : A → Type μ) (Q : B → Type ν) (m : Result A) (f : A → Result B)
    → After P m
    → ((a : A) → P a → After Q (f a))
    → After Q (m >>= f)
After->>= P Q (ok value) f h next = next value h
After->>= P Q (fault why) f h next = tt

pub After-any {ℓ} : {A : Type ℓ} (m : Result A) → After (λ a. Unit {0}) m
After-any (ok value) = tt
After-any (fault why) = tt

pub After-option {ℓ κ μ} :
    {A : Type ℓ} {B : Type κ} (P : B → Type μ) (x : Option A) (m : Result B) (f : A → Result B)
    → After P m
    → ((a : A) → After P (f a))
    → After P (elim x [ none ↦ m | some a ↦ f a ])
After-option P none m f h next = h
After-option P (some a) m f h next = next a

-- A step whose result may be anything.
pub After-step {ℓ κ μ} :
    {A : Type ℓ} {B : Type κ} (P : B → Type μ) (m : Result A) (f : A → Result B)
    → ((a : A) → After P (f a))
    → After P (m >>= f)
After-step P (ok a) f next = next a
After-step P (fault why) f next = tt

pub After-weaken {ℓ κ μ} :
    {A : Type ℓ} (P : A → Type κ) (Q : A → Type μ) (m : Result A)
    → ((a : A) → P a → Q a)
    → After P m
    → After Q m
After-weaken P Q (ok a) f h = f a h
After-weaken P Q (fault why) f h = tt

-- What follows a chain of calls goes on with the value that the chain ends with.
pub chained {ℓ κ μ} :
    {A : Type ℓ} {B : Type κ} {C : Type μ} (m : Result A) (f : A → Result B) (g : B → Result C)
    {b : B}
    → (m >>= f) ≡ ok b
    → (m >>= λ a. f a >>= g) ≡ g b
chained (ok a) f g e = rw e refl
chained (fault why) f g e = absurd cc
