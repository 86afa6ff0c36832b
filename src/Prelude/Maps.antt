-- ===== src/Prelude/Maps.antt =====
-- A map as the function that its look-ups compute, and the casts to unsigned C integers.
use Prim.Native.Nat.{ℕ, ◌%◌, ◌^◌}
use mathlib.Core.Path.{◌≡◌, refl, subst}
use mathlib.Core.Logic.{◌≢◌}
use mathlib.Core.Option.{Option, none, some}
use native.Mathlib.Omega.{arith}
use libpaxos.Prelude.Tests.{◌==◌, if◌then◌else◌}

-- (uint16_t) n and (uint32_t) n
abbrev pub u16 : ℕ → ℕ
u16 n = n % 2 ^ 16

abbrev pub u32 : ℕ → ℕ
u32 n = n % 2 ^ 32

module _ {ℓ} {V : Type ℓ} where
  abbrev pub update : (ℕ → Option V) → ℕ → Option V → ℕ → Option V
  update m k o j = if k == j then o else m j

  pub update-eq : (m : ℕ → Option V) (k j : ℕ) (o : Option V) → k ≡ j → update m k o j ≡ o
  update-eq m k j o e = ground arith

  pub update-ne : (m : ℕ → Option V) (k j : ℕ) (o : Option V) → k ≢ j → update m k o j ≡ m j
  update-ne m k j o ne = ground arith

-- What holds of a result, if there is one.
abbrev pub Ensures {ℓ κ} : {A : Type ℓ} → (A → Type κ) → Option A → Type κ
Ensures Q none = Unit
Ensures Q (some a) = Q a

pub Ensures-some {ℓ κ} :
    {A : Type ℓ} (Q : A → Type κ) (o : Option A) (a : A) → Ensures Q o → o ≡ some a → Q a
Ensures-some Q o a h e = subst (Ensures Q) e h

-- A step that may fault, and what follows it.
infixl 5 ◌>>=◌
abbrev pub ◌>>=◌ {ℓ κ} : {A : Type ℓ} {B : Type κ} → Option A → (A → Option B) → Option B
none >>= f = none
some a >>= f = f a

pub Ensures->>= {ℓ κ μ ν} :
    {A : Type ℓ} {B : Type κ} (Q : A → Type μ) (R : B → Type ν) (m : Option A) (f : A → Option B)
    → Ensures Q m
    → ((a : A) → Q a → Ensures R (f a))
    → Ensures R (m >>= f)
Ensures->>= Q R none f h k = tt
Ensures->>= Q R (some a) f h k = k a h

-- A chain that gives a result has one at every step.
pub some->>= {ℓ κ} :
    {A : Type ℓ} {B : Type κ} (m : Option A) (f : A → Option B) (b : B)
    → (m >>= f) ≡ some b
    → (a : A) × (m ≡ some a) × (f a ≡ some b)
some->>= none f b e = cc
some->>= (some a) f b e = (a, refl, e)
