-- ===== src/Prelude/Maps.antt =====
-- Hash maps keyed by handles, of which the modelled code never enumerates the keys: as functions.
use Prim.Native.Nat.{ℕ}
use mathlib.Core.Path.{◌≡◌, refl}
use mathlib.Core.Logic.{◌≢◌, ◌⊎◌}
use mathlib.Core.Bool.{false}
use mathlib.Core.Option.{Option}
use native.Mathlib.Omega.{arith}
use rnetlib.Prelude.Tests.{◌==◌, ==_refl, if◌then◌else◌}

abbrev pub Map {ℓ} : Type ℓ → Type ℓ
Map A = ℕ → Option A

abbrev pub put {ℓ} : {A : Type ℓ} → Map A → ℕ → Option A → Map A
put m key value = λ k. if k == key then value else m k

pub put_self {ℓ} :
    {A : Type ℓ} (m : Map A) (key : ℕ) (value : Option A) → put m key value key ≡ value
put_self m key value = rw (==_refl key) refl

pub neq-test : (k key : ℕ) → k ≢ key → (k == key) ≡ false
neq-test k key ne = ground arith

pub same-or-not : (a b : ℕ) → (a ≡ b) ⊎ (a ≢ b)
same-or-not a b = ground arith

pub put_other {ℓ} :
    {A : Type ℓ} (m : Map A) (key : ℕ) (value : Option A) (k : ℕ)
    → k ≢ key
    → put m key value k ≡ m k
put_other m key value k ne = rw (neq-test k key ne) refl
