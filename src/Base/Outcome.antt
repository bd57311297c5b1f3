-- ===== src/Base/Outcome.antt =====
-- The library's error codes (enum Elf_Error in libelf.h), and the results of fallible routines.
use Prim.Native.Nat.{ℕ}
use mathlib.Core.Path.{◌≡◌, refl}
use mathlib.Core.Bool.{Bool, false}
use elftoolchain_libelf.Base.Tests.{if◌then◌else◌, Bool-cases}
use mathlib.Core.Logic.{inl, inr, ◌≢◌}
use native.Mathlib.Omega.{arith}

-- The codes that `LIBELF_SET_ERROR` sets. A code that is set together with `errno` carries it. A failure
-- that sets no code is `unset`.
pub data ErrorCode : Type 0 where
  archive argument class data_error header layout mode range section sequence : ErrorCode
  unimpl version unset : ErrorCode
  io resource : ℕ → ErrorCode

-- `ok` is a success. `err` is a failure that has set an error code. `fault` is what C leaves
-- undefined: an access outside the object that a pointer came from, or a false `assert`.
pub data Result {ℓ} (A : Type ℓ) : Type ℓ where
  ok : A → Result A
  err : ErrorCode → Result A
  fault : Result A

infixl 5 ◌>>=◌ ◌>>◌
abbrev pub ◌>>=◌ {ℓ κ} : {A : Type ℓ} {B : Type κ} → Result A → (A → Result B) → Result B
ok a >>= f = f a
err e >>= f = err e
fault >>= f = fault

abbrev pub ◌>>◌ {ℓ} : {B : Type ℓ} → Result (Unit {0}) → Result B → Result B
m >> k = m >>= λ _. k

-- What `malloc` answers: memory, or NULL with an `errno`. Its choice is the environment's.
pub data Malloc : Type 0 where
  granted : Malloc
  denied : ℕ → Malloc

pub bind-ok {ℓ κ} :
    {A : Type ℓ} {B : Type κ} (m : Result A) {f : A → Result B} {b : B}
    → (m >>= f) ≡ ok b
    → (a : A) × (m ≡ ok a) × (f a ≡ ok b)
bind-ok (ok a) h = (a, refl, h)
bind-ok (err e) h = ground arith
bind-ok fault h = ground arith

-- A routine that succeeds has passed its guard.
pub guard-ok {ℓ} :
    {A : Type ℓ} (t : Bool) (e : ErrorCode) {m : Result A} {a : A}
    → (if t then err e else m) ≡ ok a
    → (t ≡ false) × (m ≡ ok a)
guard-ok t e h = elim (Bool-cases t) [
  | inl fails ↦ ground (arith, h, fails)
  | inr passes ↦ (passes, ground (arith, h, passes))
]

-- A routine that does nothing undefined.
abbrev pub IsSafe {ℓ} : {A : Type ℓ} → Result A → Type ℓ
IsSafe m = m ≢ fault

pub bind-IsSafe {ℓ κ} :
    {A : Type ℓ} {B : Type κ} (m : Result A) {f : A → Result B}
    → IsSafe m
    → ((a : A) → m ≡ ok a → IsSafe (f a))
    → IsSafe (m >>= f)
bind-IsSafe (ok a) safe rest = rest a refl
bind-IsSafe (err e) safe rest = λ h. ground (arith, h)
bind-IsSafe fault safe rest = absurd (safe refl)

pub guard-IsSafe {ℓ} :
    {A : Type ℓ} (t : Bool) (e : ErrorCode) {m : Result A}
    → (t ≡ false → IsSafe m)
    → IsSafe (if t then err e else m)
guard-IsSafe t e safe = elim (Bool-cases t) [
  | inl fails ↦ λ h. ground (arith, h, fails)
  | inr passes ↦ λ h. safe passes (ground (arith, h, passes))
]

pub ok-IsSafe {ℓ} : {A : Type ℓ} {m : Result A} {a : A} → m ≡ ok a → IsSafe m
ok-IsSafe e = λ h. ground (arith, e, h)
