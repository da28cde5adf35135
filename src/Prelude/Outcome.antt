-- ===== src/Prelude/Outcome.antt =====
-- The outcome of a Go function: a value, an error, or a run-time panic (an index or slice out of
-- range). The errors are the sentinels of storage/errors.go and internal/encoding/crc.go.
use mathlib.Core.Bool.{Bool, true, false}
use mathlib.Core.Path.{◌≡◌, refl}

pub data Error : Type 0 where
  checksum corrupt_footer bad_magic type_mismatch column_complete row_group_open : Error
  missing_columns index_out_of_range unexpected_eof eof canceled unsupported_type no_sort_keys :
      Error

pub data Result {ℓ} (A : Type ℓ) : Type ℓ where
  ok : A → Result A
  err : Error → Result A
  panic : Result A

infixl 5 ◌>>=◌
abbrev pub ◌>>=◌ {ℓ κ} : {A : Type ℓ} {B : Type κ} → Result A → (A → Result B) → Result B
ok a >>= f = f a
err e >>= f = err e
panic >>= f = panic

-- `if cond { return err }`
abbrev pub reject_if {ℓ} : {A : Type ℓ} → Bool → Error → Result A → Result A
reject_if true e r = err e
reject_if false e r = r

-- A value or an error, never a panic; `P` holds of the value.
abbrev pub Safe {ℓ} : {A : Type ℓ} → (A → Type 0) → Result A → Type 0
Safe P (ok a) = P a
Safe P (err e) = Unit
Safe P panic = ⊥

pub Safe-bind {ℓ κ} :
    {A : Type ℓ} {B : Type κ} (P : A → Type 0) (Q : B → Type 0) (r : Result A) (f : A → Result B)
    → Safe P r
    → ((a : A) → P a → Safe Q (f a))
    → Safe Q (r >>= f)
Safe-bind P Q (ok a) f h k = k a h
Safe-bind P Q (err e) f h k = tt
Safe-bind P Q panic f h k = h

pub Safe-reject_if {ℓ} :
    {A : Type ℓ} (P : A → Type 0) (t : Bool) (e : Error) (r : Result A)
    → (t ≡ false → Safe P r)
    → Safe P (reject_if t e r)
Safe-reject_if P true e r h = tt
Safe-reject_if P false e r h = h refl
