-- ===== src/Cpm/Exec.antt =====
-- src/cpm-filesystem.ts: the state of a `CpmFilesystem`, and its methods as functions that give
-- back the state beside the result. What was written before a throw stays written.
use bitsby.Prelude.{ℕ, Bool, List, ◌≡◌}
use bitsby.Cpm.Layout.{CpmDiskParams}

-- One constructor for each `throw new Error(...)`.
pub data CpmError : Type 0 where
  sector_read_out_of_bounds : CpmError
  sector_data_length : CpmError
  sector_write_out_of_bounds : CpmError
  block_data_length : CpmError
  file_not_found : CpmError
  directory_full : CpmError
  disk_full : CpmError

pub data Result {ℓ} (A : Type ℓ) : Type ℓ where
  ok : A → Result A
  err : CpmError → Result A

-- The class `CpmFilesystem`.
pub record CpmFilesystem : Type 0 where
  pub image_data : List ℕ
  pub params : CpmDiskParams
  pub use_large_pointers : Bool

-- A method that may write.
abbrev pub Exec : Type 0 → Type 0
Exec A = CpmFilesystem → Result A × CpmFilesystem

-- A method that only reads.
abbrev pub Reader : Type 0 → Type 0
Reader A = CpmFilesystem → Result A

abbrev pub bind {ℓ κ} : {A : Type ℓ} {B : Type κ} → Result A → (A → Result B) → Result B
bind (ok a) f = f a
bind (err e) f = err e

abbrev continue : {A B : Type 0} → Result A → (A → Exec B) → Exec B
continue (ok a) f s = f a s
continue (err e) f s = (err e, s)

infixl 5 ◌>>=◌ ◌>>◌
abbrev pub ◌>>=◌ : {A B : Type 0} → Exec A → (A → Exec B) → Exec B
◌>>=◌ m f s = let (r, s') = m s in continue r f s'

abbrev pub ◌>>◌ : {A : Type 0} → Exec (Unit {0}) → Exec A → Exec A
m >> n = m >>= λ _. n

abbrev pub pure : {A : Type 0} → A → Exec A
pure a s = (ok a, s)

abbrev pub throw : {A : Type 0} → CpmError → Exec A
throw e s = (err e, s)

abbrev pub asks : {A : Type 0} → Reader A → Exec A
asks f s = (f s, s)

abbrev pub gets : {A : Type 0} → (CpmFilesystem → A) → Exec A
gets f s = (ok (f s), s)

-- `try { m } catch {}`
abbrev pub attempt : {A : Type 0} → Exec A → Exec (Unit {0})
attempt m s = let (r, s') = m s in (ok tt, s')

-- After a step that did not throw, the rest runs from the state that it left.
pub seq-ok :
    {A : Type 0} (m : Exec (Unit {0})) (n : Exec A) (s : CpmFilesystem)
    → (m s).0 ≡ ok tt
    → (m >> n) s ≡ n (m s).1
seq-ok m n s e = rw e

pub bind-ok :
    {A B : Type 0} (m : Exec A) (f : A → Exec B) (s : CpmFilesystem) (a : A)
    → (m s).0 ≡ ok a
    → (m >>= f) s ≡ f a (m s).1
bind-ok m f s a e = rw e
