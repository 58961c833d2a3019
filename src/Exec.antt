-- ===== src/Exec.antt =====
-- Go functions that return a value and an error, and change a state that stays changed beside an
-- error. The errors are those of core/core.go, and `failed` any error of the datastore. The value
-- that a function returns beside an error, which no caller uses, is left out.
use redgeo.Base.{◌≡◌, ap}

pub data Error : Type 0 where
  argument_error key_type not_allowed not_found value_type failed : Error

pub data Result (A : Type 0) : Type 0 where
  ok : A → Result A
  err : Error → Result A

abbrev pub Exec : Type 0 → Type 0 → Type 0
Exec S A = S → Result A × S

abbrev pub pure : {S A : Type 0} → A → Exec S A
pure a s = (ok a, s)

abbrev pub raise : {S A : Type 0} → Error → Exec S A
raise e s = (err e, s)

abbrev pub continue : {S A B : Type 0} → Result A → (A → Exec S B) → Exec S B
continue (ok a) f s = f a s
continue (err e) f s = (err e, s)

infixl 10 ◌>>=◌ ◌>>◌
abbrev pub ◌>>=◌ : {S A B : Type 0} → Exec S A → (A → Exec S B) → Exec S B
◌>>=◌ m f s = continue (m s).0 f (m s).1

abbrev pub ◌>>◌ : {S A B : Type 0} → Exec S A → Exec S B → Exec S B
m >> n = m >>= λ _. n

-- `_ = m`: the error is dropped
abbrev pub ignore : {S A : Type 0} → Exec S A → Exec S (Unit {0})
ignore m s = (ok tt, (m s).1)

-- `if v, err := m; err == nil`
abbrev pub on_ok : {S A : Type 0} → Exec S A → (A → Exec S (Unit {0})) → Exec S (Unit {0})
on_ok m f s = elim (m s).0 [ ok a ↦ f a (m s).1 | err e ↦ (ok tt, (m s).1) ]

pub on_ok_lem :
    {S A : Type 0} (m : Exec S A) (f : A → Exec S (Unit {0})) (s s' : S) (a : A)
    → m s ≡ (ok a, s')
    → on_ok m f s ≡ f a s'
on_ok_lem m f s s' a done = rw (ap (λ r. r.0) done, on_ok) (ap (λ r. f a r.1) done)
