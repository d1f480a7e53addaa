-- ===== src/Effect.antt =====
-- Asynchronous Python methods: a method takes the state of its object and ends with a value or an
-- exception, and with the state as it then is. What was written before a raise stays written.
pub mod Hoare
use privana.Prelude.{◌≡◌, ◌≢◌, refl, ◌⊎◌, inl, inr, Bool, true, false, [], if◌then◌else◌}
use privana.Text.{Text}

-- The exceptions that the services tell apart, each with its message. `cancelled` is
-- `asyncio.CancelledError` and the death of the process at that point: `except Exception` does not
-- catch it. `fuel_out` is no exception of the program: a loop of the model has used up its rounds.
pub data Exn : Type 0 where
  value_error connection_error timeout_error os_error not_found other_error : Text → Exn
  reverted : Text → Text → Exn
  credit_pending : Text → Exn
  cancelled fuel_out : Exn

-- `str(exc)`
unfoldable pub exn_text : Exn → Text
exn_text (value_error m) = m
exn_text (connection_error m) = m
exn_text (timeout_error m) = m
exn_text (os_error m) = m
exn_text (not_found m) = m
exn_text (other_error m) = m
exn_text (reverted name m) = m
exn_text (credit_pending m) = m
exn_text cancelled = []
exn_text fuel_out = []

-- What `except Exception` catches.
abbrev pub is_exception : Exn → Bool
is_exception cancelled = false
is_exception fuel_out = false
is_exception _ = true

pub data Outcome (A : Type 0) : Type 0 where
  ok : A → Outcome A
  raise : Exn → Outcome A

pub Outcome-cases :
    {A : Type 0} (r : Outcome A) → ((a : A) × (r ≡ ok a)) ⊎ ((e : Exn) × (r ≡ raise e))
Outcome-cases (ok a) = inl (a, refl)
Outcome-cases (raise e) = inr (e, refl)

pub ok-injective : {A : Type 0} (a b : A) → ok a ≡ ok b → a ≡ b
ok-injective a b h = cc

pub ok-ne-raise : {A : Type 0} (a : A) (e : Exn) → ok a ≢ raise e
ok-ne-raise a e h = cc

abbrev pub then_do : {A B : Type 0} → Outcome A → (A → Outcome B) → Outcome B
then_do (ok a) f = f a
then_do (raise e) f = raise e

abbrev pub M : Type 0 → Type 0 → Type 0
M S A = S → Outcome A × S

module _ {S A : Type 0} where
  abbrev pub pure : A → M S A
  pure a s = (ok a, s)

  abbrev pub throw : Exn → M S A
  throw e s = (raise e, s)

  abbrev pub gets : (S → A) → M S A
  gets f s = (ok (f s), s)

  abbrev pub lift : Outcome A → M S A
  lift r s = (r, s)

abbrev pub modify : {S : Type 0} → (S → S) → M S (Unit {0})
modify f s = (ok tt, f s)

module _ {S A B : Type 0} where
  abbrev pub continue : Outcome A → (A → M S B) → M S B
  continue (ok a) f s = f a s
  continue (raise e) f s = (raise e, s)

  infixl 5 ◌>>=◌
  unfoldable pub ◌>>=◌ : M S A → (A → M S B) → M S B
  ◌>>=◌ m f s = let r = m s in continue r.0 f r.1

infixl 5 ◌>>◌
abbrev pub ◌>>◌ : {S B : Type 0} → M S (Unit {0}) → M S B → M S B
m >> k = m >>= λ _. k

module _ {S A : Type 0} where
  abbrev pub handle : Outcome A → (Exn → M S A) → M S A
  handle (ok a) h s = (ok a, s)
  handle (raise e) h s = h e s

  -- `try: m` with a handler for everything; a handler raises again what it does not catch.
  unfoldable pub try_except : M S A → (Exn → M S A) → M S A
  try_except m h s = let r = m s in handle r.0 h r.1

-- `if c: raise e`
abbrev pub raise_if : {S : Type 0} → Bool → Exn → M S (Unit {0})
raise_if c e = if c then throw e else pure tt
