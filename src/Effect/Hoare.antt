-- ===== src/Effect/Hoare.antt =====
-- Rules for what a method establishes: `Triple P m R E` says that from a state in `P` the method
-- ends with a value and a state in `R`, or raises and leaves a state in `E`.
use privana.Prelude.{◌≡◌, refl, Bool, true, false, if◌then◌else◌}
use privana.Effect.{
  Exn, Outcome, ok, raise, M, pure, throw, gets, lift, modify, continue, ◌>>=◌, handle, try_except,
}

abbrev pub Post : {S A : Type 0} → (A → S → Type 0) → (Exn → S → Type 0) → Outcome A → S → Type 0
Post R E (ok a) s = R a s
Post R E (raise e) s = E e s

pub record Triple {S A : Type 0} (P : S → Type 0) (m : M S A) (R : A → S → Type 0)
    (E : Exn → S → Type 0) : Type 0 where
  pub at : (s : S) → P s → Post R E (m s).0 (m s).1

module _ {S A B : Type 0} {R : A → S → Type 0} {E : Exn → S → Type 0} {Q : B → S → Type 0} where
  continue-Post :
      (r : Outcome A) (f : A → M S B) (s : S)
      → Post R E r s
      → ((a : A) → Triple (R a) (f a) Q E)
      → Post Q E (continue r f s).0 (continue r f s).1
  continue-Post (ok a) f s h k = (k a).at s h
  continue-Post (raise e) f s h k = h

module _ {S A : Type 0} {R : A → S → Type 0} {E E' : Exn → S → Type 0} where
  handle-Post :
      (r : Outcome A) (h : Exn → M S A) (s : S)
      → Post R E' r s
      → ((e : Exn) → Triple (E' e) (h e) R E)
      → Post R E (handle r h s).0 (handle r h s).1
  handle-Post (ok a) h s p k = p
  handle-Post (raise e) h s p k = (k e).at s p

module _ {S A B : Type 0} {P : S → Type 0} {R : A → S → Type 0} {E : Exn → S → Type 0}
    {Q : B → S → Type 0} where
  pub Triple-bind :
      (m : M S A) (f : A → M S B)
      → Triple P m R E
      → ((a : A) → Triple (R a) (f a) Q E)
      → Triple P (m >>= f) Q E
  unfolding ◌>>=◌
  Triple-bind m f t k = record { at = λ s h. continue-Post (m s).0 f (m s).1 (t.at s h) k }

module _ {S A : Type 0} {P : S → Type 0} {R : A → S → Type 0} {E : Exn → S → Type 0} where
  pub Triple-if :
      (b : Bool) (m n : M S A)
      → (b ≡ true → Triple P m R E)
      → (b ≡ false → Triple P n R E)
      → Triple P (if b then m else n) R E
  Triple-if true m n km kn = km refl
  Triple-if false m n km kn = kn refl

  pub Triple-pure : (a : A) → ((s : S) → P s → R a s) → Triple P (pure a) R E
  Triple-pure a h = record { at = λ s p. h s p }

  pub Triple-throw : (e : Exn) → ((s : S) → P s → E e s) → Triple P (throw {A = A} e) R E
  Triple-throw e h = record { at = λ s p. h s p }

  pub Triple-lift :
      (r : Outcome A)
      → ((a : A) → r ≡ ok a → (s : S) → P s → R a s)
      → ((e : Exn) → r ≡ raise e → (s : S) → P s → E e s)
      → Triple P (lift r) R E
  Triple-lift (ok a) h k = record { at = λ s p. h a refl s p }
  Triple-lift (raise e) h k = record { at = λ s p. k e refl s p }

  pub Triple-weaken :
      {P' : S → Type 0} {R' : A → S → Type 0} {E' : Exn → S → Type 0} (m : M S A)
      → Triple P' m R' E'
      → ((s : S) → P s → P' s)
      → ((a : A) (s : S) → R' a s → R a s)
      → ((e : Exn) (s : S) → E' e s → E e s)
      → Triple P m R E
  Triple-weaken {P'} {R'} {E'} m t hp hr he = record {
    at = λ s p. go (m s).0 (m s).1 (t.at s (hp s p));
  }
    where
      go : (r : Outcome A) (s : S) → Post R' E' r s → Post R E r s
      go (ok a) s h = hr a s h
      go (raise e) s h = he e s h

  pub Triple-try :
      {E' : Exn → S → Type 0} (m : M S A) (h : Exn → M S A)
      → Triple P m R E'
      → ((e : Exn) → Triple (E' e) (h e) R E)
      → Triple P (try_except m h) R E
  unfolding try_except
  Triple-try m h t k = record { at = λ s p. handle-Post (m s).0 h (m s).1 (t.at s p) k }

pub Triple-modify :
    {S : Type 0} {P : S → Type 0} {R : Unit {0} → S → Type 0} {E : Exn → S → Type 0} (f : S → S)
    → ((s : S) → P s → R tt (f s))
    → Triple P (modify f) R E
Triple-modify f h = record { at = λ s p. h s p }

pub Triple-gets :
    {S A : Type 0} {P : S → Type 0} {R : A → S → Type 0} {E : Exn → S → Type 0} (f : S → A)
    → ((s : S) → P s → R (f s) s)
    → Triple P (gets f) R E
Triple-gets f h = record { at = λ s p. h s p }
