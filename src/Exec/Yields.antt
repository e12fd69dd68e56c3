-- ===== src/Exec/Yields.antt =====
-- What holds of the result of an action that returns.
use solana_agent.Prelude.{
  subst, ◌≡◌, refl, ◌∙◌, Bool, true, false, ◌∷◌, inl, inr, ◌⊎◌, if◌then◌else◌,
}
use solana_agent.Execution.Executor.{ExecutionRequest, Executor}
use solana_agent.Exec.{
  Error, Result, ok, err, Store, Action, pure, lift, catch, handle, after, ◌>>=◌, call,
}
use solana_agent.Storage.Tables.{Tables}
use solana_agent.Exec.Preserves.{Preserves}
use solana_agent.Exec.Silent.{IsSilent, CallsOnce}

pub record Yields {A : Type 0} (P : A → Type 0) (m : Action A) : Type 0 where
  pub at : (s : Store) {a : A} → (m s).0 ≡ ok a → P a

module _ {A : Type 0} {P : A → Type 0} where
  pub Yields-pure : (a : A) → P a → Yields P (pure a)
  unfolding pure
  Yields-pure a p = record { at = λ s h. subst (given (ok a)) h p }
    where
      given : Result A → Result A → Type 0
      given r (ok b) = P b
      given r (err e) = Unit

  pub Yields-lift : (r : Result A) → ((a : A) → r ≡ ok a → P a) → Yields P (lift r)
  unfolding lift
  Yields-lift r p = record { at = λ s {a} h. p a h }

  pub Yields-if :
      (b : Bool) (m n : Action A) → Yields P m → Yields P n → Yields P (if b then m else n)
  Yields-if true m n km kn = km
  Yields-if false m n km kn = kn

  pub Yields-catch :
      (m : Action A) (h : Error → Action A)
      → Yields P m
      → ((e : Error) → Yields P (h e))
      → Yields P (catch m h)
  unfolding catch
  Yields-catch m h km kh = record { at = λ s e. handled (m s) (λ a f. km.at s f) e }
    where
      handled :
          (r : Result A × Store) {a : A}
          → ((b : A) → r.0 ≡ ok b → P b)
          → (handle h r).0 ≡ ok a
          → P a
      handled (ok b, s) {a} y e = y a e
      handled (err x, s) {a} y e = (kh x).at s e

module _ {A B : Type 0} {P : B → Type 0} where
  pub Yields-bind :
      (m : Action A) (f : A → Action B) → ((a : A) → Yields P (f a)) → Yields P (m >>= f)
  unfolding ◌>>=◌
  Yields-bind m f kf = record { at = λ s {a} h. followed (m s) h }
    where
      followed : (r : Result A × Store) {b : B} → (after f r).0 ≡ ok b → P b
      followed (ok a, s) h = (kf a).at s h
      followed (err e, s) h = absurd (cc)

module _ {A B : Type 0} {P : A → Type 0} {R : B → Type 0} where
  pub Yields-then :
      (m : Action A) (f : A → Action B)
      → Yields P m
      → ((a : A) → P a → Yields R (f a))
      → Yields R (m >>= f)
  unfolding ◌>>=◌
  Yields-then m f km kf = record { at = λ s {a} h. followed (m s) (λ a e. km.at s e) h }
    where
      followed :
          (r : Result A × Store) {b : B} → ((a : A) → r.0 ≡ ok a → P a) → (after f r).0 ≡ ok b → R b
      followed (ok a, s) y h = (kf a (y a refl)).at s h
      followed (err e, s) y h = absurd (cc)

module _ {A B : Type 0} {P : A → Type 0} where
  -- A continuation that is silent on what its first part can return.
  pub IsSilent-given :
      (m : Action A) (f : A → Action B)
      → IsSilent m
      → Yields P m
      → ((a : A) → P a → IsSilent (f a))
      → IsSilent (m >>= f)
  unfolding ◌>>=◌
  IsSilent-given m f km ky kf = record { at = λ s. followed (m s) (λ a e. ky.at s e) ∙ km.at s }
    where
      followed :
          (r : Result A × Store) → ((a : A) → r.0 ≡ ok a → P a) → (after f r).1.calls ≡ r.1.calls
      followed (ok a, s) y = (kf a (y a refl)).at s
      followed (err e, s) y = refl

-- What holds of the result of an action that returns from tables with `P`.
pub record Finds {A : Type 0} (P : Tables → Type 0) (R : A → Type 0) (m : Action A) : Type 0 where
  pub at : (s : Store) → P s.tables → {a : A} → (m s).0 ≡ ok a → R a

module _ {A : Type 0} {P : Tables → Type 0} {R : A → Type 0} where
  pub Finds-Yields : (m : Action A) → Yields R m → Finds P R m
  Finds-Yields m k = record { at = λ s p {a} h. k.at s h }

module _ {A B : Type 0} {P : Tables → Type 0} {R : B → Type 0} where
  pub Finds-bind :
      (m : Action A) (f : A → Action B)
      → Preserves P m
      → ((a : A) → Finds P R (f a))
      → Finds P R (m >>= f)
  unfolding ◌>>=◌
  Finds-bind m f km kf = record { at = λ s p {a} h. followed (m s) (km.at s p) h }
    where
      followed : (r : Result A × Store) {b : B} → P r.1.tables → (after f r).0 ≡ ok b → R b
      followed (ok a, s) p h = (kf a).at s p h
      followed (err e, s) p h = absurd (cc)

module _ {P : Tables → Type 0} {Q : ExecutionRequest → Type 0} where
  pub CallsOnce-silent : {A : Type 0} (m : Action A) → IsSilent m → CallsOnce P Q m
  CallsOnce-silent m k = record { at = λ s p. inl (k.at s) }

  pub CallsOnce-if :
      {A : Type 0} (b : Bool) (m n : Action A)
      → CallsOnce P Q m
      → CallsOnce P Q n
      → CallsOnce P Q (if b then m else n)
  CallsOnce-if true m n km kn = km
  CallsOnce-if false m n km kn = kn

  pub CallsOnce-call : (x : Executor) (r : ExecutionRequest) → Q r → CallsOnce P Q (call x r)
  unfolding call
  CallsOnce-call x r q = record { at = λ s p. inr (r, q, refl) }

module _ {A B : Type 0} {P : Tables → Type 0} {Q : ExecutionRequest → Type 0}
    {R : A → Tables → Type 0} where
  -- A silent part before the call, with what holds where it returns.
  pub CallsOnce-from :
      (m : Action A) (f : A → Action B)
      → IsSilent m
      → ((s : Store) → P s.tables → (a : A) → (m s).0 ≡ ok a → R a (m s).1.tables)
      → ((a : A) → CallsOnce (R a) Q (f a))
      → CallsOnce P Q (m >>= f)
  unfolding ◌>>=◌
  CallsOnce-from m f km ky kf = record { at = λ s p. followed (m s) s (km.at s) (ky s p) }
    where
      followed :
          (r : Result A × Store) (s : Store)
          → r.1.calls ≡ s.calls
          → ((a : A) → r.0 ≡ ok a → R a r.1.tables)
          → ((after f r).1.calls ≡ s.calls)
            ⊎ ((q : ExecutionRequest) × Q q × ((after f r).1.calls ≡ q ∷ s.calls))
      followed (ok a, t) s same y = rw (← same) ((kf a).at t (y a refl))
      followed (err e, t) s same y = inl same

module _ {A B : Type 0} {P : Tables → Type 0} {Q : ExecutionRequest → Type 0} where
  -- A silent part before the call.
  pub CallsOnce-then :
      (m : Action A) (f : A → Action B)
      → IsSilent m
      → Preserves P m
      → ((a : A) → CallsOnce P Q (f a))
      → CallsOnce P Q (m >>= f)
  CallsOnce-then m f km kp kf = CallsOnce-from {R = λ a. P} m f km (λ s p a h. kp.at s p) kf

  -- A silent part after it.
  pub CallsOnce-before :
      (m : Action A) (f : A → Action B)
      → CallsOnce P Q m
      → ((a : A) → IsSilent (f a))
      → CallsOnce P Q (m >>= f)
  unfolding ◌>>=◌
  CallsOnce-before m f km kf = record { at = λ s p. rw (followed (m s)) (km.at s p) }
    where
      followed : (r : Result A × Store) → (after f r).1.calls ≡ r.1.calls
      followed (ok a, s) = (kf a).at s
      followed (err e, s) = refl

module _ {A B : Type 0} {P : Tables → Type 0} {Q : ExecutionRequest → Type 0} {R : A → Type 0} where
  -- A call after a silent part that returns what `R` says.
  pub CallsOnce-given :
      (m : Action A) (f : A → Action B)
      → IsSilent m
      → Preserves P m
      → Finds P R m
      → ((a : A) → R a → CallsOnce P Q (f a))
      → CallsOnce P Q (m >>= f)
  CallsOnce-given m f km kp ky kf =
      CallsOnce-from {R = λ a t. R a × P t} m f km (λ s p a h. (ky.at s p h, kp.at s p))
        (λ a. record { at = λ s p. (kf a p.0).at s p.1 })

  pub CallsOnce-before_given :
      (m : Action A) (f : A → Action B)
      → CallsOnce P Q m
      → Yields R m
      → ((a : A) → R a → IsSilent (f a))
      → CallsOnce P Q (m >>= f)
  unfolding ◌>>=◌
  CallsOnce-before_given m f km ky kf = record {
    at = λ s p. rw (followed (m s) (λ a e. ky.at s e)) (km.at s p);
  }
    where
      followed :
          (r : Result A × Store) → ((a : A) → r.0 ≡ ok a → R a) → (after f r).1.calls ≡ r.1.calls
      followed (ok a, s) y = (kf a (y a refl)).at s
      followed (err e, s) y = refl

module _ {A : Type 0} {P : Tables → Type 0} {Q : ExecutionRequest → Type 0} where
  pub CallsOnce-catch :
      (m : Action A) (h : Error → Action A)
      → CallsOnce P Q m
      → ((e : Error) → IsSilent (h e))
      → CallsOnce P Q (catch m h)
  unfolding catch
  CallsOnce-catch m h km kh = record { at = λ s p. rw (handled (m s)) (km.at s p) }
    where
      handled : (r : Result A × Store) → (handle h r).1.calls ≡ r.1.calls
      handled (ok a, s) = refl
      handled (err e, s) = (kh e).at s
