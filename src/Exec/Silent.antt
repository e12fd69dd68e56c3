-- ===== src/Exec/Silent.antt =====
-- Actions that call no executor, and actions that call one at most once and with a request of which `Q` holds.
use solana_agent.Prelude.{
  String, ◌≡◌, refl, ◌∙◌, Bool, true, false, Option, none, some, ◌∷◌, ◌⊎◌, if◌then◌else◌,
}
use solana_agent.Storage.Tables.{Tables}
use solana_agent.Execution.Executor.{ExecutionRequest}
use solana_agent.Exec.{
  Error, Result, ok, err, Store, Action, pure, raise, lift, or_raise, gets, catch, handle,
  transaction, settle, after, ◌>>=◌, require, modify, read_clock, utc_now, fresh_id,
}

pub record IsSilent {A : Type 0} (m : Action A) : Type 0 where
  pub at : (s : Store) → (m s).1.calls ≡ s.calls

-- From tables with `P`, `m` calls an executor at most once, and then with a request of which `Q` holds.
pub record CallsOnce {A : Type 0} (P : Tables → Type 0) (Q : ExecutionRequest → Type 0)
    (m : Action A) : Type 0 where
  pub at :
      (s : Store)
      → P s.tables
      → ((m s).1.calls ≡ s.calls) ⊎ ((r : ExecutionRequest) × Q r × ((m s).1.calls ≡ r ∷ s.calls))

module _ {A : Type 0} where
  pub IsSilent-pure : (a : A) → IsSilent (pure a)
  unfolding pure
  IsSilent-pure a = record { at = λ s. refl }

  pub IsSilent-raise : (e : Error) → IsSilent (raise {A = A} e)
  unfolding raise
  IsSilent-raise e = record { at = λ s. refl }

  pub IsSilent-lift : (r : Result A) → IsSilent (lift r)
  unfolding lift
  IsSilent-lift r = record { at = λ s. refl }

  pub IsSilent-or_raise : (o : Option A) (e : Error) → IsSilent (or_raise o e)
  unfolding or_raise
  IsSilent-or_raise none e = record { at = λ s. refl }
  IsSilent-or_raise (some a) e = record { at = λ s. refl }

  pub IsSilent-gets : (f : Tables → A) → IsSilent (gets f)
  unfolding gets
  IsSilent-gets f = record { at = λ s. refl }

  pub IsSilent-if :
      (b : Bool) (m n : Action A) → IsSilent m → IsSilent n → IsSilent (if b then m else n)
  IsSilent-if true m n km kn = km
  IsSilent-if false m n km kn = kn

  settle-calls : (before : Tables) (r : Result A × Store) → (settle before r).1.calls ≡ r.1.calls
  settle-calls before (ok a, s) = refl
  settle-calls before (err e, s) = refl

  pub IsSilent-transaction : (m : Action A) → IsSilent m → IsSilent (transaction m)
  unfolding transaction
  IsSilent-transaction m k = record { at = λ s. settle-calls s.tables (m s) ∙ k.at s }

  pub IsSilent-catch :
      (m : Action A) (h : Error → Action A)
      → IsSilent m
      → ((e : Error) → IsSilent (h e))
      → IsSilent (catch m h)
  unfolding catch
  IsSilent-catch m h km kh = record { at = λ s. handled (m s) ∙ km.at s }
    where
      handled : (r : Result A × Store) → (handle h r).1.calls ≡ r.1.calls
      handled (ok a, s) = refl
      handled (err e, s) = (kh e).at s

pub IsSilent-require : (b : Bool) (e : Error) → IsSilent (require b e)
unfolding require
IsSilent-require true e = record { at = λ s. refl }
IsSilent-require false e = record { at = λ s. refl }

pub IsSilent-modify : (f : Tables → Tables) → IsSilent (modify f)
unfolding modify
IsSilent-modify f = record { at = λ s. refl }

pub IsSilent-utc_now : IsSilent utc_now
unfolding utc_now
IsSilent-utc_now = record { at = λ s. refl }

pub IsSilent-read_clock : IsSilent read_clock
unfolding read_clock
IsSilent-read_clock = record { at = λ s. refl }

pub IsSilent-fresh_id : (prefix : String) → IsSilent (fresh_id prefix)
unfolding fresh_id
IsSilent-fresh_id prefix = record { at = λ s. refl }

module _ {A B : Type 0} where
  pub IsSilent-bind :
      (m : Action A) (f : A → Action B)
      → IsSilent m
      → ((a : A) → IsSilent (f a))
      → IsSilent (m >>= f)
  unfolding ◌>>=◌
  IsSilent-bind m f km kf = record { at = λ s. followed (m s) ∙ km.at s }
    where
      followed : (r : Result A × Store) → (after f r).1.calls ≡ r.1.calls
      followed (ok a, s) = (kf a).at s
      followed (err e, s) = refl

pub ruleset silent_rules = (
  IsSilent-pure, IsSilent-raise, IsSilent-lift, IsSilent-or_raise, IsSilent-gets, IsSilent-if,
  IsSilent-catch, IsSilent-require, IsSilent-modify, IsSilent-utc_now, IsSilent-read_clock,
  IsSilent-fresh_id, IsSilent-bind, IsSilent-transaction,
)
