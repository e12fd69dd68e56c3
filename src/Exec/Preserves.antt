-- ===== src/Exec/Preserves.antt =====
-- Invariants of the tables, one rule for each way to build an action.
use solana_agent.Prelude.{String, ◌≡◌, Bool, true, false, Option, none, some, if◌then◌else◌, refl}
use solana_agent.Storage.Tables.{Tables}
use solana_agent.Execution.Executor.{ExecutionRequest, Executor}
use solana_agent.Exec.{
  Error, Result, ok, err, Store, Action, pure, raise, or_raise, lift, gets, catch, handle,
  transaction, settle, after, ◌>>=◌, require, modify, read_clock, utc_now, fresh_id, call,
}

-- `m` keeps `P`, whether it returns or raises.
pub record Preserves {A : Type 0} (P : Tables → Type 0) (m : Action A) : Type 0 where
  pub at : (s : Store) → P s.tables → P (m s).1.tables

module _ {A : Type 0} {P : Tables → Type 0} where
  pub Preserves-pure : (a : A) → Preserves P (pure a)
  unfolding pure
  Preserves-pure a = record { at = λ s h. h }

  pub Preserves-raise : (e : Error) → Preserves P (raise {A = A} e)
  unfolding raise
  Preserves-raise e = record { at = λ s h. h }

  pub Preserves-or_raise : (o : Option A) (e : Error) → Preserves P (or_raise o e)
  unfolding or_raise
  Preserves-or_raise none e = record { at = λ s h. h }
  Preserves-or_raise (some a) e = record { at = λ s h. h }

  pub Preserves-lift : (r : Result A) → Preserves P (lift r)
  unfolding lift
  Preserves-lift r = record { at = λ s h. h }

  pub Preserves-gets : (f : Tables → A) → Preserves P (gets f)
  unfolding gets
  Preserves-gets f = record { at = λ s h. h }

  pub Preserves-if :
      (b : Bool) (m n : Action A) → Preserves P m → Preserves P n → Preserves P (if b then m else n)
  Preserves-if true m n km kn = km
  Preserves-if false m n km kn = kn

  -- A transaction that raises is rolled back, so only its success is to be shown.
  pub Preserves-transaction :
      (m : Action A)
      → ((s : Store) (a : A) → P s.tables → (m s).0 ≡ ok a → P (m s).1.tables)
      → Preserves P (transaction m)
  unfolding transaction
  Preserves-transaction m h = record { at = λ s p. settled (m s) s.tables p (λ a e. h s a p e) }
    where
      settled :
          (r : Result A × Store) (t : Tables)
          → P t
          → ((a : A) → r.0 ≡ ok a → P r.1.tables)
          → P (settle t r).1.tables
      settled (ok a, s) t p k = k a refl
      settled (err e, s) t p k = p

  pub Preserves-transaction_of : (m : Action A) → Preserves P m → Preserves P (transaction m)
  Preserves-transaction_of m k = Preserves-transaction m (λ s a p _. k.at s p)

  pub Preserves-catch :
      (m : Action A) (h : Error → Action A)
      → Preserves P m
      → ((e : Error) → Preserves P (h e))
      → Preserves P (catch m h)
  unfolding catch
  Preserves-catch m h km kh = record { at = λ s p. handled (m s) (km.at s p) }
    where
      handled : (r : Result A × Store) → P r.1.tables → P (handle h r).1.tables
      handled (ok a, s) p = p
      handled (err e, s) p = (kh e).at s p

module _ {P : Tables → Type 0} where
  pub Preserves-require : (b : Bool) (e : Error) → Preserves P (require b e)
  unfolding require
  Preserves-require true e = record { at = λ s h. h }
  Preserves-require false e = record { at = λ s h. h }

  pub Preserves-modify :
      (f : Tables → Tables) → ((t : Tables) → P t → P (f t)) → Preserves P (modify f)
  unfolding modify
  Preserves-modify f h = record { at = λ s p. h s.tables p }

  pub Preserves-utc_now : Preserves P utc_now
  unfolding utc_now
  Preserves-utc_now = record { at = λ s h. h }

  pub Preserves-read_clock : Preserves P read_clock
  unfolding read_clock
  Preserves-read_clock = record { at = λ s h. h }

  pub Preserves-fresh_id : (prefix : String) → Preserves P (fresh_id prefix)
  unfolding fresh_id
  Preserves-fresh_id prefix = record { at = λ s h. h }

  pub Preserves-call : (x : Executor) (r : ExecutionRequest) → Preserves P (call x r)
  unfolding call
  Preserves-call x r = record { at = λ s h. h }

module _ {P : Tables → Type 0} {A B : Type 0} (first : Action A) (next : A → Action B) where
  pub Preserves-bind :
      Preserves P first → ((a : A) → Preserves P (next a)) → Preserves P (first >>= next)
  unfolding ◌>>=◌
  Preserves-bind one more = record { at = λ s p. followed (first s) (one.at s p) }
    where
      followed : (r : Result A × Store) → P r.1.tables → P (after next r).1.tables
      followed (ok a, s) p = (more a).at s p
      followed (err e, s) p = p

pub ruleset preserving = (
  Preserves-pure, Preserves-raise, Preserves-or_raise, Preserves-lift, Preserves-gets, Preserves-if,
  Preserves-catch, Preserves-require, Preserves-utc_now, Preserves-read_clock, Preserves-fresh_id,
  Preserves-call, Preserves-bind,
)
