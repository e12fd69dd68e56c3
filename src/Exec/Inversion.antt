-- ===== src/Exec/Inversion.antt =====
-- What the success of a compound action tells of its parts.
use solana_agent.Prelude.{◌≡◌, refl, sym, ap, ◌∙◌}
use solana_agent.Storage.Tables.{Tables}
use solana_agent.Exec.{Result, ok, err, Store, Action, transaction, settle, after, ◌>>=◌}

module _ {A : Type 0} where
  settle-ok :
      (before : Tables) (r : Result A × Store) {a : A}
      → (settle before r).0 ≡ ok a
      → (r.0 ≡ ok a) × (settle before r ≡ r)
  settle-ok before (ok b, s) h = (h, refl)
  settle-ok before (err e, s) h = cc

  -- A transaction that returns has done what its body did.
  pub transaction-ok :
      (m : Action A) (s : Store) {a : A}
      → (transaction m s).0 ≡ ok a
      → ((m s).0 ≡ ok a) × (transaction m s ≡ m s)
  unfolding transaction
  transaction-ok m s h = settle-ok s.tables (m s) h

module _ {A B : Type 0} where
  after-ok :
      (r : Result A × Store) (f : A → Action B) {b : B}
      → (after f r).0 ≡ ok b
      → (a : A) × (r.0 ≡ ok a) × (after f r ≡ f a r.1)
  after-ok (ok a, s) f h = (a, refl, refl)
  after-ok (err e, s) f h = cc

  -- A sequence that returns has run both of its parts.
  pub >>=-ok :
      (m : Action A) (f : A → Action B) (s : Store) {b : B}
      → ((m >>= f) s).0 ≡ ok b
      → (a : A) × ((m s).0 ≡ ok a) × ((m >>= f) s ≡ f a (m s).1)
  unfolding ◌>>=◌
  >>=-ok m f s h = after-ok (m s) f h

  -- The same where the first part only reads.
  pub >>=-read :
      (m : Action A) (f : A → Action B) (s : Store) {b : B}
      → ((a : A) → (m s).0 ≡ ok a → m s ≡ (ok a, s))
      → ((m >>= f) s).0 ≡ ok b
      → (a : A) × ((m s).0 ≡ ok a) × ((m >>= f) s ≡ f a s) × ((f a s).0 ≡ ok b)
  >>=-read m f s {b} reads h =
      let (a, done, ran) = >>=-ok m f s h in
      let here : (m >>= f) s ≡ f a s =
        ran ∙ ap (λ (r : Result A × Store). f a r.1) (reads a done) in
      (a, done, here, ap (λ (r : Result B × Store). r.0) (sym here) ∙ h)
