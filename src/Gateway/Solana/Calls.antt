-- ===== src/Gateway/Solana/Calls.antt =====
-- What a method that returns tells of its value, and what a method asks the RPC to send, one rule for each way
-- to build a method.
use solana_agent.Prelude.{
  ◌≡◌, ◌∙◌, refl, sym, subst, Bool, true, false, Option, none, some, List, ◌∷◌, ◌⊎◌, inl, inr,
  if◌then◌else◌,
}
use solana_agent.Json.{Json}
use solana_agent.Gateway.Solana.{
  World, Raised, Ending, ok, raised, died, Method, raise, or_raise, require, after, ◌>>=◌, pure,
  catch, handle, gets,
}
use solana_agent.Gateway.Solana.Keeps.{Keeps}
use solana_agent.Gateway.Solana.Quiet.{IsQuiet}
use solana_agent.Gateway.Solana.Sent.{sends, sends-other}

-- Every value that `m` returns has `R`.
pub record Yields {A : Type 0} (R : A → Type 0) (m : Method A) : Type 0 where
  pub at : (w : World) (a : A) → (m w).0 ≡ ok a → R a

-- Every value that `m` returns from a state with `P` has `R`.
pub record Finds {A : Type 0} (P : World → Type 0) (R : A → Type 0) (m : Method A) : Type 0 where
  pub at : (w : World) → P w → (a : A) → (m w).0 ≡ ok a → R a

abbrev pub Sent : List Json → World → Type 0
Sent ps w = sends w.posted ≡ ps

pub Sent-IsQuiet : (ps : List Json) → IsQuiet (Sent ps)
Sent-IsQuiet ps = record {
  clock = λ w c h. h;
  posted = λ w p other h. sends-other p w.posted other ∙ h;
  expired = λ w id at h. h;
  inserted = λ w s at free h. h;
  attempts = λ w selected change u h. h;
}

-- `m` asks the RPC to send nothing, or once, and then with a request that has `Q`.
pub record SendsOnce {A : Type 0} (Q : Json → Type 0) (m : Method A) : Type 0 where
  pub at :
      (w : World)
      → (sends (m w).1.posted ≡ sends w.posted)
        ⊎ ((p : Json) × Q p × (sends (m w).1.posted ≡ p ∷ sends w.posted))

-- `m` asks the RPC to send nothing.
abbrev pub IsSilent : {A : Type 0} → Method A → Type 0
IsSilent m = (ps : List Json) → Keeps (Sent ps) m

module _ {A : Type 0} where
  pub Yields-any : (m : Method A) → Yields (λ a. Unit {0}) m
  Yields-any m = record { at = λ w a h. tt }

  pub Yields-pure : {R : A → Type 0} (a : A) → R a → Yields R (pure a)
  unfolding pure
  Yields-pure {R = R} a r = record { at = λ w b h. subst R (injected a b h) r }
    where
      injected : (a b : A) → ok a ≡ ok b → a ≡ b
      injected a b h = cc

  pub Yields-raise : {R : A → Type 0} (e : Raised) → Yields R (raise e)
  unfolding raise
  Yields-raise e = record { at = λ w a h. absurd (cc) }

  pub Yields-if :
      {R : A → Type 0} (b : Bool) (m n : Method A)
      → Yields R m
      → Yields R n
      → Yields R (if b then m else n)
  Yields-if true m n km kn = km
  Yields-if false m n km kn = kn

  pub Yields-or_raise : (o : Option A) (e : Raised) → Yields (λ a. o ≡ some a) (or_raise o e)
  unfolding or_raise
  Yields-or_raise none e = record { at = λ w a h. absurd (cc) }
  Yields-or_raise (some b) e = record { at = λ w a h. cc }

  pub Finds-Yields : {P : World → Type 0} {R : A → Type 0} (m : Method A) → Yields R m → Finds P R m
  Finds-Yields m k = record { at = λ w p a h. k.at w a h }

  pub Finds-gets :
      {P : World → Type 0} {R : A → Type 0} (f : World → A)
      → ((w : World) → P w → R (f w))
      → Finds P R (gets f)
  unfolding gets
  Finds-gets {R = R} f k = record { at = λ w p a h. subst R (injected (f w) a h) (k w p) }
    where
      injected : (a b : A) → ok a ≡ ok b → a ≡ b
      injected a b h = cc

  pub SendsOnce-silent : {Q : Json → Type 0} (m : Method A) → IsSilent m → SendsOnce Q m
  SendsOnce-silent m silent = record { at = λ w. inl ((silent (sends w.posted)).at w refl) }

pub Yields-require : (b : Bool) (e : Raised) → Yields (λ u. b ≡ true) (require b e)
unfolding require
Yields-require true e = record { at = λ w a h. refl }
Yields-require false e = record { at = λ w a h. absurd (cc) }

module _ {A B : Type 0} (m : Method A) (f : A → Method B) where
  -- From one state: a part that sends nothing, and what follows its value.
  pub SendsOnce-from :
      {Q : Json → Type 0} (w : World)
      → IsSilent m
      → ((a : A) → (m w).0 ≡ ok a → SendsOnce Q (f a))
      → (sends ((m >>= f) w).1.posted ≡ sends w.posted)
        ⊎ ((p : Json) × Q p × (sends ((m >>= f) w).1.posted ≡ p ∷ sends w.posted))
  unfolding ◌>>=◌
  SendsOnce-from {Q} w silent more =
      followed (m w) (sends w.posted) ((silent (sends w.posted)).at w refl) more
    where
      followed :
          (r : Ending A × World) (ps : List Json)
          → sends r.1.posted ≡ ps
          → ((a : A) → r.0 ≡ ok a → SendsOnce Q (f a))
          → (sends (after f r).1.posted ≡ ps)
            ⊎ ((p : Json) × Q p × (sends (after f r).1.posted ≡ p ∷ ps))
      followed (ok a, w) ps same k = rw (sym same) ((k a refl).at w)
      followed (raised e, w) ps same k = inl same
      followed (died, w) ps same k = inl same

module _ {A B : Type 0} {R : A → Type 0} (m : Method A) (f : A → Method B) where
  pub Yields-bind :
      {S : B → Type 0} → Yields R m → ((a : A) → R a → Yields S (f a)) → Yields S (m >>= f)
  unfolding ◌>>=◌
  Yields-bind {S = S} one more = record { at = λ w b h. followed (m w) (λ a. one.at w a) b h }
    where
      followed :
          (r : Ending A × World)
          → ((a : A) → r.0 ≡ ok a → R a)
          → (b : B) → (after f r).0 ≡ ok b
          → S b
      followed (ok a, w) k b h = (more a (k a refl)).at w b h
      followed (raised e, w) k b h = absurd (cc)
      followed (died, w) k b h = absurd (cc)

  pub Finds-bind :
      {P : World → Type 0} {S : B → Type 0}
      → Keeps P m
      → Finds P R m
      → ((a : A) → R a → Finds P S (f a))
      → Finds P S (m >>= f)
  unfolding ◌>>=◌
  Finds-bind {P} {S} keeps one more = record {
    at = λ w p b h. followed (m w) (keeps.at w p) (λ a. one.at w p a) b h;
  }
    where
      followed :
          (r : Ending A × World)
          → P r.1
          → ((a : A) → r.0 ≡ ok a → R a)
          → (b : B) → (after f r).0 ≡ ok b
          → S b
      followed (ok a, w) p k b h = (more a (k a refl)).at w p b h
      followed (raised e, w) p k b h = absurd (cc)
      followed (died, w) p k b h = absurd (cc)

  -- A part that sends nothing, and what its value tells of the request that follows.
  pub SendsOnce-after :
      {Q : Json → Type 0}
      → IsSilent m
      → Yields R m
      → ((a : A) → R a → SendsOnce Q (f a))
      → SendsOnce Q (m >>= f)
  SendsOnce-after silent one more = record {
    at = λ w. SendsOnce-from m f w silent (λ a returned. more a (one.at w a returned));
  }

module _ {A B : Type 0} (m : Method A) (f : A → Method B) where
  -- A part whose value tells nothing that is needed.
  pub Yields-skip : {S : B → Type 0} → ((a : A) → Yields S (f a)) → Yields S (m >>= f)
  Yields-skip more = Yields-bind m f (Yields-any m) (λ a u. more a)

  -- A part that may send, and a silent rest.
  pub SendsOnce-then :
      {Q : Json → Type 0} → SendsOnce Q m → ((a : A) → IsSilent (f a)) → SendsOnce Q (m >>= f)
  unfolding ◌>>=◌
  SendsOnce-then {Q = Q} one silent = record {
    at = λ w. followed (m w) (sends w.posted) (one.at w);
  }
    where
      followed :
          (r : Ending A × World) (ps : List Json)
          → (sends r.1.posted ≡ ps) ⊎ ((p : Json) × Q p × (sends r.1.posted ≡ p ∷ ps))
          → (sends (after f r).1.posted ≡ ps)
            ⊎ ((p : Json) × Q p × (sends (after f r).1.posted ≡ p ∷ ps))
      followed (ok a, w) ps (inl same) = inl ((silent a ps).at w same)
      followed (ok a, w) ps (inr (p, q, sent)) = inr (p, q, (silent a (p ∷ ps)).at w sent)
      followed (raised e, w) ps sent = sent
      followed (died, w) ps sent = sent

module _ {A : Type 0} where
  pub SendsOnce-catch :
      {Q : Json → Type 0} (m : Method A) (h : Raised → Method A)
      → SendsOnce Q m
      → ((e : Raised) → IsSilent (h e))
      → SendsOnce Q (catch m h)
  unfolding catch
  SendsOnce-catch {Q = Q} m h one silent = record {
    at = λ w. handled (m w) (sends w.posted) (one.at w);
  }
    where
      handled :
          (r : Ending A × World) (ps : List Json)
          → (sends r.1.posted ≡ ps) ⊎ ((p : Json) × Q p × (sends r.1.posted ≡ p ∷ ps))
          → (sends (handle h r).1.posted ≡ ps)
            ⊎ ((p : Json) × Q p × (sends (handle h r).1.posted ≡ p ∷ ps))
      handled (ok a, w) ps sent = sent
      handled (raised e, w) ps (inl same) = inl ((silent e ps).at w same)
      handled (raised e, w) ps (inr (p, q, sent)) = inr (p, q, (silent e (p ∷ ps)).at w sent)
      handled (died, w) ps sent = sent
