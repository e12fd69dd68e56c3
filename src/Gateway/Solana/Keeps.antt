-- ===== src/Gateway/Solana/Keeps.antt =====
-- What a method of the Solana backend keeps or brings about in its state, one rule for each way to
-- build a method.
use solana_agent.Prelude.{Bool, true, false, Option, none, some, if◌then◌else◌}
use solana_agent.Gateway.Solana.{
  World, Raised, Ending, ok, raised, died, Method, KillPoint, pure, raise, die, or_raise, gets,
  catch, handle, require, modify, after, ◌>>=◌, reach,
}

-- `m` keeps `P`, whether it returns, raises or dies.
pub record Keeps {A : Type 0} (P : World → Type 0) (m : Method A) : Type 0 where
  pub at : (w : World) → P w → P (m w).1

-- From a state with `P`, `m` returns in one with `Q`, and raises or dies in one with `E`.
abbrev pub Ends : {A : Type 0} → (World → Type 0) → (World → Type 0) → Ending A × World → Type 0
Ends Q E (ok a, w) = Q w
Ends Q E (raised e, w) = E w
Ends Q E (died, w) = E w

pub record Leads {A : Type 0} (P Q E : World → Type 0) (m : Method A) : Type 0 where
  pub at : (w : World) → P w → Ends Q E (m w)

module _ {A : Type 0} {P : World → Type 0} where
  pub Keeps-pure : (a : A) → Keeps P (pure a)
  unfolding pure
  Keeps-pure a = record { at = λ w h. h }

  pub Keeps-raise : (e : Raised) → Keeps P (raise {A = A} e)
  unfolding raise
  Keeps-raise e = record { at = λ w h. h }

  pub Keeps-die : Keeps P (die {A = A})
  unfolding die
  Keeps-die = record { at = λ w h. h }

  pub Keeps-or_raise : (o : Option A) (e : Raised) → Keeps P (or_raise o e)
  unfolding or_raise
  Keeps-or_raise none e = record { at = λ w h. h }
  Keeps-or_raise (some a) e = record { at = λ w h. h }

  pub Keeps-gets : (f : World → A) → Keeps P (gets f)
  unfolding gets
  Keeps-gets f = record { at = λ w h. h }

  pub Keeps-if : (b : Bool) (m n : Method A) → Keeps P m → Keeps P n → Keeps P (if b then m else n)
  Keeps-if true m n km kn = km
  Keeps-if false m n km kn = kn

  pub Keeps-catch :
      (m : Method A) (h : Raised → Method A)
      → Keeps P m
      → ((e : Raised) → Keeps P (h e))
      → Keeps P (catch m h)
  unfolding catch
  Keeps-catch m h km kh = record { at = λ w p. handled (m w) (km.at w p) }
    where
      handled : (r : Ending A × World) → P r.1 → P (handle h r).1
      handled (ok a, w) p = p
      handled (raised e, w) p = (kh e).at w p
      handled (died, w) p = p

module _ {P : World → Type 0} where
  pub Keeps-require : (b : Bool) (e : Raised) → Keeps P (require b e)
  unfolding require
  Keeps-require true e = record { at = λ w h. h }
  Keeps-require false e = record { at = λ w h. h }

  pub Keeps-modify : (f : World → World) → ((w : World) → P w → P (f w)) → Keeps P (modify f)
  unfolding modify
  Keeps-modify f h = record { at = λ w p. h w p }

  pub Keeps-reach : (hook : Option KillPoint) (point : KillPoint) → Keeps P (reach hook point)
  unfolding reach
  Keeps-reach none point = Keeps-pure tt
  Keeps-reach (some kill_point) point = Keeps-if _ die (pure tt) Keeps-die (Keeps-pure tt)

module _ {P : World → Type 0} {A B : Type 0} (first : Method A) (next : A → Method B) where
  pub Keeps-bind : Keeps P first → ((a : A) → Keeps P (next a)) → Keeps P (first >>= next)
  unfolding ◌>>=◌
  Keeps-bind one more = record { at = λ w p. followed (first w) (one.at w p) }
    where
      followed : (r : Ending A × World) → P r.1 → P (after next r).1
      followed (ok a, w) p = (more a).at w p
      followed (raised e, w) p = p
      followed (died, w) p = p

pub ruleset keeping = (
  Keeps-pure, Keeps-raise, Keeps-die, Keeps-or_raise, Keeps-gets, Keeps-if, Keeps-catch,
  Keeps-require, Keeps-reach, Keeps-bind,
)

module _ {A : Type 0} {P Q E : World → Type 0} {m : Method A} where
  -- A method that keeps `P` leads from it to whatever follows from it.
  pub Leads-keep : ((w : World) → P w → Q w) → ((w : World) → P w → E w) → Keeps P m → Leads P Q E m
  Leads-keep q e k = record { at = λ w p. ended (m w) (k.at w p) }
    where
      ended : (r : Ending A × World) → P r.1 → Ends Q E r
      ended (ok a, w) p = q w p
      ended (raised _, w) p = e w p
      ended (died, w) p = e w p

  -- What holds however `m` ends.
  pub Leads-ended :
      {R : World → Type 0}
      → ((w : World) → Q w → R w)
      → ((w : World) → E w → R w)
      → Leads P Q E m
      → (w : World) → P w
      → R (m w).1
  Leads-ended {R} q e k w p = ended (m w) (k.at w p)
    where
      ended : (x : Ending A × World) → Ends Q E x → R x.1
      ended (ok a, w) h = q w h
      ended (raised _, w) h = e w h
      ended (died, w) h = e w h

  pub Keeps-Leads :
      {R : World → Type 0}
      → ((w : World) → R w → P w)
      → ((w : World) → Q w → R w)
      → ((w : World) → E w → R w)
      → Leads P Q E m
      → Keeps R m
  Keeps-Leads r q e k = record { at = λ w h. Leads-ended q e k w (r w h) }

module _ {P Q R E : World → Type 0} {A B : Type 0} (first : Method A) (next : A → Method B) where
  pub Leads-bind :
      Leads P Q E first → ((a : A) → Leads Q R E (next a)) → Leads P R E (first >>= next)
  unfolding ◌>>=◌
  Leads-bind one more = record { at = λ w p. followed (first w) (one.at w p) }
    where
      followed : (r : Ending A × World) → Ends Q E r → Ends R E (after next r)
      followed (ok a, w) q = (more a).at w q
      followed (raised e, w) h = h
      followed (died, w) h = h

module _ {P Q : World → Type 0} where
  pub Leads-modify :
      {E : World → Type 0} (f : World → World)
      → ((w : World) → P w → Q (f w))
      → Leads P Q E (modify f)
  unfolding modify
  Leads-modify f h = record { at = λ w p. h w p }

module _ {A : Type 0} {P Q : World → Type 0} where
  pub Leads-catch :
      (m : Method A) (h : Raised → Method A)
      → Leads P Q Q m
      → ((e : Raised) → Keeps Q (h e))
      → Leads P Q Q (catch m h)
  unfolding catch
  Leads-catch m h km kh = record { at = λ w p. handled (m w) (km.at w p) }
    where
      handled : (r : Ending A × World) → Ends Q Q r → Ends Q Q (handle h r)
      handled (ok a, w) q = q
      handled (raised e, w) q = (Leads-keep (λ v k. k) (λ v k. k) (kh e)).at w q
      handled (died, w) q = q
