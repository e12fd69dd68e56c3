-- ===== src/Gateway/Solana/Runs.antt =====
-- Sequences of commands to the Solana backend (gateway/solana_execute.py), each by a process with
-- settings of its own, which may die at one of the points of gateway/chaos.py.
use solana_agent.Prelude.{[], ◌≡◌, refl}
use solana_agent.Json.{Fields}
use solana_agent.Gateway.Solana.{World}
use solana_agent.Gateway.Solana.Library.{Library, SolanaBackend}
use solana_agent.Gateway.Solana.Execute.{authorize_and_execute}
use solana_agent.Gateway.Solana.Refresh.{status, recover, evidence}
use solana_agent.Gateway.Solana.Prepare.{prepare}
use solana_agent.Gateway.Solana.Quiet.{IsQuiet}
use solana_agent.Gateway.Solana.Quiet.Inspect.{status-Keeps, recover-Keeps, evidence-Keeps}
use solana_agent.Gateway.Solana.Quiet.Prepare.{prepare-Keeps}
use solana_agent.Gateway.Solana.Keeps.{Keeps}
use solana_agent.Gateway.Solana.Loose.{authorize_and_execute-Keeps}
use solana_agent.Gateway.Solana.Disjoint.{AreDisjoint, HasDisjoint-IsQuiet, HasDisjoint-IsLoose}
use solana_agent.Gateway.Solana.Sent.{sends}
use solana_agent.Gateway.Solana.Calls.{Sent-IsQuiet}
use solana_agent.Gateway.Solana.Single.{AreUnique, AreBacked, IsSingle, IsSingle-IsQuiet}
use solana_agent.Gateway.Solana.Single.Execute.{authorize_and_execute-IsSingle}

-- The payload of each command.
pub data Command : Type 0 where
  to_prepare to_execute to_status to_recover to_evidence : Fields → Command

module _ (lib : Library) where
  unfoldable pub run : SolanaBackend → Command → World → World
  run b (to_prepare payload) w = (prepare lib b payload w).1
  run b (to_execute payload) w = (authorize_and_execute lib b payload w).1
  run b (to_status payload) w = (status lib b payload w).1
  run b (to_recover payload) w = (recover lib b payload w).1
  run b (to_evidence payload) w = (evidence lib b payload w).1

  pub data Runs (w : World) : World → Type 0 where
    start : Runs w w
    next : {v : World} → Runs w v → (b : SolanaBackend) (c : Command) → Runs w (run b c v)

  module _ {P : World → Type 0} (quiet : IsQuiet P)
      (executes : (b : SolanaBackend) (payload : Fields)
        → Keeps P (authorize_and_execute lib b payload)) where
    run-keeps : (b : SolanaBackend) (c : Command) (w : World) → P w → P (run b c w)
    unfolding run
    run-keeps b (to_prepare payload) w h = (prepare-Keeps quiet lib b payload).at w h
    run-keeps b (to_execute payload) w h = (executes b payload).at w h
    run-keeps b (to_status payload) w h = (status-Keeps quiet lib b payload).at w h
    run-keeps b (to_recover payload) w h = (recover-Keeps quiet lib b payload).at w h
    run-keeps b (to_evidence payload) w h = (evidence-Keeps quiet lib b payload).at w h

    Runs-keeps : {w v : World} → Runs w v → P w → P v
    Runs-keeps start h = h
    Runs-keeps (next runs b c) h = run-keeps b c _ (Runs-keeps runs h)

  Runs-IsSingle : {w v : World} → Runs w v → IsSingle w → IsSingle v
  Runs-IsSingle runs h = Runs-keeps IsSingle-IsQuiet (authorize_and_execute-IsSingle lib) runs h

  -- From a world where the RPC was asked to send nothing, and no two attempts share their request or
  -- their authorization, every sequence of commands leads to a world where no two attempts do, and
  -- where each `sendTransaction` request that the RPC received asks to send, once and after its
  -- preflight, the transaction of an attempt of its own: so no two of them are for one execution request
  -- or for one authorization, whatever the RPC and the verifier answer, and wherever the processes that
  -- handle the commands die.
  pub broadcasts-AreSingle :
      {w v : World}
      → AreUnique w.attempts
      → sends w.posted ≡ []
      → Runs w v
      → AreUnique v.attempts × AreBacked (sends v.posted) v.attempts
  broadcasts-AreSingle {w} unique empty runs =
      let single = Runs-IsSingle runs (record { unique = unique; backed = rw empty tt }) in
      (single.unique, single.backed)

  -- From a store whose preparations are of different requests, and of which no two active ones are of
  -- one obligation, every sequence of commands leads to such a store.
  pub preparations-AreDisjoint :
      {w v : World} → AreDisjoint w.preparations → Runs w v → AreDisjoint v.preparations
  preparations-AreDisjoint disjoint runs =
      Runs-keeps HasDisjoint-IsQuiet
        (authorize_and_execute-Keeps HasDisjoint-IsQuiet HasDisjoint-IsLoose lib) runs disjoint

  -- `prepare`, `status`, `recover` and `evidence` make no `sendTransaction` request to the RPC, whether
  -- they return, raise or die.
  pub inspect-broadcasts :
      (b : SolanaBackend) (payload : Fields) (w : World)
      → (sends (prepare lib b payload w).1.posted ≡ sends w.posted)
        × (sends (status lib b payload w).1.posted ≡ sends w.posted)
        × (sends (recover lib b payload w).1.posted ≡ sends w.posted)
        × (sends (evidence lib b payload w).1.posted ≡ sends w.posted)
  inspect-broadcasts b payload w = (
    (prepare-Keeps (Sent-IsQuiet (sends w.posted)) lib b payload).at w refl,
    (status-Keeps (Sent-IsQuiet (sends w.posted)) lib b payload).at w refl,
    (recover-Keeps (Sent-IsQuiet (sends w.posted)) lib b payload).at w refl,
    (evidence-Keeps (Sent-IsQuiet (sends w.posted)) lib b payload).at w refl,
  )
