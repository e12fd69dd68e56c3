-- ===== src/Contracts/Command/Paths.antt =====
-- Which statuses a command can pass through (solana_agent/contracts/command.py).
use solana_agent.Prelude.{ℕ, suc, ◌+◌, ◌≤◌, ◌≡◌, ◌↔◌, ◌⊎◌, inl, inr, Bool, true, false, arith}
use solana_agent.Contracts.Command.{
  CommandStatus, planned, validating, approval_required, authorized, running, succeeded,
  interrupted, timed_out, status_eq, may_transition, is_terminal_command_status,
}

pub status_eq_sound : (a b : CommandStatus) → status_eq a b ≡ true → a ≡ b
unfolding status_eq
status_eq_sound a b h = ground arith

pub status_eq_refl : (a : CommandStatus) → status_eq a a ≡ true
unfolding status_eq
status_eq_refl a = ground arith

-- A path of `n` legal moves.
pub data PathTo (s : CommandStatus) : CommandStatus → ℕ → Type 0 where
  stay : PathTo s s 0
  move :
      {t u : CommandStatus} {n : ℕ} → PathTo s t n → may_transition t u ≡ true → PathTo s u (suc n)

-- How far along its life a command is.
abbrev stage : CommandStatus → ℕ
stage planned = 0
stage validating = 1
stage approval_required = 2
stage authorized = 3
stage running = 4
stage _ = 5

stage_lt : (t u : CommandStatus) → may_transition t u ≡ true → suc (stage t) ≤ stage u
unfolding may_transition
stage_lt t u h = ground arith

stage_le : {s t : CommandStatus} {n : ℕ} → PathTo s t n → stage s + n ≤ stage t
stage_le stay = omega arith
stage_le (move {t = t} {u = u} p h) = omega (arith, stage_le p, stage_lt t u h)

stage-le : (s : CommandStatus) → stage s ≤ 5
stage-le s = ground arith

-- No command makes more than five legal moves, whatever they are.
pub moves_bounded : {s t : CommandStatus} {n : ℕ} → PathTo s t n → n ≤ 5
moves_bounded {t} p = omega (arith, stage_le p, stage-le t)

-- A status is terminal exactly when no move leaves it.
pub terminal_iff :
    (s : CommandStatus)
    → (is_terminal_command_status s ≡ true) ↔ ((t : CommandStatus) → may_transition s t ≡ false)
unfolding is_terminal_command_status may_transition
terminal_iff s =
    (λ h t. ground arith, λ h. ground (arith, h validating, h authorized, h running, h succeeded))

-- A path meets a status at its start or after one of its moves.
abbrev pub Meets : {s t : CommandStatus} {n : ℕ} → CommandStatus → PathTo s t n → Type 0
Meets {s} a stay = s ≡ a
Meets a (move {u = u} p h) = Meets a p ⊎ (u ≡ a)

-- The statuses of a command whose executor has been called.
abbrev pub was_started : CommandStatus → Bool
was_started running = true
was_started succeeded = true
was_started interrupted = true
was_started timed_out = true
was_started _ = false

started_step :
    (t u : CommandStatus)
    → may_transition t u ≡ true
    → was_started u ≡ true
    → (was_started t ≡ true) ⊎ (t ≡ authorized)
unfolding may_transition
started_step t u h w = ground arith

Meets-end : {s t : CommandStatus} {n : ℕ} (p : PathTo s t n) (a : CommandStatus) → t ≡ a → Meets a p
Meets-end stay a e = e
Meets-end (move p h) a e = inr e

-- Every path from `planned` to a status that only a started command has meets `authorized`.
pub started_was_authorized :
    {t : CommandStatus} {n : ℕ} (p : PathTo planned t n) → was_started t ≡ true → Meets authorized p
started_was_authorized stay w = cc
started_was_authorized (move {t = t} {u = u} p h) w = elim (started_step t u h w) [
  | inl before ↦ inl (started_was_authorized p before)
  | inr now ↦ inl (Meets-end p authorized now)
]
