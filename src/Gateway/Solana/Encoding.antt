-- ===== src/Gateway/Solana/Encoding.antt =====
-- The amount of a transfer, from the request to the bytes of the instruction
-- (gateway/solana_prepare.py).
use solana_agent.Prelude.{
  ℕ, zero, suc, ◌+◌, ◌*◌, ◌/◌, ◌^◌, ◌≤◌, ◌<◌, ◌++◌, Option, none, some, [], ◌∷◌, ◌≡◌, refl, All,
  length, leb, arith, Bool-cases, inl, inr,
}
use solana_agent.Prelude.Int.{pos}
use solana_agent.Json.{Json, Fields}
use solana_agent.Gateway.Solana.{World, Raised, ok}
use solana_agent.Gateway.Solana.Library.{Library, Bytes}
use solana_agent.Gateway.Solana.Payload.{
  PrepareInput, Plan, bounded_item, amount_item, u64_max, require_asset, require_plan,
  validate_prepare_payload,
}
use solana_agent.Gateway.Solana.Prepare.{little_endian, transfer_data}
use solana_agent.Gateway.Solana.Calls.{
  Yields, Yields-pure, Yields-raise, Yields-require, Yields-bind, Yields-skip,
}

-- The number that bytes stand for, least significant first.
pub number_of : Bytes → ℕ
number_of [] = 0
number_of (b ∷ bs) = b + 256 * number_of bs

length-little_endian : (k n : ℕ) → length (little_endian k n) ≡ k
unfolding little_endian
length-little_endian zero n = refl
length-little_endian (suc k) n = omega (arith, length-little_endian k (n / 256))

little_endian-All : (k n : ℕ) → All (λ b. b < 256) (little_endian k n)
unfolding little_endian
little_endian-All zero n = tt
little_endian-All (suc k) n = (omega arith, little_endian-All k (n / 256))

number_of-little_endian : (k n : ℕ) → n < 256 ^ k → number_of (little_endian k n) ≡ n
unfolding little_endian number_of
number_of-little_endian zero n h = omega arith
number_of-little_endian (suc k) n h =
    omega (arith, number_of-little_endian k (n / 256) (omega (arith, h)))

bounded_item-Yields :
    (bound : ℕ) (e : Raised) (v : Option Json) → Yields (λ n. n ≤ bound) (bounded_item bound e v)
unfolding bounded_item
bounded_item-Yields bound e none = Yields-raise _
bounded_item-Yields bound e (some (Json.number (pos n))) = elim (Bool-cases (leb n bound)) [
  | inl small ↦ rw small (Yields-pure n (ground (arith, small)))
  | inr large ↦ rw large (Yields-raise _)
]
bounded_item-Yields bound e (some _) = Yields-raise _

amount_item-Yields : (v : Option Json) → Yields (λ n. n ≤ u64_max) (amount_item v)
unfolding amount_item
amount_item-Yields none = Yields-raise _
amount_item-Yields (some (Json.text s)) = Yields-skip _ _ (λ u.
    Yields-skip _ _ (λ u.
      Yields-bind _ _ (Yields-require _ _) (λ u small. Yields-pure _ (ground (arith, small)))))
amount_item-Yields (some _) = Yields-raise _

record IsBounded (p : Plan) : Type 0 where
  amount : p.amount ≤ u64_max
  decimals : p.decimals ≤ 18

module _ (lib : Library) where
  require_asset-Yields : (v : Option Json) → Yields (λ r. r.1 ≤ 18) (require_asset lib v)
  unfolding require_asset
  require_asset-Yields v = Yields-skip _ _ (λ asset.
      Yields-skip _ _
        (λ u. Yields-bind _ _ (bounded_item-Yields _ _ _) (λ decimals small. Yields-pure _ small)))

  require_plan-Yields : (now : ℕ) (plan : Fields) → Yields IsBounded (require_plan lib now plan)
  unfolding require_plan
  require_plan-Yields now plan = Yields-skip _ _ (λ u. Yields-skip _ _ (λ u.
      Yields-skip _ _ (λ obligation. Yields-bind _ _ (require_asset-Yields _) (λ r decimals.
        Yields-skip _ _ (λ u. Yields-skip _ _ (λ asset. Yields-skip _ _ (λ u. Yields-skip _ _ (λ u.
          Yields-skip _ _ (λ u. Yields-bind _ _ (amount_item-Yields _) (λ amount small.
            Yields-skip _ _ (λ expires_at.
              Yields-skip _ _
                (λ u. Yields-pure _ (record { amount = small; decimals = decimals })))))))))))))

  validate_prepare_payload-Yields :
      (now : ℕ) (payload : Fields)
      → Yields (λ input. IsBounded input.plan) (validate_prepare_payload lib now payload)
  unfolding validate_prepare_payload
  validate_prepare_payload-Yields now payload = Yields-skip _ _ (λ u. Yields-skip _ _ (λ request.
      Yields-skip _ _ (λ context. Yields-skip _ _ (λ u. Yields-skip _ _ (λ u. Yields-skip _ _ (λ id.
        Yields-skip _ _ (λ u. Yields-skip _ _ (λ plan_dict.
          Yields-bind _ _ (require_plan-Yields now plan_dict) (λ plan bounded.
            Yields-skip _ _ (λ plan_hash.
              Yields-skip _ _
                (λ u. Yields-skip _ _ (λ u. Yields-skip _ _ (λ c. Yields-pure _ bounded)))))))))))))

  -- The data of the instruction for a payload that passes validation is the byte 12, eight bytes that
  -- stand for the amount of the plan, and the number of decimals, all of them bytes.
  pub transfer_data-encodes :
      (now : ℕ) (payload : Fields) (w : World) (input : PrepareInput)
      → (validate_prepare_payload lib now payload w).0 ≡ ok input
      → (amount : Bytes) × (transfer_data input.plan.amount input.plan.decimals
          ≡ 12 ∷ amount ++ input.plan.decimals ∷ [])
        × (length amount ≡ 8)
        × All (λ b. b < 256) amount
        × (number_of amount ≡ input.plan.amount)
        × (input.plan.decimals < 256)
  unfolding transfer_data
  transfer_data-encodes now payload w input done =
      let bounded = (validate_prepare_payload-Yields now payload).at w input done in
      let fits : input.plan.amount < 256 ^ 8 = omega (arith, bounded.amount) in
      (
        little_endian 8 input.plan.amount,
        refl,
        length-little_endian 8 input.plan.amount,
        little_endian-All 8 input.plan.amount,
        number_of-little_endian 8 input.plan.amount fits,
        omega (arith, bounded.decimals),
      )
