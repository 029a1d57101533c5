-- ===== src/Consensus/Rewards.antt =====
-- `finalize` of ethereum/pow/consensus.py: the rewards of a block.
use native.Mathlib.Nat.{mul-le-mul_left}
use shopper.Prelude.{
  ℕ, ◌+◌, ◌-◌, ◌*◌, ◌/◌, ◌≤◌, ◌<◌, ◌≡◌, refl, ap, ◌∙◌, leb, ◌==◌, if◌then◌else◌, List, [], ◌∷◌,
  length, ℤ, pos, pos_part, neg_part, floor_div, sub_ℕ, ◌+ℤ◌, ◌*ℤ◌, arith,
}
use shopper.Dict.{erase}
use shopper.Config.{Config}
use shopper.Block.{Header}
use shopper.State.{
  Address, State, Vars, set_and_journal, put_account, Account, account, is_metropolis,
}
use shopper.State.Ops.{delta_balance, set_balance}
use shopper.State.Transfer.{balance-delta_balance}
use shopper.Consensus.{Block}

abbrev pub block_reward_of : State → ℕ
block_reward_of s =
    if is_metropolis s then s.config.byzantium_block_reward else s.config.block_reward

abbrev pub nephew_reward_of : State → ℕ
nephew_reward_of s =
    if is_metropolis s then s.config.byzantium_nephew_reward else s.config.nephew_reward

-- `int(br * (udpf + uncle.number - state.block_number) // udpf)`
unfoldable pub uncle_reward : ℕ → ℕ → ℕ → ℕ → ℤ
uncle_reward reward penalty_factor number block_number =
    floor_div (pos reward *ℤ sub_ℕ (penalty_factor + number) block_number) penalty_factor

-- `for uncle in block.uncles: ...`
unfoldable pub reward_uncles : ℕ → List Header → State → State
reward_uncles reward [] s = s
reward_uncles reward (uncle ∷ uncles) s = reward_uncles reward uncles (
    delta_balance uncle.coinbase
      (uncle_reward reward s.config.uncle_depth_penalty_factor uncle.number s.block_number) s)

-- Uncles too old to matter are forgotten.
unfoldable pub forget_uncles : State → State
forget_uncles s =
    let depth = s.config.max_uncle_depth in
    if leb depth s.block_number
    then record s {
      vars = record s.vars { recent_uncles = erase (s.block_number - depth) s.recent_uncles };
    }
    else s

unfoldable pub finalize : Block → State → State
finalize block s =
    let delta = block_reward_of s + nephew_reward_of s * length block.uncles in
    forget_uncles (
      reward_uncles (block_reward_of s) block.uncles (delta_balance s.block_coinbase (pos delta) s))

product_pos : (a b : ℕ) → pos a *ℤ pos b ≡ pos (a * b)
unfolding ◌*ℤ◌
product_pos a b = ground arith

uncle_reward-value :
    (reward number block_number : ℕ)
    → block_number ≤ number + 6
    → uncle_reward reward 8 number block_number ≡ pos (reward * (8 + number - block_number) / 8)
unfolding uncle_reward
uncle_reward-value reward number block_number le =
    let factor : sub_ℕ (8 + number) block_number ≡ pos (8 + number - block_number) = ground arith in
    ap (λ f. floor_div (pos reward *ℤ f) 8) factor
    ∙ ap (λ p. floor_div p 8) (product_pos reward (8 + number - block_number))

-- An uncle of one of the last six blocks, at a penalty factor of eight, gets at least a quarter of
-- the reward of a block, rounded down, and at most seven eighths of it.
pub uncle_reward-bounds :
    (reward number block_number : ℕ)
    → number < block_number
    → block_number ≤ number + 6
    → (neg_part (uncle_reward reward 8 number block_number) ≡ 0)
      × (reward / 4 ≤ pos_part (uncle_reward reward 8 number block_number))
      × (8 * pos_part (uncle_reward reward 8 number block_number) ≤ 7 * reward)
uncle_reward-bounds reward number block_number lt le =
    let k = 8 + number - block_number in
    let enough : 2 ≤ k = omega arith in
    let few : k ≤ 7 = omega arith in
    let low = mul-le-mul_left reward enough in
    let high = mul-le-mul_left reward few in
    rw (uncle_reward-value reward number block_number le)
      (refl, omega (arith, low), omega (arith, high))

-- What an account is paid, from the number of the block.
abbrev pub paid_for : ℕ → ℕ → ℕ → Address → List Header → ℤ → ℤ
paid_for reward factor block_number a [] v = v
paid_for reward factor block_number a (u ∷ us) v =
    paid_for reward factor block_number a us
      (if a == u.coinbase then v +ℤ uncle_reward reward factor u.number block_number else v)

-- What a payment leaves as it was.
delta_balance-vars : (a : Address) (v : ℤ) (s : State) → (delta_balance a v s).vars ≡ s.vars
unfolding delta_balance set_balance set_and_journal put_account
delta_balance-vars a v s = refl

delta_balance-config : (a : Address) (v : ℤ) (s : State) → (delta_balance a v s).config ≡ s.config
unfolding delta_balance set_balance set_and_journal put_account
delta_balance-config a v s = refl

balance-reward_uncles :
    (reward : ℕ) (config : Config) (vars : Vars) (a : Address) (us : List Header) (s : State)
    → s.config ≡ config
    → s.vars ≡ vars
    → (account a (reward_uncles reward us s)).balance
      ≡ paid_for reward config.uncle_depth_penalty_factor vars.block_number a us
          (account a s).balance
unfolding reward_uncles
balance-reward_uncles reward config vars a [] s hc hv = refl
balance-reward_uncles reward config vars a (u ∷ us) s hc hv =
    let factor = config.uncle_depth_penalty_factor in
    let due = uncle_reward reward s.config.uncle_depth_penalty_factor u.number s.block_number in
    let due_same : due ≡ uncle_reward reward factor u.number vars.block_number =
      ap (λ (c : Config). uncle_reward reward c.uncle_depth_penalty_factor u.number s.block_number)
        hc
      ∙ ap (λ (w : Vars). uncle_reward reward factor u.number w.block_number) hv in
    let s1 = delta_balance u.coinbase due s in
    balance-reward_uncles reward config vars a us s1 (delta_balance-config u.coinbase due s ∙ hc)
      (delta_balance-vars u.coinbase due s ∙ hv)
    ∙ ap (paid_for reward factor vars.block_number a us) (
        balance-delta_balance a u.coinbase due s
        ∙ ap (λ r. if a == u.coinbase then (account a s).balance +ℤ r else (account a s).balance)
            due_same)

account-forget_uncles : (a : Address) (s : State) → account a (forget_uncles s) ≡ account a s
unfolding forget_uncles account
account-forget_uncles a s = ground arith

-- After the end of a block every account has what it had, and what it is paid: the coinbase the
-- reward of the block and one for each uncle, and the coinbase of each uncle its reward, by its
-- number. The rewards are those of the fork that the block is in.
pub balance-finalize :
    (block : Block) (a : Address) (s : State)
    → (account a (finalize block s)).balance
      ≡ paid_for
          (block_reward_of s)
          s.config.uncle_depth_penalty_factor
          s.block_number
          a
          block.uncles
          (if a == s.block_coinbase
            then (account a s).balance
              +ℤ pos (block_reward_of s + nephew_reward_of s * length block.uncles)
            else (account a s).balance)
unfolding finalize
balance-finalize block a s =
    let delta = block_reward_of s + nephew_reward_of s * length block.uncles in
    let s1 = delta_balance s.block_coinbase (pos delta) s in
    let reward = block_reward_of s in
    ap (λ (x : Account). x.balance) (account-forget_uncles a (reward_uncles reward block.uncles s1))
    ∙ balance-reward_uncles reward s.config s.vars a block.uncles s1
        (delta_balance-config s.block_coinbase (pos delta) s)
        (delta_balance-vars s.block_coinbase (pos delta) s)
    ∙ ap (paid_for reward s.config.uncle_depth_penalty_factor s.block_number a block.uncles)
        (balance-delta_balance a s.block_coinbase (pos delta) s)
