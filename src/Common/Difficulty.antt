-- ===== src/Common/Difficulty.antt =====
-- The difficulty adjustment of ethereum/common.py. `blank_uncles_hash` is `sha3(rlp.encode([]))`.
use native.Mathlib.Nat.{mul-le-mul_left}
use shopper.Prelude.{
  ℕ, suc, ◌+◌, ◌-◌, ◌/◌, ◌^◌, ◌≤◌, min, max, Bool, true, false, arith, leb, ◌==◌, if◌then◌else◌, ℤ,
  pos, negsuc, ◌+ℤ◌, ◌-ℤ◌, ◌*ℤ◌, ◌≤ℤ◌, pos_part, sub_ℕ, leb_ℤ, ltb_ℤ, max_ℤ, floor_div, +ℤ_parts,
  -ℤ_parts, pos_part_mono,
}
use shopper.Config.{Config}
use shopper.Block.{Header}

-- The sign that a rule gives for the time since the parent: `max(base - time // cutoff, -99)`.
unfoldable pub adjustment : ℕ → ℤ → ℕ → ℤ
adjustment base elapsed cutoff = max_ℤ (pos base -ℤ floor_div elapsed cutoff) (negsuc 98)

div_mono : (a b d : ℕ) → a ≤ b → a / d ≤ b / d
div_mono a b d h = grind arith

floor_div_mono : (a b : ℤ) (d : ℕ) → a ≤ℤ b → floor_div a d ≤ℤ floor_div b d
floor_div_mono (pos a) (pos b) d h = omega (arith, div_mono a b d (omega arith))
floor_div_mono (pos a) (negsuc b) d h = absurd (omega arith)
floor_div_mono (negsuc a) (pos b) d h = omega arith
floor_div_mono (negsuc a) (negsuc b) d h = omega (arith, div_mono b a d (omega arith))

-- More time gives a lower sign.
adjustment_antitone :
    (base : ℕ) (e f : ℤ) (cutoff : ℕ)
    → e ≤ℤ f
    → adjustment base f cutoff ≤ℤ adjustment base e cutoff
unfolding adjustment
adjustment_antitone base e f cutoff h = ground (
  arith,
  floor_div_mono e f cutoff h,
  -ℤ_parts (pos base) (floor_div e cutoff),
  -ℤ_parts (pos base) (floor_div f cutoff),
)

le_of_parts : (s t : ℕ) → pos s ≤ℤ pos t → s ≤ t
le_of_parts s t h = omega arith

le_of_neg_parts : (s t : ℕ) → negsuc t ≤ℤ negsuc s → suc s ≤ suc t
le_of_neg_parts s t h = omega arith

*ℤ_mono : (n : ℕ) (s t : ℤ) → s ≤ℤ t → pos n *ℤ s ≤ℤ pos n *ℤ t
unfolding ◌*ℤ◌
*ℤ_mono n (pos s) (pos t) h = ground (arith, mul-le-mul_left n (le_of_parts s t h))
*ℤ_mono n (pos s) (negsuc t) h = absurd (omega arith)
*ℤ_mono n (negsuc s) (pos t) h = ground arith
*ℤ_mono n (negsuc s) (negsuc t) h = ground (arith, mul-le-mul_left n (le_of_neg_parts t s h))

sub_ℕ_mono : (a b c : ℕ) → a ≤ b → sub_ℕ a c ≤ℤ sub_ℕ b c
sub_ℕ_mono a b c h = ground arith

if_mono :
    (c : Bool) (a b a' b' : ℤ) → a ≤ℤ b → a' ≤ℤ b' → (if c then a else a') ≤ℤ (if c then b else b')
if_mono true a b a' b' h h' = h
if_mono false a b a' b' h h' = h'

frontier_antitone :
    (e f : ℤ) (cutoff : ℕ)
    → e ≤ℤ f
    → (if ltb_ℤ f (pos cutoff) then pos 1 else negsuc 0)
      ≤ℤ (if ltb_ℤ e (pos cutoff) then pos 1 else negsuc 0)
frontier_antitone e f cutoff h = ground arith

module _ (blank_uncles_hash : ℕ) where
  unfoldable pub difficulty_sign : Header → ℕ → Config → ℤ
  unfolding adjustment
  difficulty_sign parent timestamp config =
      let elapsed = sub_ℕ timestamp parent.timestamp in
      if leb (config.metropolis_fork_blknum - 1) parent.number
      then adjustment (if parent.uncles_hash == blank_uncles_hash then 1 else 2) elapsed
          config.metropolis_diff_adjustment_cutoff
      else if leb (config.homestead_fork_blknum - 1) parent.number
      then adjustment 1 elapsed config.homestead_diff_adjustment_cutoff
      else if ltb_ℤ elapsed (pos config.diff_adjustment_cutoff)
      then pos 1
      else negsuc 0

  -- `max(d + offset * sign, floor)` for a floor that is a number, so that the result is one.
  unfoldable pub adjusted : ℕ → ℕ → ℤ → ℕ → ℕ
  adjusted d offset sign floor = max (pos_part (pos d +ℤ pos offset *ℤ sign)) floor

  -- The number of bomb periods, which the Metropolis delay may take below zero.
  unfoldable pub period_count : Header → Config → ℤ
  period_count parent config =
      let periods = (parent.number + 1) / config.expdiff_period in
      if leb (config.metropolis_fork_blknum - 1) parent.number
      then sub_ℕ periods config.metropolis_delay_periods
      else pos periods

  unfoldable pub calc_difficulty : Header → ℕ → Config → ℕ
  calc_difficulty parent timestamp config =
      let offset = parent.difficulty / config.block_diff_factor in
      let sign = difficulty_sign parent timestamp config in
      let o = adjusted parent.difficulty offset sign (min parent.difficulty config.min_diff) in
      let periods = period_count parent config in
      if parent.difficulty == 1
      then 1
      else if leb_ℤ (pos config.expdiff_free_periods) periods
      then max (o + 2 ^ pos_part (periods -ℤ pos config.expdiff_free_periods)) config.min_diff
      else o

  -- On every branch the difficulty stays at or above the configured minimum, or above the
  -- parent's where that is lower.
  pub calc_difficulty_floor :
      (parent : Header) (timestamp : ℕ) (config : Config)
      → min parent.difficulty config.min_diff ≤ calc_difficulty parent timestamp config
  unfolding calc_difficulty adjusted
  calc_difficulty_floor parent timestamp config = ground arith

  difficulty_sign_mono :
      (parent : Header) (t u : ℕ) (config : Config)
      → t ≤ u
      → difficulty_sign parent u config ≤ℤ difficulty_sign parent t config
  unfolding difficulty_sign
  difficulty_sign_mono parent t u config le =
      let e = sub_ℕ t parent.timestamp in
      let f = sub_ℕ u parent.timestamp in
      let later : e ≤ℤ f = sub_ℕ_mono t u parent.timestamp le in
      if_mono (leb (config.metropolis_fork_blknum - 1) parent.number) _ _ _ _
        (adjustment_antitone _ e f config.metropolis_diff_adjustment_cutoff later)
        (if_mono (leb (config.homestead_fork_blknum - 1) parent.number) _ _ _ _
          (adjustment_antitone 1 e f config.homestead_diff_adjustment_cutoff later)
          (frontier_antitone e f config.diff_adjustment_cutoff later))

  adjusted_mono :
      (d offset floor : ℕ) (s t : ℤ)
      → s ≤ℤ t
      → adjusted d offset s floor ≤ adjusted d offset t floor
  unfolding adjusted
  adjusted_mono d offset floor s t le =
      let scaled = *ℤ_mono offset s t le in
      let summed : pos d +ℤ pos offset *ℤ s ≤ℤ pos d +ℤ pos offset *ℤ t =
        omega (arith, +ℤ_parts (pos d) (pos offset *ℤ s), +ℤ_parts (pos d) (pos offset *ℤ t)) in
      omega (arith, pos_part_mono (pos d +ℤ pos offset *ℤ s) (pos d +ℤ pos offset *ℤ t) summed)

  -- A block that comes later after the same parent is never harder.
  pub calc_difficulty_antitone :
      (parent : Header) (t u : ℕ) (config : Config)
      → t ≤ u
      → calc_difficulty parent u config ≤ calc_difficulty parent t config
  unfolding calc_difficulty
  calc_difficulty_antitone parent t u config le = ground (
    arith,
    adjusted_mono parent.difficulty (parent.difficulty / config.block_diff_factor)
        (min parent.difficulty config.min_diff) (difficulty_sign parent u config)
        (difficulty_sign parent t config) (difficulty_sign_mono parent t u config le),
  )
