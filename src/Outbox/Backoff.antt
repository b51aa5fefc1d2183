-- ===== src/Outbox/Backoff.antt =====
-- The delay before an event is tried again.
use stablecoin_gateway.Prelude.{
  ℕ, zero, suc, ◌+◌, ◌-◌, ◌*◌, ◌/◌, ◌^◌, ◌≤◌, ◌≡◌, refl, sym, ap, ◌∙◌, ◌⊎◌, inl, inr, arith, ltb,
  leb, pos, Bool-cases, leb→le,
}
use stablecoin_gateway.Outbox.Processor.{Config, backoff_loop, retry_backoff}

-- `delay` is the backoff doubled `rounds` times, or the limit, which the doubling reaches within 1.
abbrev pub IsDelay : ℕ → ℕ → ℕ → ℕ → Type 0
IsDelay max base rounds delay =
    (base ≤ delay)
    × (delay ≤ max)
    × ((delay ≡ base * 2 ^ rounds) ⊎ (delay ≡ max) × (max ≤ base * 2 ^ rounds + 1))

pow_pos : (n : ℕ) → 1 ≤ 2 ^ n
pow_pos zero = ground arith
pow_pos (suc n) = omega (arith, pow_pos n)

regroup : (base k : ℕ) → base * 2 * k ≡ base * (2 * k)
regroup base k = grind arith

pow-suc : (n : ℕ) → 2 * 2 ^ n ≡ 2 ^ suc n
pow-suc n = omega arith

doubled : (base n : ℕ) → base * 2 * 2 ^ n ≡ base * 2 ^ suc n
doubled base n = regroup base (2 ^ n) ∙ ap (λ k. base * k) (pow-suc n)

mul_grows : (base n : ℕ) → 1 ≤ n → base ≤ base * n
mul_grows base zero h = omega arith
mul_grows base (suc n) h = omega arith

backoff_loop-IsDelay :
    (max base rounds : ℕ) → base ≤ max → IsDelay max base rounds (backoff_loop max base rounds)
unfolding backoff_loop
backoff_loop-IsDelay max base zero h = elim (Bool-cases (ltb max base)) [
  | inl over ↦ ground arith
  | inr fits ↦ rw (fits, backoff_loop) (omega arith, h, inl (omega arith))
]
backoff_loop-IsDelay max base (suc rounds) h = elim (Bool-cases (leb (max / 2) base)) [
  | inl near ↦
      let grows = mul_grows (base * 2) (2 ^ rounds) (pow_pos rounds) in
      let half = leb→le (max / 2) base near in
      rw (near, backoff_loop)
        (h, omega arith, inr (refl, omega (arith, grows, half, doubled base rounds)))
  | inr far ↦
      let fits : base * 2 ≤ max = ground arith in
      let (low, high, exact) = backoff_loop-IsDelay max (base * 2) rounds fits in
      rw (far, backoff_loop) (omega (arith, low), high, rw (sym (doubled base rounds)) exact)
]

-- The delay after a failed attempt lies between the base and the limit of a checked
-- configuration. It is the base doubled once for every attempt after the first, or it is the
-- limit, and then that doubling reaches the limit, or misses it by 1.
pub retry_backoff-IsDelay :
    (config : Config) (base max attempts : ℕ)
    → config.base_backoff ≡ pos base
    → config.max_backoff ≡ pos max
    → base ≤ max
    → IsDelay max base (attempts - 1) (retry_backoff config attempts)
unfolding retry_backoff
retry_backoff-IsDelay config base max attempts eb em h =
    rw (eb, em) (backoff_loop-IsDelay max base (attempts - 1) h)
