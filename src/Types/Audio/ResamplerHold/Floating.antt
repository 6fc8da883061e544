-- ===== src/Types/Audio/ResamplerHold/Floating.antt =====
-- Floating point numbers as src/types/audio/resampler/TResamplerHold.hpp uses them.
use tklb.Base.{ℕ, ◌+◌, ◌*◌, ◌^◌, ◌≤◌, ◌<◌}

-- `double(a) / double(b)`, the product of an index and a number, and `tklb::round`, converted to an index.
pub record Doubles : Type 1 where
  pub Double : Type 0
  pub ratio : ℕ → ℕ → Double
  pub times : ℕ → Double → Double
  pub round : Double → ℕ

-- `k` is a whole number next to `m` times `a / b`: not more than one half away.
pub record IsNearest (a b m k : ℕ) : Type 0 where
  pub above : 2 * (m * a) ≤ 2 * (k * b) + b
  pub below : 2 * (k * b) ≤ 2 * (m * a) + b

-- What numbers of 53 bits give: the error of a quotient and a product is too small to leave the nearest whole
-- numbers, as long as the product of
-- the index and the first rate is below 2^50. The result fits an index, which the bound by 2^30 makes sure of.
pub record RoundsToNearest (f : Doubles) : Type 0 where
  pub nearest :
      (a b m : ℕ)
      → 0 < b
      → m * a < 2 ^ 50
      → m * a < b * 2 ^ 30
      → IsNearest a b m (f.round (f.times m (f.ratio a b)))
