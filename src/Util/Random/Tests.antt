-- ===== src/Util/Random/Tests.antt =====
-- The generator at a concrete seed.
use tklb.Base.{◌≡◌, refl}
use tklb.Util.Random.{next, new}

next-123 : (next (new 123)).0 ≡ 440917656
unfolding next new
next-123 = refl
