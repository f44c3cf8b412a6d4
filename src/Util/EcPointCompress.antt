-- ===== src/Util/EcPointCompress.antt =====
-- src/util/ec-point-compress.ts: arrays of bytes are lists of numbers below 256.
use operator_registry_contro.Prelude.{ℕ, ◌+◌, ◌%◌, List, [], ◌∷◌}

-- `y[y.length - 1] & 1`, which is 0 where there is no such byte
unfoldable pub parity : List ℕ → ℕ
parity [] = 0
parity (b ∷ []) = b % 2
parity (b ∷ c ∷ bs) = parity (c ∷ bs)

unfoldable pub ec_point_compress : List ℕ → List ℕ → List ℕ
unfolding parity
ec_point_compress x y = (2 + parity y) ∷ x
