-- ===== src/Bname/Tests.antt =====
-- The theorems on `/bin/ls`.
use c_osiris.Base.{ℕ, ◌≡◌, refl, List, [], ◌∷◌}
use c_osiris.Bname.{bname}

abbrev path : List ℕ
path = 47 ∷ 98 ∷ 105 ∷ 110 ∷ 47 ∷ 108 ∷ 115 ∷ []

cut : bname path ≡ (47 ∷ 98 ∷ 105 ∷ 110 ∷ [], 108 ∷ 115 ∷ [])
unfolding bname
cut = refl
