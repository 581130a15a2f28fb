-- ===== src/History/Tests.antt =====
-- A node that answers with an error, and one at block 100.
use vulcanize_db.Prelude.{◌≡◌, refl, [], ◌∷◌}
use vulcanize_db.Prelude.Int.{pos, ◌+ℤ◌, ◌-ℤ◌}
use vulcanize_db.Go.{ok}
use vulcanize_db.History.{make_range}

range : make_range (pos 3) (pos 5) ≡ ok (pos 3 ∷ pos 4 ∷ pos 5 ∷ [])
unfolding make_range ◌+ℤ◌ ◌-ℤ◌
range = refl
