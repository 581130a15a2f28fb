-- ===== src/History/Window.antt =====
-- MakeValidationWindow and MakeRange of pkg/eth/history/validation_window.go.
use vulcanize_db.Prelude.{◌≡◌, refl}
use vulcanize_db.Prelude.Int.{ℤ, ◌-ℤ◌, int_laws, eq_of_parts}
use vulcanize_db.Go.{ok}
use vulcanize_db.History.{ValidationWindow, size, make_validation_window}

sub-sub : (a b : ℤ) → a -ℤ (a -ℤ b) ≡ b
sub-sub a b = eq_of_parts (a -ℤ (a -ℤ b)) b (omega int_laws)

-- The window ends at the node's last block and has the size asked for.
make_validation_window-size :
    (last window_size : ℤ) (window : ValidationWindow)
    → make_validation_window (ok last) window_size ≡ ok window
    → (window.upper_bound ≡ last) × (size window ≡ window_size)
unfolding make_validation_window size
make_validation_window-size last window_size window h =
    let same : record { lower_bound = last -ℤ window_size; upper_bound = last } ≡ window = cc in
    rw (← same) (refl, sub-sub last window_size)
