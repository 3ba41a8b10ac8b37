-- ===== src/Example/Trials.antt =====
-- The theorems on the programs of CinderUserspace/cinder_validation, at concrete inputs.
use cinder_userspace.Base.{ℕ, ◌+◌, ◌≡◌, ◌≤◌, refl, List, [], ◌∷◌, arith, some, Bool, ltb}
use cinder_userspace.Base.Int.{pos}
use cinder_userspace.Base.Text.{codes}
use cinder_userspace.Store.{Returns}
use cinder_userspace.Console.Reserves
use cinder_userspace.Validation.Subdivide
use cinder_userspace.Validation.Subdivide.{
  Arguments, proportion, create_pair, main_reserve_name, main_tap_name, root_reserve_id,
}
use cinder_userspace.Validation.Subdivide.Shares.{IsNear, proportion_bounds}
use cinder_userspace.Validation.Subdivide.Ends as SubdivideEnds
use cinder_userspace.Validation.Subdivide.Threads.{Counted, test_method-Counted}
use cinder_userspace.Validation.Fork
use cinder_userspace.Validation.Fork.Ends as ForkEnds
use cinder_userspace.Validation.Plumbing.Reserves as Tested
use cinder_userspace.Validation.Plumbing.Taps as TestedTaps
use cinder_userspace.Validation.Plumbing.Commands
use cinder_userspace.Validation.Plumbing.Agrees.{Alike, handlers-Alike}
use cinder_userspace.Example.{calm, start}

-- A quotient that a double rounds down loses a percent.
share_29 : proportion 29 100 ≡ 28
unfolding proportion
share_29 = refl

proportion_bounds_example :
    IsNear 29 100
    × IsNear 29 100
    × IsNear 42 100
    × (proportion 29 100 + proportion 29 100 + proportion 42 100 ≤ 100)
    × (95 ≤ proportion 29 100 + proportion 29 100 + proportion 42 100)
proportion_bounds_example = proportion_bounds 29 29 42 (omega arith) (omega arith)

weights : Arguments
weights = record {
  overall_tap_rate = pos 500;
  weight_a = 1;
  weight_b = 1;
  weight_c = 2;
  runtime_seconds = 10;
}

divided : List (List ℕ)
divided = codes "t" ∷ codes "500" ∷ codes "1" ∷ codes "1" ∷ codes "2" ∷ codes "10" ∷ []

divided_valid : Subdivide.read_arguments divided ≡ some weights
unfolding divided weights Subdivide.read_arguments
divided_valid = refl

main_divides_example :
    Returns (SubdivideEnds.Ended weights start) (Subdivide.main calm divided start)
unfolding weights
main_divides_example =
    SubdivideEnds.main_divides calm divided weights start divided_valid (omega arith) (omega arith)

-- The flag is unset in the fourth round.
three_rounds : ℕ → Bool
three_rounds i = ltb i 3

test_method-Counted_example :
    Returns (Counted 3 (pos 7) start) (Subdivide.test_method calm 10 three_rounds (pos 7) start)
unfolding three_rounds
test_method-Counted_example =
    test_method-Counted calm three_rounds 10 3 (pos 7) start (λ i h. ground (arith, h)) refl
      (omega arith)

-- The child counts to 250.
counting : List (List ℕ)
counting = codes "t" ∷ codes "500" ∷ codes "250" ∷ []

counting_valid : Fork.read_arguments counting ≡ some (pos 500, 250)
unfolding counting Fork.read_arguments
counting_valid = refl

main_forks_example : Returns (ForkEnds.Ended 250 (pos 500) start) (Fork.main calm counting start)
main_forks_example = ForkEnds.main_forks calm counting (pos 500) 250 start counting_valid

answers : List ℕ
answers = codes "share\n3\n900\ny\nn\n"

handlers-Alike_example :
    Alike
      (Reserves.handle_create_reserve calm answers start)
      (Tested.handle_create_reserve calm answers start)
    × Alike
        (Reserves.handle_create_tap calm answers start)
        (TestedTaps.handle_create_tap calm answers start)
    × Alike
        (Reserves.handle_reserve_transfer calm answers start)
        (Tested.handle_reserve_transfer calm answers start)
    × Alike
        (Reserves.handle_info_reserve calm answers start)
        (Tested.handle_info_reserve calm answers start)
    × Alike
        (Reserves.handle_reserve_level calm answers start)
        (Tested.handle_reserve_level calm answers start)
    × Alike
        (Reserves.handle_tap_set_rate calm answers start)
        (TestedTaps.handle_tap_set_rate calm answers start)
    × Alike
        (Reserves.handle_expose_reserve calm answers start)
        (Tested.handle_expose_reserve calm answers start)
    × Alike
        (Reserves.handle_put_reserve calm answers start)
        (Tested.handle_put_reserve calm answers start)
    × Alike
        (Reserves.handle_info_tap calm answers start)
        (TestedTaps.handle_info_tap calm answers start)
    × Alike
        (Reserves.handle_delete_tap calm answers start)
        (TestedTaps.handle_delete_tap calm answers start)
handlers-Alike_example = handlers-Alike calm answers start
