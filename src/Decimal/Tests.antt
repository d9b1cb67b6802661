-- ===== src/Decimal/Tests.antt =====
-- Checked evaluations of the decimals, against the documented behaviour of `decimal`.
use self_learning_trading_ag.Base.{◌≡◌, refl, ◌^◌, some, none, true}
use self_learning_trading_ag.Int.{pos, negsuc}
use self_learning_trading_ag.Decimal.Defs.{of_int, zero_dec, add, sub, div, eq, quantize, decimals}

-- 1 / 3 has 28 threes.
third :
    div (of_int (pos 1)) (of_int (pos 3))
    ≡ some (record { coeff = pos 3333333333333333333333333333; scale = 28 })
unfolding decimals
third = refl

-- -2 / 3 is rounded away from zero at the 28th digit.
two_thirds :
    div (of_int (negsuc 1)) (of_int (pos 3))
    ≡ some (record { coeff = negsuc 6666666666666666666666666666; scale = 28 })
unfolding decimals
two_thirds = refl

cents :
    add (record { coeff = pos 10; scale = 2 }) (record { coeff = pos 2; scale = 1 })
    ≡ record { coeff = pos 30; scale = 2 }
unfolding decimals
cents = refl

absorbed : eq (sub (of_int (pos (10 ^ 30))) (of_int (pos 1))) (of_int (pos (10 ^ 30))) ≡ true
unfolding decimals
absorbed = refl

tie_to_even : quantize 0 (record { coeff = pos 25; scale = 1 }) ≡ some (of_int (pos 2))
unfolding decimals
tie_to_even = refl

by_zero : div (of_int (pos 1)) zero_dec ≡ none
unfolding decimals
by_zero = refl
