-- ===== src/Decimal/Tests.antt =====
-- Values that Python prints for the same expressions.
use finsport.Prelude.{◌≡◌, refl, some, none, pos, negsuc}
use finsport.Decimal.{whole, add, sub, div, quotient, ceiling}

third :
    div (whole 1) (whole 3)
    ≡ some (record { coefficient = pos 3333333333333333333333333333; scale = 28 })
unfolding div quotient
third = refl

two_thirds :
    div (whole 2) (whole 3)
    ≡ some (record { coefficient = pos 6666666666666666666666666667; scale = 28 })
unfolding div quotient
two_thirds = refl

ratio :
    div (whole 1) (record { coefficient = pos 135; scale = 2 })
    ≡ some (record { coefficient = pos 7407407407407407407407407407; scale = 28 })
unfolding div quotient
ratio = refl

by_zero : div (whole 1) (whole 0) ≡ none
unfolding div quotient
by_zero = refl

difference :
    sub (whole 1) (record { coefficient = pos 35; scale = 1 })
    ≡ record { coefficient = negsuc 24; scale = 1 }
unfolding sub
difference = refl

-- 10 ^ 28 + 0.5 is a tie between two whole numbers, and the even one is kept.
tie :
    add (whole 10000000000000000000000000000) (record { coefficient = pos 5; scale = 1 })
    ≡ whole 10000000000000000000000000000
unfolding add
tie = refl

up : ceiling (record { coefficient = pos 21; scale = 1 }) ≡ whole 3
unfolding ceiling
up = refl

down :
    ceiling (record { coefficient = negsuc 20; scale = 1 })
    ≡ record { coefficient = negsuc 1; scale = 0 }
unfolding ceiling
down = refl
