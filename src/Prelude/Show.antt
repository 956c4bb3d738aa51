-- ===== src/Prelude/Show.antt =====
-- Numbers as decimal texts.
use Prim.Native.String
use Prim.Native.Nat.{ℕ, zero, suc, ◌/◌, ◌%◌}
use Prim.Native.String.{String}
use mathlib.Core.Path.{◌≡◌, refl}
use open_authority_trials_oa.Prelude.Tests.{ltb, eqb, if◌then◌else◌}

abbrev digit : ℕ → String
digit d =
    if eqb d 0
    then "0"
    else if eqb d 1
    then "1"
    else if eqb d 2
    then "2"
    else if eqb d 3
    then "3"
    else if eqb d 4
    then "4"
    else if eqb d 5
    then "5"
    else if eqb d 6
    then "6"
    else if eqb d 7
    then "7"
    else if eqb d 8
    then "8"
    else "9"

unfoldable pub show_from : ℕ → ℕ → String → String
show_from zero n acc = acc
show_from (suc fuel) n acc =
    let rest = show_from fuel (n / 10) (String.◌++◌ (digit (n % 10)) acc) in
    if ltb n 10 then String.◌++◌ (digit n) acc else rest

-- `str(n)`; more fuel than `n` is enough
unfoldable pub show : ℕ → String
unfolding show_from
show n = show_from (suc n) n ""

-- `f"{n:04d}"`
unfoldable pub show_padded4 : ℕ → String
unfolding show
show_padded4 n =
    if ltb n 10
    then String.◌++◌ "000" (show n)
    else if ltb n 100
    then String.◌++◌ "00" (show n)
    else if ltb n 1000
    then String.◌++◌ "0" (show n)
    else show n

show_padded4_example : show_padded4 120 ≡ "0120"
unfolding show_padded4
show_padded4_example = refl
