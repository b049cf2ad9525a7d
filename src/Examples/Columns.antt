-- ===== src/Examples/Columns.antt =====
-- src/pushdown.rs: sets of columns.
use frawk.Prelude.{ℕ, ◌≤◌, ◌<◌, ◌≡◌, ◌↔◌, refl, true, false, arith}
use frawk.Prelude.Bits.{bit}
use frawk.Pushdown.{FieldSet, get, fill, invoke}
use frawk.Pushdown.Members.{invoke-unchanged}
use frawk.Pushdown.Fill.{fill_covers}

-- Columns 1 and 3.
abbrev odd : FieldSet
odd = 10

-- Column 5.
abbrev five : FieldSet
five = 32

invoke-unchanged_example :
    ((invoke odd five).1 ≡ false) ↔ ((i : ℕ) → i < 64 → bit five i ≤ bit odd i)
invoke-unchanged_example = invoke-unchanged odd five (omega arith) (omega arith)

fill_covers_example : get (fill odd five) 4 ≡ true
fill_covers_example =
    fill_covers odd five 3 4 5 (omega arith) (omega arith) (unfold get in refl) (unfold get in refl)
