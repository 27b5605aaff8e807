-- ===== src/Tests/Process.antt =====
-- Phases and the right to write.
use tallox_go.Prelude.{◌≡◌, refl}
use tallox_go.Policy.Phase.{index, wishes, assignment, review, phase_comparable, may_move_to}
use tallox_go.Policy.Phase.Steps.{Moves, here, move}
use tallox_go.Policy.Programme.{may_plan_programme}
use tallox_go.Policy.Write.{may_write_demand}
use tallox_go.Policy.Write.Closed.{open_responsible}
use tallox_go.Tests.People.{lead}

-- To the assignment and back to the wishes.
detour : Moves 2 wishes wishes
unfolding may_move_to index
detour = move {q = assignment} refl (move refl here)

open_responsible_example : may_write_demand lead 41 review ≡ may_plan_programme lead 41
open_responsible_example = (open_responsible lead 51 41 review tt (λ e. cc)).0
