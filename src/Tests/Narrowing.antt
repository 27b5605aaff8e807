-- ===== src/Tests/Narrowing.antt =====
-- Narrowing.
use tallox_go.Prelude.{true, false, ◌≡◌, refl, [], ◌∷◌}
use tallox_go.Policy.Role.{lecturer, programme_lead, role_comparable, roles_of, has}
use tallox_go.Policy.Phase
use tallox_go.Policy.Programme
use tallox_go.Policy.Programme.{planning_scope}
use tallox_go.Policy.IdScope.{scoped_ids, id_scope_allows}
use tallox_go.Policy.Write.{may_write_in_phase}
use tallox_go.Principal.{authenticated, owns}
use tallox_go.Policy.Onlooker.{onlooker, partner_only, observer_only}
use tallox_go.Policy.Semester.{wishes_published}
use tallox_go.Policy.Programme.{may_plan_programme}
use tallox_go.Policy.Write.{may_write_demand}
use tallox_go.Policy.Wish.{can_see_wish}
use tallox_go.Policy.Narrow.{narrow}
use tallox_go.Policy.Narrow.Reads.{narrow-writes_le, narrow-onlooker_widens}
use tallox_go.Tests.People.{lead, watcher, published, wish}

narrow-writes_le_example : may_write_demand lead 41 Phase.wishes ≡ true
unfolding may_write_demand may_write_in_phase may_plan_programme planning_scope roles_of has
    scoped_ids id_scope_allows Programme.allows narrow
narrow-writes_le_example = (narrow-writes_le lead (programme_lead ∷ []) 51 41 Phase.wishes).0 refl

-- An observer who asks to be judged as a lecturer reads a published wish of person 8.
narrow-onlooker_widens_example :
    (can_see_wish watcher published wish ≡ false)
    × (can_see_wish (narrow watcher (lecturer ∷ [])) published wish ≡ true)
unfolding onlooker partner_only observer_only authenticated has roles_of wishes_published owns
narrow-onlooker_widens_example =
    narrow-onlooker_widens watcher (lecturer ∷ []) published wish refl refl refl refl refl
