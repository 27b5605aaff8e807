-- ===== src/Tests/Reads.antt =====
-- Who reads what.
use tallox_go.Prelude.{true, ◌≡◌, refl}
use tallox_go.Principal.{authenticated, owns}
use tallox_go.Policy.Semester.{wishes_published}
use tallox_go.Policy.TokenReach.{session, reads-le-session, full_reach-reads, plain_token-reads_own}
use tallox_go.Policy.Wish.{can_see_wish, wish_visibility}
use tallox_go.Policy.Wish
use tallox_go.Policy.Wish.Agreement.{matches-wish_visibility}
use tallox_go.Policy.Assignment.{can_see_assignment, assignment_visibility, covers_programme}
use tallox_go.Policy.Assignment
use tallox_go.Policy.Assignment.Agreement.{matches-assignment_visibility}
use tallox_go.Tests.People.{
  lead, group_lead, plain_token, planning_token, running, wish, assigned, competence, hours,
}

matches-wish_visibility_example :
    Wish.matches (wish_visibility lead running) wish ≡ can_see_wish lead running wish
matches-wish_visibility_example = matches-wish_visibility lead running wish

matches-assignment_visibility_example :
    Assignment.matches (assignment_visibility group_lead running) assigned
    ≡ can_see_assignment group_lead running assigned
matches-assignment_visibility_example = matches-assignment_visibility group_lead running assigned

reads-le-session_example :
    can_see_wish (session plain_token) running (record wish { owner_id = 7 }) ≡ true
unfolding can_see_wish authenticated owns
reads-le-session_example =
    (reads-le-session plain_token running (record wish { owner_id = 7 }) assigned competence
        hours).0
      refl

full_reach-reads_example :
    can_see_wish planning_token running wish ≡ can_see_wish (session planning_token) running wish
full_reach-reads_example =
    (full_reach-reads planning_token running wish assigned competence hours refl refl).0

plain_token-reads_own_example : can_see_wish plain_token running wish ≡ owns plain_token 8
unfolding wishes_published
plain_token-reads_own_example =
    (plain_token-reads_own plain_token running wish competence refl refl refl).0
