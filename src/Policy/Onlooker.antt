-- ===== src/Policy/Onlooker.antt =====
-- internal/policy/partner.go, observer.go and interactive.go: who follows the planning from
-- outside, and who reaches what a browser session reaches.
use tallox_go.Prelude.{Bool, ◌&&◌, ◌||◌, not, ◌==◌, nat_comparable, length}
use tallox_go.Principal.{Actor, authenticated, is_interactive_actor, acts_with_full_reach}
use tallox_go.Policy.Role.{partner_reader, observer, roles_of, has}

unfoldable pub partner_only : Actor → Bool
partner_only a =
    let roles = roles_of a in authenticated a && (has roles partner_reader && length roles == 1)

unfoldable pub observer_only : Actor → Bool
observer_only a =
    let roles = roles_of a in authenticated a && (has roles observer && length roles == 1)

unfoldable pub onlooker : Actor → Bool
onlooker a = partner_only a || observer_only a

unfoldable pub may_serve_oneself : Actor → Bool
may_serve_oneself a = authenticated a && not (onlooker a)

unfoldable pub may_read_interactive_only : Actor → Bool
may_read_interactive_only a = authenticated a && is_interactive_actor a

unfoldable pub may_act_with_full_reach : Actor → Bool
may_act_with_full_reach a = authenticated a && acts_with_full_reach a
