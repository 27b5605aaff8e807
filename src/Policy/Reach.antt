-- ===== src/Policy/Reach.antt =====
-- Whom `may_plan_programme` and its sibling for the subject groups let through, by the grants.
use tallox_go.Prelude.{
  Bool, ◌&&◌, ◌||◌, not, ◌≡◌, arith, inl, inr, any, ◌==◌, nat_comparable, Bool-cases,
}
use tallox_go.Principal.{Actor, Uuid, nil_uuid}
use tallox_go.Policy.Role.{deans_office, programme_lead, subject_group_lead, roles_of, has}
use tallox_go.Policy.IdScope.{id_scope_allows}
use tallox_go.Policy.IdScope.Laws.{names, contains-scoped_ids}
use tallox_go.Policy.Programme
use tallox_go.Policy.Programme.{planning_scope, may_plan_programme}
use tallox_go.Policy.SubjectGroup
use tallox_go.Policy.SubjectGroup.{assignment_scope, may_act_in_subject_group}

-- The dean's office plans every programme, and a programme lead those that a scope of the grant
-- names; the nil programme is nobody's but the dean's office's.
abbrev pub plans : Actor → Uuid → Bool
plans a p =
    has (roles_of a) deans_office
    || (has (roles_of a) programme_lead
        && (not (p == nil_uuid)
            && any (names programme_lead (λ s. s.programme_id) p) a.role_scopes))

pub may_plan_programme-plans : (a : Actor) (p : Uuid) → may_plan_programme a p ≡ plans a p
unfolding may_plan_programme planning_scope Programme.allows id_scope_allows
may_plan_programme-plans a p = elim (Bool-cases (p == nil_uuid)) [
  | inl zero ↦ ground (arith, zero)
  | inr known ↦
      ground (arith, known, contains-scoped_ids a programme_lead (λ s. s.programme_id) p known)
]

-- The same for subject groups.
abbrev pub leads : Actor → Uuid → Bool
leads a g =
    has (roles_of a) deans_office
    || (has (roles_of a) subject_group_lead
        && (not (g == nil_uuid)
            && any (names subject_group_lead (λ s. s.subject_group_id) g) a.role_scopes))

pub may_act_in_subject_group-leads :
    (a : Actor) (g : Uuid) → may_act_in_subject_group a g ≡ leads a g
unfolding may_act_in_subject_group assignment_scope SubjectGroup.allows id_scope_allows
may_act_in_subject_group-leads a g = elim (Bool-cases (g == nil_uuid)) [
  | inl zero ↦ ground (arith, zero)
  | inr known ↦
      ground
        (arith, known, contains-scoped_ids a subject_group_lead (λ s. s.subject_group_id) g known)
]
