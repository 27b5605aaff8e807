-- ===== src/Policy/Assignment/Writers.antt =====
-- internal/policy/assignment.go and write.go: whoever may write an assignment sees it.
use tallox_go.Prelude.{
  [], ◌∷◌, true, false, ◌&&◌, ◌||◌, ◌==◌, nat_comparable, length, ◌≡◌, refl, arith, inl, inr,
  Bool-cases, both_true,
}
use tallox_go.Principal.{Actor, Uuid, authenticated, acts_with_full_reach}
use tallox_go.Policy.Role.{
  Role, RoleSet, subject_group_lead, programme_lead, deans_office, partner_reader, role_eq,
  role_comparable, roles_of, has,
}
use tallox_go.Policy.Phase.{Phase}
use tallox_go.Policy.Onlooker.{partner_only, may_act_with_full_reach}
use tallox_go.Policy.Programme.{may_plan_programme}
use tallox_go.Policy.SubjectGroup.{may_act_in_subject_group}
use tallox_go.Policy.Reach.{may_plan_programme-plans, may_act_in_subject_group-leads}
use tallox_go.Policy.Semester.{SemesterState}
use tallox_go.Policy.Write.{may_write_assignment}
use tallox_go.Policy.Assignment.{Assignment, can_see_assignment}

-- Of a single role no other is held.
single :
    (rs : RoleSet) (r : Role)
    → (length rs == 1) ≡ true
    → has rs partner_reader ≡ true
    → role_eq partner_reader r ≡ false
    → has rs r ≡ false
unfolding has
single [] r one partner other = refl
single (x ∷ []) r one partner other = ground (arith, partner, other)
single (x ∷ y ∷ rs) r one partner other = absurd (ground (arith, one))

partner-plans_nothing :
    (a : Actor) (g p : Uuid)
    → partner_only a ≡ true
    → (may_act_in_subject_group a g ≡ false) × (may_plan_programme a p ≡ false)
unfolding partner_only
partner-plans_nothing a g p h =
    let (_, both) =
      both_true (authenticated a) (has (roles_of a) partner_reader && length (roles_of a) == 1) h in
    let (partner, one) =
      both_true (has (roles_of a) partner_reader) (length (roles_of a) == 1) both in
    let no_office = single (roles_of a) deans_office one partner refl in
    (
      ground (
        arith,
        may_act_in_subject_group-leads a g,
        no_office,
        single (roles_of a) subject_group_lead one partner refl,
      ),
      ground (
        arith,
        may_plan_programme-plans a p,
        no_office,
        single (roles_of a) programme_lead one partner refl,
      ),
    )

responsible :
    (a : Actor) (g p : Uuid) (phase : Phase)
    → may_write_assignment a g p phase ≡ true
    → (may_act_in_subject_group a g || may_plan_programme a p) ≡ true
unfolding may_write_assignment
responsible a g p phase h = ground (arith, h)

-- Whoever may write an assignment, with the reach of a session, sees it, before and after it is
-- published.
pub may_write_assignment-sees :
    (a : Actor) (state : SemesterState) (x : Assignment) (phase : Phase)
    → may_write_assignment a x.subject_group_id x.programme_id phase ≡ true
    → may_act_with_full_reach a ≡ true
    → can_see_assignment a state x ≡ true
unfolding can_see_assignment may_act_with_full_reach may_act_in_subject_group may_plan_programme
may_write_assignment-sees a state x phase h reach =
    let (known, full) = both_true (authenticated a) (acts_with_full_reach a) reach in
    elim (Bool-cases (partner_only a)) [
      | inl partner ↦
          let (no_group, no_programme) =
            partner-plans_nothing a x.subject_group_id x.programme_id partner in
          absurd (
            ground (
              arith,
              no_group,
              no_programme,
              responsible a x.subject_group_id x.programme_id phase h,
            ))
      | inr other ↦
          ground
            (arith, known, full, other, responsible a x.subject_group_id x.programme_id phase h)
    ]
