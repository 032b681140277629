-- ===== src/Access/Tests.antt =====
-- The access rules on a small state.
use schematica_api.Access.{can_view_project, access_control_where_clause}
use schematica_api.Access.Rules.{MayView, can_view_project_iff, access_control_where_clause_iff}
use schematica_api.Common.{◌≡◌, ◌↔◌, refl, inl, true, ◌∷◌, []}
use schematica_api.Entities.{project_clash}
use schematica_api.Prisma.{in_memory, in_memory-IsDelegate}
use schematica_api.Samples.{bob, shop, grants}

can_view_project_iff_example :
    (can_view_project grants (in_memory project_clash) bob "p1" ≡ true) ↔ MayView grants bob "p1"
can_view_project_iff_example =
    can_view_project_iff grants (in_memory project_clash) bob "p1"
      (in_memory-IsDelegate project_clash)

access_control_where_clause_iff_example :
    (access_control_where_clause grants bob shop ≡ true) ↔ MayView grants bob "p1"
access_control_where_clause_iff_example =
    access_control_where_clause_iff grants bob (record { id = "t1"; name = "t1" } ∷ []) shop refl
      (inl refl)

view_by_team_test : can_view_project grants (in_memory project_clash) bob "p1" ≡ true
unfolding can_view_project
view_by_team_test = refl
