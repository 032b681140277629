-- ===== src/Changelog/Tests.antt =====
-- The changelog of a small state.
use schematica_api.Changelog.{update_messages, handle_endpoint_updated, get_operation_summary}
use schematica_api.Changelog.Entries.{
  IsSequence, IsRecorded, IsSame, handle_endpoint_updated-IsRecorded,
}
use schematica_api.Common.{
  ℕ, ◌+◌, ◌≤◌, ◌<◌, ◌≡◌, ◌↔◌, refl, arith, false, List, [], ◌∷◌, any, nat_eq, to_upper_case,
}
use schematica_api.Database.{memory_client, memory_client-IsPrisma}
use schematica_api.Entities.{Changelog, Endpoint, published}
use schematica_api.Json.{get_field}
use schematica_api.Samples.{alice, item_endpoint, db}

abbrev moved : Endpoint
moved = record item_endpoint { path = "/goods"; status = published }

messages_test :
    update_messages alice item_endpoint moved
    ≡ "User 'alice' changed endpoint GET /items to GET /goods."
      ∷ "User 'alice' changed status of endpoint GET /goods from 'DRAFT' to 'PUBLISHED'." ∷ []
unfolding update_messages get_operation_summary to_upper_case get_field
messages_test = refl

-- The sum of the numbers, plus one.
above : List Changelog → ℕ
above [] = 1
above (l ∷ ls) = l.id + above ls

above_fresh : (n : ℕ) (ls : List Changelog) → above ls ≤ n → any (λ r. nat_eq n r.id) ls ≡ false
unfolding above
above_fresh n [] h = refl
above_fresh n (l ∷ ls) h = ground (arith, above_fresh n ls (omega arith), above_positive ls)
  where
    above_positive : (rows : List Changelog) → 0 < above rows
    above_positive [] = omega arith
    above_positive (r ∷ rows) = ground (arith, above_positive rows)

above-IsSequence : IsSequence above
above-IsSequence rows = above_fresh (above rows) rows (omega arith)

handle_endpoint_updated-IsRecorded_example :
    IsRecorded db "p1" "e1" "u1" 9
      (update_messages alice item_endpoint moved)
      (handle_endpoint_updated memory_client above 9 db alice "p1" item_endpoint moved)
    × ((update_messages alice item_endpoint moved ≡ []) ↔ IsSame item_endpoint moved)
handle_endpoint_updated-IsRecorded_example =
    handle_endpoint_updated-IsRecorded memory_client memory_client-IsPrisma above 9 db alice "p1"
      item_endpoint moved above-IsSequence refl
