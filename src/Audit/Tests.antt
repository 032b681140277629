-- ===== src/Audit/Tests.antt =====
-- The cleanup on a small state.
use schematica_api.Audit.{handle_audit_log_event, handle_log_cleanup}
use schematica_api.Audit.Retention.{IsRetained, handle_log_cleanup-IsRetained}
use schematica_api.Common.{ℕ, ◌*◌, ◌-◌, ◌≡◌, Integer, true, false, refl}
use schematica_api.Database.{Database, memory_client, memory_client-IsPrisma}
use schematica_api.Samples.{alice, db}

abbrev days_before : ℕ → ℕ → ℕ
days_before days now = now - days * 86400000

abbrev thirty : Integer
thirty = record { is_negative = false; magnitude = 30 }

abbrev logged : Database
logged =
    handle_audit_log_event memory_client 2 5000000000
      (handle_audit_log_event memory_client 1 1 db alice "USER_CREATED" "u1") alice "USER_DELETED"
      "u2"

cleanup_test :
    handle_log_cleanup memory_client days_before thirty 5000000001 logged
    ≡ handle_audit_log_event memory_client 2 5000000000 db alice "USER_DELETED" "u2"
unfolding handle_log_cleanup handle_audit_log_event
cleanup_test = refl

disabled_test :
    handle_log_cleanup memory_client days_before
      (record { is_negative = true; magnitude = 30 })
      5000000001
      logged
    ≡ logged
unfolding handle_log_cleanup
disabled_test = refl

handle_log_cleanup-IsRetained_example :
    IsRetained memory_client days_before thirty 5000000001 logged
handle_log_cleanup-IsRetained_example =
    handle_log_cleanup-IsRetained memory_client memory_client-IsPrisma days_before thirty 5000000001
      logged refl
