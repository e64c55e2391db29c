-- ===== src/Lifecycle/Returns.antt =====
-- A migration that is cancelled gives the source back as it was.
use extrio.Base.{ℕ, String, false, ◌≡◌, ok}
use extrio.Lifecycle.Tables.{Collector, Tables, write_collector, write_migration}
use extrio.Lifecycle.Store.{the_collector, require_active}
use extrio.Lifecycle.Moves.{has_active_operation}
use extrio.Lifecycle.Values.{Host, new_migration, migrating}
use extrio.Lifecycle.Effects.{IsRead}
use extrio.Lifecycle.Tables.{write_collector}
use extrio.Lifecycle.Moves.{MigrationPlan}

module _ (h : Host) where
  -- what the tables hold when a migration has started
  record IsStarted (id target : String) (c : Collector) (plan : MigrationPlan) (now : ℕ)
      (t after : Tables) : Type 0 where
    got : the_collector id t ≡ ok c
    read : IsRead id t c
    active : require_active c ≡ ok tt
    is_target : plan.target_version_id ≡ target
    idle : has_active_operation c t ≡ false
    is_after : after ≡ record t {
      migrations = write_migration (new_migration id c plan now) t.migrations;
      collectors = write_collector (migrating c plan now) t.collectors;
    }
