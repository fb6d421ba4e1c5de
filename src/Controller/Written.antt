-- ===== src/Controller/Written.antt =====
-- The objects that the reconcilers are meant to write back, field by field, and how a turn that ends
-- with such a write is meant to end.
use databasus_operator.Prelude.{ℕ, String, Option, none, some}
use databasus_operator.Api.Meta.{ObjectMeta, Condition}
use databasus_operator.Api.Storage.{Storage}
use databasus_operator.Api.Notifier.{Notifier}
use databasus_operator.Api.DatabaseBackup.{DatabaseBackup}
use databasus_operator.Wire.Database.{DatabaseResponse}
use databasus_operator.Effects.{KubeError, kube_error, Env}
use databasus_operator.Controller.Outcome.{Outcome, returned}

-- The delay to the next turn, unless the write failed: then its error, and no delay.
abbrev pub after_write : ℕ → Option KubeError → Outcome
after_write seconds none = returned seconds none
after_write seconds (some e) = returned 0 (some (kube_error e))

-- The condition Ready of an object.
abbrev pub ready_is : String → ObjectMeta → ℕ → String → String → Condition
ready_is status meta now reason message = record {
  type = "Ready";
  status = status;
  observed_generation = meta.generation;
  last_transition_time = now;
  reason = reason;
  message = message;
}

-- The value that a read of the database gives, or else the old one.
abbrev pub newer : {A : Type 0} → A → Option DatabaseResponse → (DatabaseResponse → Option A) → A
newer old none field = old
newer old (some d) field = elim (field d) [ none ↦ old | some new ↦ new ]

abbrev pub newer_time : Option ℕ → Option DatabaseResponse → Option ℕ
newer_time old none = old
newer_time old (some d) = elim d.last_backup_time [ none ↦ old | some new ↦ some new ]

module _ {S : Type 0} (E : Env S) where
  -- With Ready False, and otherwise as it was.
  abbrev pub unready_storage : Storage → ℕ → String → String → Storage
  unready_storage o now reason message = record {
    metadata = o.metadata;
    spec = o.spec;
    status = record {
      id = o.status.id;
      observed_generation = o.status.observed_generation;
      conditions =
          E.set_status_condition o.status.conditions
            (ready_is "False" o.metadata now reason message);
    };
  }

  -- With Ready True, the identifier, and the generation of the object.
  abbrev pub ready_storage : Storage → String → ℕ → Storage
  ready_storage o id now = record {
    metadata = o.metadata;
    spec = o.spec;
    status = record {
      id = id;
      observed_generation = o.metadata.generation;
      conditions =
          E.set_status_condition o.status.conditions
            (ready_is "True" o.metadata now "Synced" "Storage synced to databasus");
    };
  }

  abbrev pub unready_notifier : Notifier → ℕ → String → String → Notifier
  unready_notifier o now reason message = record {
    metadata = o.metadata;
    spec = o.spec;
    status = record {
      id = o.status.id;
      observed_generation = o.status.observed_generation;
      conditions =
          E.set_status_condition o.status.conditions
            (ready_is "False" o.metadata now reason message);
    };
  }

  abbrev pub ready_notifier : Notifier → String → ℕ → Notifier
  ready_notifier o id now = record {
    metadata = o.metadata;
    spec = o.spec;
    status = record {
      id = id;
      observed_generation = o.metadata.generation;
      conditions =
          E.set_status_condition o.status.conditions
            (ready_is "True" o.metadata now "Synced" "Notifier synced to databasus");
    };
  }

  -- With Ready False and the identifier, and otherwise as it was.
  abbrev pub unready_backup : DatabaseBackup → String → ℕ → String → String → DatabaseBackup
  unready_backup o id now reason message = record {
    metadata = o.metadata;
    spec = o.spec;
    status = record o.status {
      database_id = id;
      conditions =
          E.set_status_condition o.status.conditions
            (ready_is "False" o.metadata now reason message);
    };
  }

  -- With Ready True, the identifier, the generation of the object, and what the read of the database
  -- gives.
  abbrev pub ready_backup : DatabaseBackup → String → Option DatabaseResponse → ℕ → DatabaseBackup
  ready_backup o id got now = record {
    metadata = o.metadata;
    spec = o.spec;
    status = record {
      database_id = id;
      backup_config_id = o.status.backup_config_id;
      health_status = newer o.status.health_status got (λ d. d.health_status);
      last_backup_time = newer_time o.status.last_backup_time got;
      last_backup_error_message =
          newer o.status.last_backup_error_message got (λ d. d.last_backup_error_message);
      observed_generation = o.metadata.generation;
      conditions =
          E.set_status_condition o.status.conditions
            (ready_is "True" o.metadata now "Synced" "DatabaseBackup synced to databasus");
    };
  }
