-- ===== src/Controller/DatabaseBackup/Sections.antt =====
-- What the request for a database holds.
use databasus_operator.Prelude.{
  String, ◌==◌, ◌≡◌, ◌≢◌, refl, ap, none, some, false, List, [], ◌∷◌, map, Bool-cases, inl, inr,
  arith, Option, sym, eq_iff, ℤ, pos, negsuc,
}
use databasus_operator.Api.DatabaseBackup.{DatabaseBackup}
use databasus_operator.Wire.Database.{
  DatabaseRequest, NotifierRef, PostgresqlLogicalRequest, MysqlRequest, MariadbRequest,
  MongodbRequest,
}
use databasus_operator.Client.Request.{DatabasusClient}
use databasus_operator.Controller.DatabaseBackup.Resolve.{PostgresSslMaterial}
use databasus_operator.Controller.DatabaseBackup.Build.{
  build_database_request, base_request, notifier_refs, at_least_one, dereferenced,
  postgresql_logical_request, mysql_request, mariadb_request, mongodb_request,
}

-- The sections of a request.
abbrev pub Sections : Type 0
Sections =
    Option PostgresqlLogicalRequest
    × Option MysqlRequest
    × Option MariadbRequest
    × Option MongodbRequest

abbrev pub sections : DatabaseRequest → Sections
sections r = (r.postgresql_logical, r.mysql, r.mariadb, r.mongodb)

-- One section, that of the type, with the password that was resolved; the type of a PostgreSQL
-- database is renamed, and the CPU count is not 0.
pub data HasSection (type password : String) : String → Sections → Type 0 where
  is_postgresql :
      {r : PostgresqlLogicalRequest}
      → type ≡ "POSTGRES"
      → r.password ≡ password
      → r.cpu_count ≢ pos 0
      → HasSection type password "POSTGRES_LOGICAL" (some r, none, none, none)
  is_mysql :
      {r : MysqlRequest}
      → type ≡ "MYSQL"
      → r.password ≡ password
      → HasSection type password type (none, some r, none, none)
  is_mariadb :
      {r : MariadbRequest}
      → type ≡ "MARIADB"
      → r.password ≡ password
      → HasSection type password type (none, none, some r, none)
  is_mongodb :
      {r : MongodbRequest}
      → type ≡ "MONGODB"
      → r.password ≡ password
      → r.cpu_count ≢ pos 0
      → HasSection type password type (none, none, none, some r)
  is_other :
      (type == "POSTGRES") ≡ false
      → (type == "MYSQL") ≡ false
      → (type == "MARIADB") ≡ false
      → (type == "MONGODB") ≡ false
      → HasSection type password type (none, none, none, none)

at_least_one-positive : (n : ℤ) → at_least_one n ≢ pos 0
at_least_one-positive (pos n) = ground arith
at_least_one-positive (negsuc n) = cc

dereferenced-some :
    {A B : Type 0} (f : A → B) (o : Option A) (b : B)
    → dereferenced f o ≡ some b
    → (a : A) × (f a ≡ b)
dereferenced-some f none b h = cc
dereferenced-some f (some a) b h = (a, cc h)

module _ (c : DatabasusClient) (backup : DatabaseBackup) (password : String)
    (ssl : PostgresSslMaterial) (ids : List String) (r : DatabaseRequest) where
  -- Where a request for a database is built, it has the section that the type of the database
  -- names and no other, with the password that was resolved and, for PostgreSQL and MongoDB, a CPU
  -- count that is not 0. Its type is that of the database, but "POSTGRES_LOGICAL" for "POSTGRES".
  -- For a type that is none of the four it has no section.
  pub build_database_request-HasSection :
      build_database_request c backup password ssl ids ≡ some r
      → HasSection backup.spec.database.type password r.type (sections r)
  unfolding build_database_request postgresql_logical_request mysql_request mariadb_request
      mongodb_request
  build_database_request-HasSection h =
      elim (Bool-cases (backup.spec.database.type == "POSTGRES")) [
        | inl on ↦
            let (spec, e) = dereferenced-some _ _ r (rw on at h) in
            rw (sym e) (
              is_postgresql ((eq_iff backup.spec.database.type "POSTGRES").0 on) refl
                (at_least_one-positive spec.cpu_count))
        | inr not_postgresql ↦ elim (Bool-cases (backup.spec.database.type == "MYSQL")) [
          | inl on ↦
              let (spec, e) = dereferenced-some _ _ r (rw (not_postgresql, on) at h) in
              rw (sym e) (is_mysql ((eq_iff backup.spec.database.type "MYSQL").0 on) refl)
          | inr not_mysql ↦ elim (Bool-cases (backup.spec.database.type == "MARIADB")) [
            | inl on ↦
                let (spec, e) = dereferenced-some _ _ r (rw (not_postgresql, not_mysql, on) at h) in
                rw (sym e) (is_mariadb ((eq_iff backup.spec.database.type "MARIADB").0 on) refl)
            | inr not_mariadb ↦ elim (Bool-cases (backup.spec.database.type == "MONGODB")) [
              | inl on ↦
                  let (spec, e) =
                    dereferenced-some _ _ r
                      (rw (not_postgresql, not_mysql, not_mariadb, on) at h) in
                  rw (sym e) (
                    is_mongodb ((eq_iff backup.spec.database.type "MONGODB").0 on) refl
                      (at_least_one-positive spec.cpu_count))
              | inr not_mongodb ↦
                  let e : base_request c backup ids ≡ r =
                    cc (rw (not_postgresql, not_mysql, not_mariadb, not_mongodb) at h) in
                  rw (sym e) (is_other not_postgresql not_mysql not_mariadb not_mongodb)
            ]
          ]
        ]
      ]

notifier_refs-ids :
    (workspace_id : String) (ids : List String)
    → map (λ (n : NotifierRef). n.id) (notifier_refs workspace_id ids) ≡ ids
unfolding notifier_refs
notifier_refs-ids workspace_id [] = refl
notifier_refs-ids workspace_id (id ∷ ids) = ap (λ r. id ∷ r) (notifier_refs-ids workspace_id ids)

notifier_refs-workspace :
    (workspace_id : String) (ids : List String)
    → map (λ (n : NotifierRef). n.workspace_id) (notifier_refs workspace_id ids)
      ≡ map (λ (id : String). workspace_id) ids
unfolding notifier_refs
notifier_refs-workspace workspace_id [] = refl
notifier_refs-workspace workspace_id (id ∷ ids) =
    ap (λ r. workspace_id ∷ r) (notifier_refs-workspace workspace_id ids)

module _ (c : DatabasusClient) (backup : DatabaseBackup) (password : String)
    (ssl : PostgresSslMaterial) (ids : List String) (r : DatabaseRequest) where
  built-notifiers :
      build_database_request c backup password ssl ids ≡ some r
      → r.notifiers ≡ notifier_refs c.workspace_id ids
  unfolding build_database_request
  built-notifiers h = ground arith

  -- Where a request for a database is built, it names the Notifiers with the resolved identifiers,
  -- in their order, each in the workspace of the client.
  pub build_database_request-notifiers :
      build_database_request c backup password ssl ids ≡ some r
      → (map (λ (n : NotifierRef). n.id) r.notifiers ≡ ids)
        × (map (λ (n : NotifierRef). n.workspace_id) r.notifiers
            ≡ map (λ (id : String). c.workspace_id) ids)
  build_database_request-notifiers h =
      rw (built-notifiers h)
        (notifier_refs-ids c.workspace_id ids, notifier_refs-workspace c.workspace_id ids)
