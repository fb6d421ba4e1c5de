-- ===== src/Tests/Cluster.antt =====
-- A cluster in memory, with one object of each kind, and an API that answers from a script.
use databasus_operator.Prelude.{
  suc, ℕ, String, ◌==◌, ◌≡◌, ◌≢◌, refl, sym, Bool, true, false, Option, none, some, List, [], ◌∷◌,
  inl, inr, Bool-cases, eq_iff, eq_refl, if◌then◌else◌, ◌∙◌,
}
use databasus_operator.Api.Meta.{Condition, Secret}
use databasus_operator.Api.Storage.{Storage}
use databasus_operator.Api.Notifier.{Notifier}
use databasus_operator.Api.DatabaseBackup.{DatabaseBackup}
use databasus_operator.Effects.{
  Kube, Env, Got, found, Transport, no_response, Object, storage_object, notifier_object,
  database_backup_object,
}
use databasus_operator.Effects.Laws.{FinalizerLaws, ConditionLaws}

abbrev has : String → List String → Bool
has f [] = false
has f (x ∷ xs) = if x == f then true else has f xs

abbrev without : String → List String → List String
without f [] = []
without f (x ∷ xs) = if x == f then without f xs else x ∷ without f xs

abbrev find : List Condition → String → Option Condition
find [] t = none
find (d ∷ ds) t = if d.type == t then some d else find ds t

abbrev put : List Condition → Condition → List Condition
put [] c = c ∷ []
put (d ∷ ds) c = if d.type == c.type then c ∷ ds else d ∷ put ds c

abbrev is_none : Option ℕ → Bool
is_none none = true
is_none (some t) = false

abbrev pub memory_kube : Kube
memory_kube = record {
  is_not_found = λ e. e.reason == "NotFound";
  is_zero_time = is_none;
  contains_finalizer = λ m f. has f m.finalizers;
  add_finalizer = λ m f. record m {
    finalizers = if has f m.finalizers then m.finalizers else f ∷ m.finalizers;
  };
  remove_finalizer = λ m f. record m { finalizers = without f m.finalizers };
  find_status_condition = find;
  set_status_condition = put;
  url_error = λ url. none;
  json_error = λ prefix body. "invalid JSON";
}

has-add : (f : String) (xs : List String) → has f (if has f xs then xs else f ∷ xs) ≡ true
has-add f xs = elim (Bool-cases (has f xs)) [
  | inl there ↦ rw (there, there) refl
  | inr absent ↦ rw (absent, eq_refl f) refl
]

has-without : (f : String) (xs : List String) → has f (without f xs) ≡ false
has-without f [] = refl
has-without f (x ∷ xs) = elim (Bool-cases (x == f)) [
  | inl same ↦ rw same (has-without f xs)
  | inr other ↦ rw (other, other) (has-without f xs)
]

find-put : (ds : List Condition) (c : Condition) → find (put ds c) c.type ≡ some c
find-put [] c = rw (eq_refl c.type) refl
find-put (d ∷ ds) c = elim (Bool-cases (d.type == c.type)) [
  | inl same ↦ rw (same, eq_refl c.type) refl
  | inr other ↦ rw (other, other) (find-put ds c)
]

differs : (a b : String) → a ≢ b → (a == b) ≡ false
differs a b h = elim (Bool-cases (a == b)) [
  | inl same ↦ absurd (h ((eq_iff a b).0 same))
  | inr other ↦ other
]

find-put_ne :
    (ds : List Condition) (c : Condition) (t : String) → t ≢ c.type → find (put ds c) t ≡ find ds t
find-put_ne [] c t h = rw (differs c.type t (λ e. h (sym e))) refl
find-put_ne (d ∷ ds) c t h = elim (Bool-cases (d.type == c.type)) [
  | inl same ↦
      let e : d.type ≡ c.type = (eq_iff d.type c.type).0 same in
      rw (same, differs c.type t (λ p. h (sym p)), differs d.type t (λ p. h (sym p ∙ e))) refl
  | inr other ↦ rw other (elim (Bool-cases (d.type == t)) [
    | inl here ↦ rw here refl
    | inr there ↦ rw there (find-put_ne ds c t h)
  ])
]

pub memory_finalizers : FinalizerLaws memory_kube
memory_finalizers = record {
  contains-add = λ m f. has-add f m.finalizers;
  contains-remove = λ m f. has-without f m.finalizers;
  deletion-add = λ m f. refl;
  deletion-remove = λ m f. refl;
}

pub memory_conditions : ConditionLaws memory_kube
memory_conditions = record {
  find-set = λ ds c. (c, find-put ds c, refl, refl, refl, refl);
  find-set_ne = find-put_ne;
}

-- What is in the cluster; the answers that the API will give; the seconds so far.
pub record Cluster : Type 0 where
  pub storage : Got Storage
  pub notifier : Got Notifier
  pub backup : Got DatabaseBackup
  pub secret : Got Secret
  pub answers : List Transport
  pub seconds : ℕ

abbrev stored : Object → Cluster → Cluster
stored (storage_object o) s = record s { storage = found o }
stored (notifier_object o) s = record s { notifier = found o }
stored (database_backup_object o) s = record s { backup = found o }

abbrev answer : List Transport → Transport × List Transport
answer [] = (no_response "connection refused", [])
answer (t ∷ ts) = (t, ts)

abbrev pub memory : Env Cluster
memory = record {
  kube = memory_kube;
  now = λ s. (s.seconds, record s { seconds = suc s.seconds });
  read_storage = λ key s. (s.storage, s);
  read_notifier = λ key s. (s.notifier, s);
  read_database_backup = λ key s. (s.backup, s);
  open_direct_client = λ s. (none, s);
  read_secret = λ key s. (s.secret, s);
  write = λ o s. (none, stored o s);
  write_status = λ o s. (none, stored o s);
  transport = λ r s. ((answer s.answers).0, record s { answers = (answer s.answers).1 });
}
