-- ===== src/Controller/DatabaseBackup/References.antt =====
-- The Notifier references of a DatabaseBackup: one identifier for each, in their order.
use databasus_operator.Prelude.{
  String, ◌==◌, ◌≡◌, ◌↔◌, refl, ◌∙◌, true, false, List, [], ◌∷◌, ◌++◌, append_assoc, append-nil,
  Bool-cases, inl, inr,
}
use databasus_operator.Api.Notifier.{Notifier}
use databasus_operator.Api.Storage.{Storage}
use databasus_operator.Effects.{Res-cases, ok, Got, found, get_error, World, Env}
use databasus_operator.Effects.Plain.{mapped}
use databasus_operator.Effects.Fallible.{◌>>=◌}
use databasus_operator.Controller.DatabaseBackup.Resolve.{
  storage_id_of, resolve_storage_ref, is_true, notifier_id_of, resolve_notifier_ref,
  resolve_notifiers, resolve_notifier_refs,
}

module _ {S : Type 0} (E : Env S) where
  -- A read of the Notifier gave one that has the identifier and is Ready.
  pub record IsReady (namespace name id : String) : Type 0 where
    pub before : S
    pub notifier : Notifier
    pub read :
        (E.read_notifier (record { namespace = namespace; name = name }) before).0 ≡ found notifier
    pub same : notifier.status.id ≡ id
    pub known : (id == "") ≡ false
    pub ready : is_true (E.find_status_condition notifier.status.conditions "Ready") ≡ true

  -- One ready Notifier for each name, in order, with its identifier.
  pub data AreReady (namespace : String) : List String → List String → Type 0 where
    all_ready : AreReady namespace [] []
    ready_too :
        {name id : String} {names ids : List String}
        → IsReady namespace name id
        → AreReady namespace names ids
        → AreReady namespace (name ∷ names) (id ∷ ids)

  notifier_id_of-found :
      (name id : String) (got : Got Notifier)
      → notifier_id_of E name got ≡ ok id
      → (n : Notifier) × (got ≡ found n)
        × (n.status.id ≡ id)
        × ((id == "") ≡ false)
        × (is_true (E.find_status_condition n.status.conditions "Ready") ≡ true)
  unfolding notifier_id_of
  notifier_id_of-found name id (get_error e) h = cc
  notifier_id_of-found name id (found n) h = elim (Bool-cases (n.status.id == "")) [
    | inl empty ↦ cc (rw empty at h)
    | inr known ↦
        elim (Bool-cases (is_true (E.find_status_condition n.status.conditions "Ready"))) [
          | inr unready ↦ cc (rw (known, unready) at h)
          | inl ready ↦
              let same : n.status.id ≡ id = cc (rw (known, ready) at h) in
              (n, refl, same, cc (known, same), ready)
        ]
  ]

  resolve_notifier_ref-IsReady :
      (namespace name id : String) (w : World S)
      → (resolve_notifier_ref E namespace name w).0 ≡ ok id
      → IsReady namespace name id
  unfolding resolve_notifier_ref mapped
  resolve_notifier_ref-IsReady namespace name id w h =
      let (n, read, same, known, ready) = notifier_id_of-found name id _ h in
      record {
        before = w.state;
        notifier = n;
        read = read;
        same = same;
        known = known;
        ready = ready;
      }

  -- The loop adds to the identifiers so far.
  resolve_notifiers-AreReady :
      (namespace : String) (names sofar ids : List String) (w : World S)
      → (resolve_notifiers E namespace names sofar w).0 ≡ ok ids
      → (added : List String) × (ids ≡ sofar ++ added) × AreReady namespace names added
  unfolding resolve_notifiers ◌>>=◌
  resolve_notifiers-AreReady namespace [] sofar ids w h = ([], cc (h, append-nil sofar), all_ready)
  resolve_notifiers-AreReady namespace (name ∷ names) sofar ids w h =
      elim (Res-cases (resolve_notifier_ref E namespace name w).0) [
        | inr (e, failed) ↦ cc (rw failed at h)
        | inl (id, resolved) ↦
            let (added, split, ready) =
              resolve_notifiers-AreReady namespace names (sofar ++ (id ∷ [])) ids _
                (rw resolved at h) in
            (
              id ∷ added,
              split ∙ append_assoc sofar (id ∷ []) added,
              ready_too (resolve_notifier_ref-IsReady namespace name id w resolved) ready,
            )
      ]

  -- Where the Notifier references of a DatabaseBackup are resolved, there is one identifier for each
  -- name, in the order of the names: that of a Notifier that was read under the name in the
  -- namespace of the DatabaseBackup, which has an identifier and whose condition Ready is True.
  pub resolve_notifier_refs-AreReady :
      (namespace : String) (names ids : List String) (w : World S)
      → (resolve_notifier_refs E namespace names w).0 ≡ ok ids
      → AreReady namespace names ids
  unfolding resolve_notifier_refs
  resolve_notifier_refs-AreReady namespace names ids w h =
      let (added, split, ready) = resolve_notifiers-AreReady namespace names [] ids w h in
      rw split ready

module _ {S : Type 0} (E : Env S) where
  storage_id_of-found :
      (name id : String) (got : Got Storage)
      → storage_id_of E name got ≡ ok id
      → (s : Storage) × (got ≡ found s)
        × (s.status.id ≡ id)
        × ((id == "") ≡ false)
        × (is_true (E.find_status_condition s.status.conditions "Ready") ≡ true)
  unfolding storage_id_of
  storage_id_of-found name id (get_error e) h = cc
  storage_id_of-found name id (found s) h = elim (Bool-cases (s.status.id == "")) [
    | inl empty ↦ cc (rw empty at h)
    | inr known ↦
        elim (Bool-cases (is_true (E.find_status_condition s.status.conditions "Ready"))) [
          | inr unready ↦ cc (rw (known, unready) at h)
          | inl ready ↦
              let same : s.status.id ≡ id = cc (rw (known, ready) at h) in
              (s, refl, same, cc (known, same), ready)
        ]
  ]

  -- A Storage reference is resolved to an identifier exactly if the read of the name in the
  -- namespace gives a Storage that has this identifier, which is not empty, and whose condition
  -- Ready is True.
  pub resolve_storage_ref_iff :
      (namespace name id : String) (w : World S)
      → ((resolve_storage_ref E namespace name w).0 ≡ ok id) ↔ (
          (s : Storage) × ((E.read_storage
              (record { namespace = namespace; name = name })
              w.state).0
            ≡ found s)
          × (s.status.id ≡ id)
          × ((id == "") ≡ false)
          × (is_true (E.find_status_condition s.status.conditions "Ready") ≡ true))
  unfolding resolve_storage_ref mapped storage_id_of
  resolve_storage_ref_iff namespace name id w = (
    storage_id_of-found name id _,
    λ (s, read, same, known, ready). rw (read, same, known, ready) refl,
  )
