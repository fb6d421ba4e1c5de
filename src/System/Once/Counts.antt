-- ===== src/System/Once/Counts.antt =====
-- The creations in a log are bounded by what excuses them, along the events that follow.
use databasus_operator.Prelude.{
  refl, ℕ, suc, some, true, ◌+◌, ◌≤◌, String, ◌==◌, ◌≡◌, Bool, false, some, List, ◌∷◌,
  if◌then◌else◌, arith, Bool-cases, inl, inr,
}
use databasus_operator.Wire.Database.{DatabaseResponse}
use databasus_operator.Effects.{KubeError, Event, Object, status_updated, Transport}
use databasus_operator.Effects.Logs.{Adds, nothing, one_more}
use databasus_operator.Client.Request.{DatabasusClient}
use databasus_operator.Client.Saved.{not_ok, not_created, described}
use databasus_operator.System.Once.{
  posted, is_creation, is_possible, is_named, is_unnamed_creation, is_failed_write, is_excuse,
  count, creations, excuses,
}

-- One creation is open as long as there is no identifier.
abbrev pub open_creations : String → ℕ
open_creations id = if id == "" then 1 else 0

module _ (c : DatabasusClient) where
  abbrev pub IsBounded : String → List Event → Type 0
  IsBounded id log = open_creations id + creations c log ≤ suc (excuses c log)

  abbrev pub NoCreation : Event → Type 0
  NoCreation e = is_creation (posted c "/api/v1/databases/create" e) ≡ false

  count-grows :
      (test : Event → Bool) (e : Event) (log : List Event) → count test log ≤ count test (e ∷ log)
  count-grows test e log = elim (Bool-cases (test e)) [
    | inl h ↦ rw h (omega arith)
    | inr h ↦ rw h (omega arith)
  ]

  pub one-IsBounded :
      (id : String) (e : Event) (log : List Event)
      → NoCreation e
      → IsBounded id log
      → IsBounded id (e ∷ log)
  one-IsBounded id e log h b = rw h (omega (arith, b, count-grows (is_excuse c) e log))

  pub Adds-IsBounded :
      (id : String) {old new : List Event}
      → Adds NoCreation old new
      → IsBounded id old
      → IsBounded id new
  Adds-IsBounded id nothing b = b
  Adds-IsBounded id (one_more {e = e} {new = new} h a) b =
      one-IsBounded id e new h (Adds-IsBounded id a b)

  -- A creation whose answer gives an identifier, where there was none.
  named-IsBounded :
      (a : DatabaseResponse) (t : Transport) (e : Event) (log : List Event)
      → posted c "/api/v1/databases/create" e ≡ some t
      → (a.id == "") ≡ false
      → IsBounded "" log
      → IsBounded a.id (e ∷ log)
  named-IsBounded a t e log at named b =
      let closed : open_creations a.id ≡ 0 = rw named refl in
      elim (Bool-cases (is_possible not_created t)) [
        | inl may ↦
            let made : creations c (e ∷ log) ≡ suc (creations c log) = rw (at, may) refl in
            omega (arith, b, closed, made, count-grows (is_excuse c) e log)
        | inr cannot ↦
            let same : creations c (e ∷ log) ≡ creations c log = rw (at, cannot) refl in
            omega (arith, b, closed, same, count-grows (is_excuse c) e log)
      ]

  -- A creation from which no identifier is learned is its own excuse.
  pub unnamed-IsBounded :
      (id : String) (t : Transport) (e : Event) (log : List Event)
      → posted c "/api/v1/databases/create" e ≡ some t
      → is_named (described not_created t) ≡ false
      → IsBounded id log
      → IsBounded id (e ∷ log)
  unnamed-IsBounded id t e log at unnamed b = elim (Bool-cases (is_possible not_created t)) [
    | inl may ↦ elim (Bool-cases (is_failed_write e)) [
      | inl f ↦ rw (at, may, unnamed, f) (omega (arith, b))
      | inr f ↦ rw (at, may, unnamed, f) (omega (arith, b))
    ]
    | inr cannot ↦
        let same : creations c (e ∷ log) ≡ creations c log = rw (at, cannot) refl in
        omega (arith, b, same, count-grows (is_excuse c) e log)
  ]

  pub created-IsBounded :
      (a : DatabaseResponse) (t : Transport) (e : Event) (log : List Event)
      → posted c "/api/v1/databases/create" e ≡ some t
      → described not_created t ≡ some a
      → IsBounded "" log
      → IsBounded a.id (e ∷ log)
  created-IsBounded a t e log at h b = elim (Bool-cases (a.id == "")) [
    | inl nameless ↦
        let unnamed : is_named (described not_created t) ≡ false = rw (h, nameless) refl in
        let kept : IsBounded "" (e ∷ log) = unnamed-IsBounded "" t e log at unnamed b in
        rw nameless kept
    | inr named ↦ named-IsBounded a t e log at named b
  ]

  excused :
      (a : DatabaseResponse) (t : Transport) (e : Event) (log : List Event)
      → posted c "/api/v1/databases/update" e ≡ some t
      → described not_ok t ≡ some a
      → (a.id == "") ≡ true
      → excuses c (e ∷ log) ≡ suc (excuses c log)
  excused a t e log at h nameless = elim (Bool-cases (is_failed_write e)) [
    | inl f ↦ rw f refl
    | inr f ↦ elim (Bool-cases (is_unnamed_creation (posted c "/api/v1/databases/create" e))) [
      | inl g ↦ rw (f, g) refl
      | inr g ↦ rw (f, g, at, h, nameless) refl
    ]
  ]

  -- An accepted update.
  pub renewed-IsBounded :
      (id : String) (a : DatabaseResponse) (t : Transport) (e : Event) (log : List Event)
      → NoCreation e
      → posted c "/api/v1/databases/update" e ≡ some t
      → described not_ok t ≡ some a
      → IsBounded id log
      → IsBounded a.id (e ∷ log)
  renewed-IsBounded id a t e log none_made at h b =
      let same : creations c (e ∷ log) ≡ creations c log = rw none_made refl in
      elim (Bool-cases (a.id == "")) [
        | inl nameless ↦
            let opened : open_creations a.id ≡ 1 = rw nameless refl in
            omega (arith, b, opened, same, excused a t e log at h nameless)
        | inr named ↦
            let closed : open_creations a.id ≡ 0 = rw named refl in
            omega (arith, b, closed, same, count-grows (is_excuse c) e log)
      ]

  -- A failed write of the status, whatever it would have written.
  pub failed-IsBounded :
      (id other : String) (o : Object) (e : KubeError) (log : List Event)
      → IsBounded other log
      → IsBounded id (status_updated o (some e) ∷ log)
  failed-IsBounded id other o e log b = elim (Bool-cases (id == "")) [
    | inl h ↦ rw h (omega (arith, b))
    | inr h ↦ rw h (omega (arith, b))
  ]
