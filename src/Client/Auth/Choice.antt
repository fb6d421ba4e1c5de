-- ===== src/Client/Auth/Choice.antt =====
-- Which workspace the operator works in.
use databasus_operator.Prelude.{
  String, ◌==◌, ◌≡◌, refl, ap, ◌∙◌, ◌↔◌, ◌⊎◌, inl, inr, false, List, [], ◌∷◌, ◌++◌, Bool-cases,
  eq_iff,
}
use databasus_operator.Wire.Auth.{WorkspaceResponse}
use databasus_operator.Effects.{ok}
use databasus_operator.Client.Auth.{find_workspace, choose_workspace}

-- No workspace of the list has the name.
pub data Unnamed (name : String) : List WorkspaceResponse → Type 0 where
  none_left : Unnamed name []
  another :
      {ws : WorkspaceResponse} {rest : List WorkspaceResponse}
      → (ws.name == name) ≡ false
      → Unnamed name rest
      → Unnamed name (ws ∷ rest)

-- The first workspace of the list that has the name has the identifier.
abbrev pub IsFirst : String → String → List WorkspaceResponse → Type 0
IsFirst name id wss =
    (before : List WorkspaceResponse) × (ws : WorkspaceResponse) × (after : List WorkspaceResponse)
    × (wss ≡ before ++ (ws ∷ after))
    × Unnamed name before
    × (ws.name ≡ name)
    × (ws.id ≡ id)

find_workspace-IsFirst :
    (name id : String) (wss : List WorkspaceResponse)
    → find_workspace name wss ≡ ok id
    → IsFirst name id wss
unfolding find_workspace
find_workspace-IsFirst name id [] h = cc
find_workspace-IsFirst name id (ws ∷ rest) h = elim (Bool-cases (ws.name == name)) [
  | inl same ↦ ([], ws, rest, refl, none_left, (eq_iff ws.name name).0 same, cc (rw same at h))
  | inr other ↦
      let (before, found, after, split, unnamed, named, same) =
        find_workspace-IsFirst name id rest (rw other at h) in
      (ws ∷ before, found, after, ap (λ r. ws ∷ r) split, another other unnamed, named, same)
]

find_workspace-split :
    (name : String) (ws : WorkspaceResponse) (before after : List WorkspaceResponse)
    → Unnamed name before
    → ws.name ≡ name
    → find_workspace name (before ++ (ws ∷ after)) ≡ ok ws.id
unfolding find_workspace
find_workspace-split name ws [] after none_left named = rw ((eq_iff ws.name name).1 named)
find_workspace-split name ws (other ∷ before) after (another differs unnamed) named =
    rw differs (find_workspace-split name ws before after unnamed named)

IsFirst-find_workspace :
    (name id : String) (wss : List WorkspaceResponse)
    → IsFirst name id wss
    → find_workspace name wss ≡ ok id
IsFirst-find_workspace name id wss (before, ws, after, split, unnamed, named, same) =
    rw split (find_workspace-split name ws before after unnamed named ∙ ap (λ i. ok i) same)

-- With no name, the first workspace of the list; with a name, the first one that has it.
abbrev pub IsChosen : String → String → List WorkspaceResponse → Type 0
IsChosen name id wss =
    ((name ≡ "")
      × (ws : WorkspaceResponse) × (rest : List WorkspaceResponse) × (wss ≡ ws ∷ rest)
      × (ws.id ≡ id))
    ⊎ (((name == "") ≡ false) × IsFirst name id wss)

choose_workspace-IsChosen :
    (name id : String) (wss : List WorkspaceResponse)
    → choose_workspace name wss ≡ ok id
    → IsChosen name id wss
unfolding choose_workspace
choose_workspace-IsChosen name id [] h = cc
choose_workspace-IsChosen name id (ws ∷ rest) h = elim (Bool-cases (name == "")) [
  | inl unnamed ↦ inl ((eq_iff name "").0 unnamed, ws, rest, refl, cc (rw unnamed at h))
  | inr named ↦ inr (named, find_workspace-IsFirst name id (ws ∷ rest) (rw named at h))
]

named-choose_workspace :
    (name id : String) (wss : List WorkspaceResponse)
    → (name == "") ≡ false
    → find_workspace name wss ≡ ok id
    → choose_workspace name wss ≡ ok id
unfolding choose_workspace find_workspace
named-choose_workspace name id [] named h = cc
named-choose_workspace name id (ws ∷ rest) named h = rw named h

IsChosen-choose_workspace :
    (name id : String) (wss : List WorkspaceResponse)
    → IsChosen name id wss
    → choose_workspace name wss ≡ ok id
unfolding choose_workspace
IsChosen-choose_workspace name id wss (inl (unnamed, ws, rest, split, same)) =
    rw split (rw unnamed (ap (λ i. ok i) same))
IsChosen-choose_workspace name id wss (inr (named, first)) =
    named-choose_workspace name id wss named (IsFirst-find_workspace name id wss first)

-- `ResolveWorkspace` chooses an identifier exactly if it is that of the first workspace that the
-- API lists, where no name is given, or of the first one with the given name.
pub choose_workspace_iff :
    (name id : String) (wss : List WorkspaceResponse)
    → (choose_workspace name wss ≡ ok id) ↔ IsChosen name id wss
choose_workspace_iff name id wss =
    (choose_workspace-IsChosen name id wss, IsChosen-choose_workspace name id wss)
