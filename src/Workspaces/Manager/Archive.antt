-- ===== src/Workspaces/Manager/Archive.antt =====
-- The manager's own operations never lead to a workspace that it can archive.
use lex_mind.Workspaces.Manager.{
  Collaborators, Hall, create_workspace, open_workspace, close_workspace, archive_workspace,
  delete_workspace, free, register, publish, called, workspace_created, WorkspaceEvent,
  WorkspaceStatus, forget_found, transition, load_workspace, acquire, closed, not_found,
  retire_found, take, workspace_closed, archived, workspace_archived, workspace_deleted, once_taken,
  free_with, acquired, take_with,
}
use lex_mind.Workspaces.Manager.Contract.{IsContract}
use lex_mind.Workspaces.Workspace.{
  Workspace, WorkspaceError, status_eq, created, opened, WorkspaceStatus, transition, closed,
  not_found, can_transition, validation_error, archived,
}
use lex_mind.Common.{
  String, ◌≡◌, refl, inl, inr, Bool, true, ◌||◌, none, some, arith, ◌==◌, Bool-cases, Option-cases,
  sym, subst, ◌⊎◌, Option, any, false,
}
use lex_mind.Common.Effect.{ok, err, pure, Outcome, after, ◌>>◌, Outcome-cases}
use lex_mind.Workspaces.Lock.{acquire, Locks}

module _ (c : Collaborators) (laws : IsContract c) where
  -- the states that calls of the manager lead to, from one without workspaces
  pub data Reachable : Hall c → Type 0 where
    empty : {s : Hall c} → ((id : String) → c.find id s.store ≡ none) → Reachable s
    after_create :
        {s : Hall c} (name description owner_id language jurisdiction : String)
        → Reachable s
        → Reachable (create_workspace name description owner_id language jurisdiction s).1
    after_open :
        {s t : Hall c} {result : Outcome WorkspaceError Workspace} (id : String)
        → Reachable s
        → open_workspace id s ≡ some (result, t)
        → Reachable t
    after_close : {s : Hall c} (id : String) → Reachable s → Reachable (close_workspace id s).1
    after_archive : {s : Hall c} (id : String) → Reachable s → Reachable (archive_workspace id s).1
    after_delete : {s : Hall c} (id : String) → Reachable s → Reachable (delete_workspace id s).1

  abbrev fresh : Workspace → Bool
  fresh ws = status_eq ws.status created || status_eq ws.status opened

  -- each registered workspace is created or open
  record IsLive (s : c.Store) : Type 0 where
    live : (id : String) (ws : Workspace) → c.find id s ≡ some ws → fresh ws ≡ true

  IsLive-register :
      (ws : Workspace) (s : c.Store) → fresh ws ≡ true → IsLive s → IsLive (c.register ws s)
  IsLive-register ws s new l = record {
    live = λ id k found. elim (Bool-cases (ws.id == id)) [
      | inl same ↦ ground (arith, laws.find-register ws id s)
      | inr other ↦ l.live id k (ground (arith, laws.find-register ws id s))
    ];
  }

  IsLive-unregister : (k : String) (s : c.Store) → IsLive s → IsLive (c.unregister k s)
  IsLive-unregister k s l = record {
    live = λ id ws found. elim (Bool-cases (k == id)) [
      | inl same ↦ absurd (ground (arith, laws.find-unregister k id s))
      | inr other ↦ l.live id ws (ground (arith, laws.find-unregister k id s))
    ];
  }

  free_with-store :
      (id : String) (s : Hall c) (o : Option Locks) → (free_with id s o).1.store ≡ s.store
  free_with-store id s none = refl
  free_with-store id s (some locks) = refl

  free-store : (id : String) (s : Hall c) → (free id s).1.store ≡ s.store
  free-store id s = free_with-store id s s.lock

  created_keeps :
      (result : Outcome WorkspaceError Workspace) (s : Hall c)
      → ((ws : Workspace) → result ≡ ok ws → fresh ws ≡ true)
      → IsLive s.store
      → IsLive
          (after
            (called result s)
            (λ ws. register ws >> publish (workspace_created ws.id ws.name) >> pure ws)).1.store
  unfolding publish
  created_keeps (err e) s new l = l
  created_keeps (ok ws) s new l = IsLive-register ws s.store (new ws refl) l

  publish_keeps :
      (e : WorkspaceEvent) (r : Outcome WorkspaceError (Unit {0}) × Hall c)
      → IsLive r.1.store
      → IsLive (after r (λ _. publish e)).1.store
  unfolding publish
  publish_keeps e (ok tt, s) l = l
  publish_keeps e (err x, s) l = l

  free_keeps : (id : String) (s : Hall c) → IsLive s.store → IsLive (free id s).1.store
  free_keeps id s l = subst IsLive (sym (free-store id s)) l

  retire_keeps :
      (target : WorkspaceStatus) (event : String → WorkspaceEvent) (id : String)
      (o : Option Workspace) (s : Hall c)
      → IsLive s.store
      → IsLive (retire_found target event id o s).1.store
  retire_keeps target event id none s l = l
  retire_keeps target event id (some ws) s l =
      let gone = record s { store = c.unregister id s.store } in
      elim (Outcome-cases (transition target ws)) [
        | inl (moved, e) ↦ rw e (
            publish_keeps (event moved.id) (free id gone)
              (free_keeps id gone (IsLive-unregister id s.store l)))
        | inr (x, e) ↦ rw e l
      ]

  forget_keeps :
      (id : String) (o : Option Workspace) (s : Hall c)
      → IsLive s.store
      → IsLive (forget_found id o s).1.store
  forget_keeps id none s l = l
  forget_keeps id (some ws) s l =
      let gone = record s { store = c.unregister id s.store } in
      free_keeps id gone (IsLive-unregister id s.store l)

  opened_fresh : (ws k : Workspace) → transition opened ws ≡ ok k → fresh k ≡ true
  unfolding transition can_transition any
  opened_fresh ws k e = ground arith

  load_keeps : (id : String) (s : Hall c) → IsLive s.store → IsLive (load_workspace id s).1.store
  unfolding load_workspace publish
  load_keeps id s l = elim (Outcome-cases (c.load s.calls id)) [
    | inr (x, e) ↦ rw e l
    | inl (ws, e) ↦ elim (Outcome-cases (transition opened ws)) [
      | inr (x, f) ↦ rw (e, f) l
      | inl (k, f) ↦ rw (e, f) (IsLive-register k s.store (opened_fresh ws k f) l)
    ]
  ]

  acquired-store :
      (s t : Hall c) (got : Bool) (o : Option (Bool × Locks))
      → acquired s o ≡ some (got, t)
      → t.store ≡ s.store
  acquired-store s t got none e = cc
  acquired-store s t got (some (b, locks)) e = ground arith

  take_with-store :
      (id : String) (s t : Hall c) (got : Bool) (o : Option Locks)
      → take_with id s o ≡ some (got, t)
      → t.store ≡ s.store
  take_with-store id s t got none e = ground arith
  take_with-store id s t got (some locks) e = acquired-store s t got (acquire false id locks) e

  take-store :
      (id : String) (s t : Hall c) (got : Bool) → take id s ≡ some (got, t) → t.store ≡ s.store
  take-store id s t got e = take_with-store id s t got s.lock e

  once_keeps :
      (id : String) (o : Option (Bool × Hall c)) (t : Hall c)
      (result : Outcome WorkspaceError Workspace)
      → ((u : Hall c) (got : Bool) → o ≡ some (got, u) → IsLive u.store)
      → once_taken id o ≡ some (result, t)
      → IsLive t.store
  once_keeps id none t result l e = cc
  once_keeps id (some (false, u)) t result l e =
      let same : u ≡ t = ground arith in
      subst (λ (v : Hall c). IsLive v.store) same (l u false refl)
  once_keeps id (some (true, u)) t result l e =
      let same : load_workspace id u ≡ (result, t) = ground arith in
      subst (λ (r : Outcome WorkspaceError Workspace × Hall c). IsLive r.1.store) same
        (load_keeps id u (l u true refl))

  open_keeps :
      (id : String) (s t : Hall c) (result : Outcome WorkspaceError Workspace)
      → open_workspace id s ≡ some (result, t)
      → IsLive s.store
      → IsLive t.store
  unfolding open_workspace
  open_keeps id s t result e l = elim (Bool-cases (c.is_registered id s.store)) [
    | inl there ↦ let same : s ≡ t = ground arith in subst (λ (u : Hall c). IsLive u.store) same l
    | inr free_id ↦
        once_keeps id (take id s) t result
          (λ u got f. subst IsLive (sym (take-store id s u got f)) l) (rw free_id at e)
  ]

  Reachable-IsLive : (s : Hall c) → Reachable s → IsLive s.store
  unfolding create_workspace close_workspace archive_workspace delete_workspace
  Reachable-IsLive s (empty none_there) = record {
    live = λ id ws found. absurd (ground (arith, none_there id));
  }
  Reachable-IsLive _ (after_create {s} name description owner_id language jurisdiction r) =
      created_keeps (c.create s.calls name description owner_id language jurisdiction) s
        (λ ws e.
          ground (arith, laws.creates s.calls name description owner_id language jurisdiction ws e))
        (Reachable-IsLive s r)
  Reachable-IsLive t (after_open {s} {result = result} id r e) =
      open_keeps id s t result e (Reachable-IsLive s r)
  Reachable-IsLive _ (after_close {s} id r) =
      retire_keeps closed workspace_closed id (c.find id s.store) s (Reachable-IsLive s r)
  Reachable-IsLive _ (after_archive {s} id r) =
      retire_keeps archived workspace_archived id (c.find id s.store) s (Reachable-IsLive s r)
  Reachable-IsLive _ (after_delete {s} id r) =
      publish_keeps (workspace_deleted id) (forget_found id (c.find id s.store) s)
        (forget_keeps id (c.find id s.store) s (Reachable-IsLive s r))

  refuses : (ws : Workspace) → fresh ws ≡ true → transition archived ws ≡ err validation_error
  unfolding transition can_transition any
  refuses ws f = ground arith

  -- After any calls of the manager, from a state without workspaces, `archive_workspace` raises for
  -- every id and changes nothing.
  pub archive_fails :
      (s : Hall c) (id : String)
      → Reachable s
      → (archive_workspace id s ≡ (err not_found, s))
        ⊎ (archive_workspace id s ≡ (err validation_error, s))
  unfolding archive_workspace
  archive_fails s id r = elim (Option-cases (c.find id s.store)) [
    | inl absent ↦ inl (rw absent refl)
    | inr (ws, found) ↦ inr (rw (found, refuses ws ((Reachable-IsLive s r).live id ws found)) refl)
  ]
