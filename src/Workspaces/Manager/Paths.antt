-- ===== src/Workspaces/Manager/Paths.antt =====
-- Opening and closing a workspace, with the lock, on the way that succeeds and on the one that
-- does not.
use lex_mind.Workspaces.Manager.{
  Collaborators, Hall, open_workspace, load_workspace, close_workspace, once_taken, take, take_with,
  acquired, retire_found, free_with, locking, publish, workspace_opened, workspace_closed,
}
use lex_mind.Workspaces.Manager.Contract.{IsContract}
use lex_mind.Workspaces.Lock.{Locks, acquire, release}
use lex_mind.Workspaces.Workspace.{
  Workspace, WorkspaceError, transition, can_transition, opened, closed,
}
use lex_mind.Common.{
  ◌+◌, String, ◌≡◌, refl, ◌∙◌, false, none, some, ◌∷◌, if◌then◌else◌, contains, ap, true, eq_refl,
  is_some, sym, subst, inl, inr, not, List, [], arith, ◌==◌, eq_iff, Bool-cases, filter, any,
}
use lex_mind.Common.Effect.{err, ok, published, after}
use lex_mind.Common.Dict.{put, pop}

-- the locks with the one of `id` taken
abbrev pub took : Locks → String → Locks
took locks id = record locks {
  known = if contains locks.known id then locks.known else id ∷ locks.known;
  taken = id ∷ locks.taken;
  held = put locks.held id locks.owner_name;
}

module _ (c : Collaborators) (laws : IsContract c) where
  -- a lock that can be taken, for an id that is not registered
  pub record IsFree (id : String) (s : Hall c) (locks : Locks) : Type 0 where
    pub guarded : s.lock ≡ some locks
    pub idle : contains locks.taken id ≡ false
    pub absent : c.find id s.store ≡ none

  acquire_idle :
      (id : String) (locks : Locks)
      → contains locks.taken id ≡ false
      → acquire false id locks ≡ some (true, took locks id)
  unfolding acquire
  acquire_idle id locks h = rw h refl

  acquire_busy :
      (id : String) (locks : Locks) → contains locks.taken id ≡ true → acquire false id locks ≡ none
  unfolding acquire
  acquire_busy id locks h = rw h refl

  take_idle :
      (id : String) (s : Hall c) (locks : Locks)
      → s.lock ≡ some locks
      → contains locks.taken id ≡ false
      → take id s ≡ some (true, record s { lock = some (took locks id) })
  take_idle id s locks given h =
      ap (take_with id s) given ∙ ap (acquired s) (acquire_idle id locks h)

  take_busy :
      (id : String) (s : Hall c) (locks : Locks)
      → s.lock ≡ some locks
      → contains locks.taken id ≡ true
      → take id s ≡ none
  take_busy id s locks given h =
      ap (take_with id s) given ∙ ap (acquired s) (acquire_busy id locks h)

  opens :
      (id : String) (s : Hall c) (locks : Locks)
      → IsFree id s locks
      → open_workspace id s ≡ some (load_workspace id (record s { lock = some (took locks id) }))
  unfolding open_workspace
  opens id s locks f =
      let unknown : c.is_registered id s.store ≡ false =
        laws.is_registered_lem id s.store ∙ ap is_some f.absent in
      rw unknown (ap (once_taken id) (take_idle id s locks f.guarded f.idle))

  waits :
      (id : String) (t : Hall c) (locks : Locks)
      → c.is_registered id t.store ≡ false
      → t.lock ≡ some locks
      → contains locks.taken id ≡ true
      → open_workspace id t ≡ none
  unfolding open_workspace
  waits id t locks unknown given busy =
      rw unknown (ap (once_taken id) (take_busy id t locks given busy))

  -- If the loader raises after the lock was acquired, for an id that is not registered,
  -- `open_workspace` raises and keeps the lock: a second call for the same id waits for ever.
  pub open_leaks :
      (id : String) (s : Hall c) (locks : Locks) (e : WorkspaceError)
      → IsFree id s locks
      → c.load s.calls id ≡ err e
      → (t : Hall c) × (open_workspace id s ≡ some (err e, t)) × (open_workspace id t ≡ none)
  unfolding load_workspace contains
  open_leaks id s locks e f broken =
      let t = record s { lock = some (took locks id); calls = s.calls + 1 } in
      (
        t,
        opens id s locks f ∙ rw broken refl,
        waits id t (took locks id) (laws.is_registered_lem id s.store ∙ ap is_some f.absent) refl
            (rw (eq_refl id) refl),
      )

  known_taken : (id : String) (locks : Locks) → contains (took locks id).known id ≡ true
  unfolding contains
  known_taken id locks = elim (Bool-cases (contains locks.known id)) [
    | inl known ↦ rw known known
    | inr new ↦ rw new (rw (eq_refl id) refl)
  ]

  -- the locks after `id` was freed again
  abbrev pub freed : Locks → String → Locks
  freed locks id = record locks {
    taken = filter (λ b. not (b == id)) locks.taken;
    held = pop locks.held id;
  }

  release_taken :
      (id : String) (locks : Locks)
      → contains locks.known id ≡ true
      → contains locks.taken id ≡ true
      → release id locks ≡ (ok tt, freed locks id)
  unfolding release
  release_taken id locks known taken = rw (known, taken) refl

  taken_before :
      (id i : String) (l : List String)
      → contains l id ≡ false
      → contains (filter (λ b. not (b == id)) l) i ≡ contains l i
  unfolding contains filter
  taken_before id i [] h = refl
  taken_before id i (b ∷ l) h = ground (arith, taken_before id i l)

  taken_again :
      (id i : String) (locks : Locks)
      → contains locks.taken id ≡ false
      → contains (freed (took locks id) id).taken i ≡ contains locks.taken i
  unfolding filter
  taken_again id i locks h = rw (eq_refl id) (taken_before id i locks.taken h)

  closing :
      (k : Workspace) → k.status ≡ opened → transition closed k ≡ ok (record k { status = closed })
  unfolding transition can_transition any
  closing k e = ground arith

  opening :
      (ws : Workspace)
      → can_transition ws.status opened ≡ true
      → transition opened ws ≡ ok (record ws { status = opened })
  unfolding transition
  opening ws e = rw e refl

  closes :
      (id : String) (t : Hall c) (k : Workspace) (locks : Locks)
      → c.find id t.store ≡ some k
      → k.status ≡ opened
      → t.lock ≡ some locks
      → contains locks.known id ≡ true
      → contains locks.taken id ≡ true
      → close_workspace id t ≡ (
        ok tt,
        record t {
          store = c.unregister id t.store;
          lock = some (freed locks id);
          bus = published t.bus (workspace_closed k.id);
        },
      )
  unfolding close_workspace publish
  closes id t k locks found is_open given known taken =
      let gone = record t { store = c.unregister id t.store } in
      let free_again : free_with id gone t.lock
          ≡ (ok tt, record gone { lock = some (freed locks id) }) =
        ap (free_with id gone) given ∙ ap (locking gone) (release_taken id locks known taken) in
      ap (λ o. retire_found closed workspace_closed id o t) found
      ∙ rw (closing k is_open) (ap (λ r. after r (λ _. publish (workspace_closed k.id))) free_again)

  now_taken : (id : String) (locks : Locks) → contains (took locks id).taken id ≡ true
  unfolding contains
  now_taken id locks = rw (eq_refl id) refl

  unregistered :
      (id i : String) (k : Workspace) (s : Hall c)
      → c.find id s.store ≡ none
      → (k.id == id) ≡ true
      → c.find i (c.unregister id (c.register k s.store)) ≡ c.find i s.store
  unregistered id i k s absent same =
      laws.find-unregister id i (c.register k s.store) ∙ elim (Bool-cases (id == i)) [
        | inl here ↦
            rw here (sym (subst (λ j. c.find j s.store ≡ none) ((eq_iff id i).0 here) absent))
        | inr other ↦
            let elsewhere : (k.id == i) ≡ false =
              ap (λ j. j == i) ((eq_iff k.id id).0 same) ∙ other in
            rw other (laws.find-register k i s.store ∙ rw elsewhere refl)
      ]

  -- `open_workspace` of a workspace that is not registered and can be opened, its lock being free,
  -- registers it as open; `close_workspace` then takes it out of the registry and leaves exactly
  -- the locks taken that were taken before. Each publishes its event.
  pub open_close :
      (id : String) (s : Hall c) (locks : Locks) (ws : Workspace)
      → IsFree id s locks
      → c.load s.calls id ≡ ok ws
      → can_transition ws.status opened ≡ true
      → (k : Workspace) × (t : Hall c) × (u : Hall c) × (after_locks : Locks) × (open_workspace id s
          ≡ some (ok k, t))
        × (k.status ≡ opened)
        × (c.find id t.store ≡ some k)
        × (close_workspace id t ≡ (ok tt, u))
        × ((i : String) → c.find i u.store ≡ c.find i s.store)
        × (u.lock ≡ some after_locks)
        × ((i : String) → contains after_locks.taken i ≡ contains locks.taken i)
        × (u.bus ≡ published (published s.bus (workspace_opened k.id)) (workspace_closed k.id))
  unfolding load_workspace publish
  open_close id s locks ws f loaded legal =
      let k = record ws { status = opened } in
      let inside = took locks id in
      let t = record s {
        store = c.register k s.store;
        lock = some inside;
        bus = published s.bus (workspace_opened k.id);
        calls = s.calls + 1;
      } in
      let same : (k.id == id) ≡ true =
        ap (λ i. i == id) (laws.loads-id s.calls id ws loaded) ∙ eq_refl id in
      let found : c.find id t.store ≡ some k = laws.find-register k id s.store ∙ rw same refl in
      (
        k,
        t,
        record t {
          store = c.unregister id t.store;
          lock = some (freed inside id);
          bus = published t.bus (workspace_closed k.id);
        },
        freed inside id,
        opens id s locks f ∙ rw (loaded, opening ws legal) refl,
        refl,
        found,
        closes id t k inside found refl refl (known_taken id locks) (now_taken id locks),
        λ i. unregistered id i k s f.absent same,
        refl,
        λ i. taken_again id i locks f.idle,
        refl,
      )
