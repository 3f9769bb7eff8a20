-- ===== src/Imports/Queue/Contract.antt =====
-- What the queue relies on in its repository, and what an operation makes of one request.
use lex_mind.Imports.Queue.{ImportRepository, State, QueueEvent}
use lex_mind.Imports.Request.{ImportRequest, RequestStatus, pending}
use lex_mind.Common.{String, ◌≡◌, sym, subst, none, some, ◌==◌, if◌then◌else◌, All}
use lex_mind.Common.Effect.{ok, published}

pub record IsImportRepository (r : ImportRepository) : Type 0 where
  pub get_by_id-id :
      (id : String) (q : ImportRequest) (s : r.Store)
      → r.get_by_id id s ≡ some q
      → q.request_id ≡ id
  pub create_absent :
      (q : ImportRequest) (s : r.Store)
      → r.get_by_id q.request_id s ≡ none
      → (t : r.Store) × (r.create q s ≡ ok (q, t))
        × ((id : String)
            → r.get_by_id id t ≡ (if q.request_id == id then some q else r.get_by_id id s))
  pub update_present :
      (q old : ImportRequest) (s : r.Store)
      → r.get_by_id q.request_id s ≡ some old
      → (t : r.Store) × (r.update q s ≡ ok (q, t))
        × ((id : String)
            → r.get_by_id id t ≡ (if q.request_id == id then some q else r.get_by_id id s))
  pub list_pending_waits :
      (s : r.Store)
      → All (λ q. (r.get_by_id q.request_id s ≡ some q) × (q.status ≡ pending)) (r.list_pending s)

module _ (r : ImportRepository) (laws : IsImportRepository r) where
  -- `q` became `k`: `k` is stored under the id of `q`, all else as before, and one event was published.
  pub record Became (q : ImportRequest) (status : RequestStatus) (event : QueueEvent) (s : State r)
      (k : ImportRequest) (t : State r) : Type 0 where
    pub found :
        (id : String)
        → r.get_by_id id t.store ≡ (if k.request_id == id then some k else r.get_by_id id s.store)
    pub same_id : k.request_id ≡ q.request_id
    pub now : k.status ≡ status
    pub announced : t.bus ≡ published s.bus event

  pub held :
      (id : String) (q : ImportRequest) (s : State r)
      → r.get_by_id id s.store ≡ some q
      → r.get_by_id q.request_id s.store ≡ some q
  held id q s found =
      subst (λ i. r.get_by_id i s.store ≡ some q) (sym (laws.get_by_id-id id q s.store found)) found
