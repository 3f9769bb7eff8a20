-- ===== src/Watcher/Service/Last.antt =====
-- After a flush, the last change of each file that was taken is the last that the dispatcher was given.
use lex_mind.Watcher.Config.{WatchConfig, BackendFileEvent, accepts_extension}
use lex_mind.Watcher.Service.{
  Watcher, Pending, FileEvent, file_event, buffer, on_backend_event, receive, dispatch,
  release_each, due_in, flush, release_found, drain, dispatch_with,
}
use lex_mind.Watcher.Service.Delivery.{
  Fits, IsSound, pending_or_last, latest, drain-Delivers, event_with, last_for,
}
use lex_mind.Common.{
  ℕ, ◌+◌, String, false, not, ◌&&◌, ◌≡◌, refl, sym, ◌∙◌, ap, subst, inl, inr, Option, none, some,
  List, [], ◌∷◌, ◌==◌, if◌then◌else◌, eq_iff, Bool-cases, Option-cases, if_true, if_false, true,
  arith, contains,
}
use lex_mind.Common.Dict.{Dict, get, put, get-put, has, pop, get-pop}

-- what is made of a raw event: nothing, where its watch is not registered or not enabled, or where the
-- watch does not take files of this kind
abbrev pub taken_with : (String → String) → Option WatchConfig → BackendFileEvent → Option FileEvent
taken_with lower none raw = none
taken_with lower (some config) raw =
    if config.enabled && accepts_extension lower raw.uri config
    then some (file_event config raw)
    else none

abbrev pub taken : (String → String) → Dict WatchConfig → BackendFileEvent → Option FileEvent
taken lower configs raw = taken_with lower (get configs raw.watch_id) raw

abbrev pub updated :
    String → BackendFileEvent → Option FileEvent → Option FileEvent → Option FileEvent
updated uri raw none before = before
updated uri raw (some e) before = if raw.uri == uri then some e else before

-- the last event about a file that is taken, of a list, after `before`
unfoldable pub last_taken :
    (String → String)
    → Dict WatchConfig
    → String
    → List BackendFileEvent
    → Option FileEvent
    → Option FileEvent
last_taken lower configs uri [] before = before
last_taken lower configs uri (raw ∷ l) before =
    last_taken lower configs uri l (updated uri raw (taken lower configs raw) before)

module _ (clock : ℕ → ℕ) (lower : String → String) where
  unfoldable pub receive_each : List BackendFileEvent → Watcher → Watcher
  receive_each [] s = s
  receive_each (raw ∷ l) s = receive_each l (on_backend_event clock lower raw s)

  -- after one event
  record Takes (raw : BackendFileEvent) (s t : Watcher) : Type 0 where
    configs : t.configs ≡ s.configs
    sound : IsSound t
    last :
        (uri : String) → latest uri t ≡ updated uri raw (taken lower s.configs raw) (latest uri s)

  buffered-IsSound :
      (raw : BackendFileEvent) (config : WatchConfig) (s t : Watcher)
      → t.configs ≡ s.configs
      → t.pending ≡ put s.pending raw.uri (record { timestamp = clock s.readings; event = raw })
      → get s.configs raw.watch_id ≡ some config
      → IsSound s
      → IsSound t
  buffered-IsSound raw config s t same filled registered h uri =
      let p : Pending = record { timestamp = clock s.readings; event = raw } in
      let look : get t.pending uri ≡ (if raw.uri == uri then some p else get s.pending uri) =
        ap (λ d. get d uri) filled ∙ get-put s.pending raw.uri uri p in
      elim (Bool-cases (raw.uri == uri)) [
        | inl here ↦
            subst (Fits t uri) (sym (look ∙ if_true _ _ here))
              ((eq_iff raw.uri uri).0 here, config, ap (λ c. get c raw.watch_id) same ∙ registered)
        | inr other ↦
            subst (Fits t uri) (sym (look ∙ if_false _ _ other)) (moved (get s.pending uri) (h uri))
      ]
    where
      moved : (o : Option Pending) → Fits s uri o → Fits t uri o
      moved none k = tt
      moved (some q) (about, c, known) = (about, c, ap (λ d. get d q.event.watch_id) same ∙ known)

  buffer-Takes :
      (raw : BackendFileEvent) (config : WatchConfig) (s : Watcher)
      → IsSound s
      → get s.configs raw.watch_id ≡ some config
      → taken lower s.configs raw ≡ some (file_event config raw)
      → Takes raw s (buffer clock raw s)
  unfolding latest
  buffer-Takes raw config s h registered takes =
      let p : Pending = record { timestamp = clock s.readings; event = raw } in
      let t : Watcher = record s { pending = put s.pending raw.uri p; readings = s.readings + 1 } in
      let sound = buffered-IsSound raw config s t refl refl registered h in
      let k = drain-Delivers (clock s.readings) false t sound in
      record {
        configs = k.configs;
        sound = k.sound;
        last = λ uri. k.same uri ∙ elim (Bool-cases (raw.uri == uri)) [
          | inl here ↦
              ap (pending_or_last t uri) (get-put s.pending raw.uri uri p ∙ if_true _ _ here)
              ∙ ap (λ c. event_with c raw) registered
              ∙ sym (ap (λ o. updated uri raw o (latest uri s)) takes ∙ if_true _ _ here)
          | inr other ↦
              ap (pending_or_last t uri) (get-put s.pending raw.uri uri p ∙ if_false _ _ other)
              ∙ sym (ap (λ o. updated uri raw o (latest uri s)) takes ∙ if_false _ _ other)
        ];
      }

  on_backend_event-Takes :
      (raw : BackendFileEvent) (s : Watcher)
      → IsSound s
      → Takes raw s (on_backend_event clock lower raw s)
  unfolding on_backend_event
  on_backend_event-Takes raw s h = elim (Option-cases (get s.configs raw.watch_id)) [
    | inl unknown ↦
        subst (Takes raw s) (sym (ap (λ c. receive clock lower c raw s) unknown))
          (left_alone (ap (λ c. taken_with lower c raw) unknown))
    | inr (config, registered) ↦
        subst (Takes raw s) (sym (ap (λ c. receive clock lower c raw s) registered))
          (received config registered)
  ]
    where
      left_alone : taken lower s.configs raw ≡ none → Takes raw s s
      left_alone nothing = record {
        configs = refl;
        sound = h;
        last = λ uri. sym (ap (λ o. updated uri raw o (latest uri s)) nothing);
      }

      received :
          (config : WatchConfig)
          → get s.configs raw.watch_id ≡ some config
          → Takes raw s (receive clock lower (some config) raw s)
      received config registered =
          let met = ap (λ c. taken_with lower c raw) registered in
          elim (Bool-cases config.enabled) [
            | inr off ↦ subst (Takes raw s) (sym (if_true _ _ (ap not off))) (
                left_alone
                  (met ∙ if_false _ _ (ap (λ b. b && accepts_extension lower raw.uri config) off)))
            | inl on ↦ elim (Bool-cases (accepts_extension lower raw.uri config)) [
              | inr other ↦
                  subst (Takes raw s) (sym (if_false _ _ (ap not on) ∙ if_true _ _ (ap not other)))
                    (left_alone (
                      met
                      ∙ if_false _ _
                          (ap (λ b. b && accepts_extension lower raw.uri config) on ∙ other)))
              | inl fits ↦
                  subst (Takes raw s) (sym (if_false _ _ (ap not on) ∙ if_false _ _ (ap not fits)))
                    (buffer-Takes raw config s h registered (
                      met
                      ∙ if_true _ _
                          (ap (λ b. b && accepts_extension lower raw.uri config) on ∙ fits)))
            ]
          ]

  -- after several
  receive_each-last :
      (l : List BackendFileEvent) (s : Watcher)
      → IsSound s
      → IsSound (receive_each l s)
        × ((uri : String)
            → latest uri (receive_each l s) ≡ last_taken lower s.configs uri l (latest uri s))
  unfolding receive_each last_taken
  receive_each-last [] s h = (h, λ uri. refl)
  receive_each-last (raw ∷ l) s h =
      let t = on_backend_event clock lower raw s in
      let k = on_backend_event-Takes raw s h in
      let (sound, last) = receive_each-last l t k.sound in
      (
        sound,
        λ uri.
            last uri
            ∙ ap (λ c. last_taken lower c uri l (latest uri t)) k.configs
            ∙ ap (last_taken lower s.configs uri l) (k.last uri),
      )

release_found-pending :
    (uri k : String) (found : Option Pending) (s : Watcher)
    → get s.pending uri ≡ found
    → get (release_found uri found s).pending k ≡ (if uri == k then none else get s.pending k)
unfolding dispatch
release_found-pending uri k none s look = elim (Bool-cases (uri == k)) [
  | inl same ↦ ap (get s.pending) (sym ((eq_iff uri k).0 same)) ∙ look ∙ sym (if_true _ _ same)
  | inr other ↦ sym (if_false _ _ other)
]
release_found-pending uri k (some p) s look =
    ap (λ (d : Dict Pending). get d k)
      (dispatch-pending (get s.configs p.event.watch_id) p.event
        (record s { pending = pop s.pending uri }))
    ∙ get-pop s.pending uri k
  where
    dispatch-pending :
        (c : Option WatchConfig) (raw : BackendFileEvent) (s : Watcher)
        → (dispatch_with c raw s).pending ≡ s.pending
    dispatch-pending none raw s = refl
    dispatch-pending (some config) raw s = refl

release_each-pending :
    (l : List String) (k : String) (s : Watcher)
    → get (release_each l s).pending k ≡ (if contains l k then none else get s.pending k)
unfolding release_each contains
release_each-pending [] k s = refl
release_each-pending (uri ∷ l) k s =
    let t = release_found uri (get s.pending uri) s in
    release_each-pending l k t
    ∙ ground (arith, release_found-pending uri k (get s.pending uri) s refl)

due_in_forced :
    (now : ℕ) (s : Watcher) (d : Dict Pending) (k : String)
    → contains (due_in now true s d) k ≡ has d k
unfolding due_in contains get
due_in_forced now s [] k = refl
due_in_forced now s ((uri, p) ∷ rest) k = ground (arith, due_in_forced now s rest k)

-- After any raw events and a flush, no file has a change that waits, and the last event about a file
-- that the dispatcher was given is the last one that was taken, whatever the clock says and however the
-- events were coalesced: nothing is lost but what a later change of the same file replaces. An event is
-- taken where its watch is registered and enabled and takes files of this kind. The state at the start
-- is sound: what waits for a file is about it, and of a watch that is registered.
pub flush_delivers :
    (clock : ℕ → ℕ) (lower : String → String) (l : List BackendFileEvent) (s : Watcher)
    → IsSound s
    → ((uri : String) → get (flush clock (receive_each clock lower l s)).pending uri ≡ none)
      × ((uri : String)
          → last_for uri (flush clock (receive_each clock lower l s)).dispatched
            ≡ last_taken lower s.configs uri l (latest uri s))
unfolding flush drain latest
flush_delivers clock lower l s h =
    let t = receive_each clock lower l s in
    let u : Watcher = record t { readings = t.readings + 1 } in
    let v = flush clock t in
    let (sound, last) = receive_each-last clock lower l s h in
    let empty : (uri : String) → get v.pending uri ≡ none = λ uri.
      release_each-pending (due_in (clock t.readings) true u t.pending) uri u
      ∙ ground (arith, due_in_forced (clock t.readings) u t.pending uri, get t.pending uri) in
    let k = drain-Delivers (clock t.readings) true u sound in
    (empty, λ uri. settled v uri (empty uri) ∙ k.same uri ∙ unread uri t ∙ last uri)
  where
    settled :
        (v : Watcher) (uri : String)
        → get v.pending uri ≡ none
        → last_for uri v.dispatched ≡ latest uri v
    settled v uri empty = sym (ap (pending_or_last v uri) empty)

    unread :
        (uri : String) (t : Watcher)
        → latest uri (record t { readings = t.readings + 1 }) ≡ latest uri t
    unread uri t = refl
