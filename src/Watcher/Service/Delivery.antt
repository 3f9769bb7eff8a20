-- ===== src/Watcher/Service/Delivery.antt =====
-- What reaches the dispatcher: after a flush, the last change of each file.
use lex_mind.Watcher.Config.{WatchConfig, BackendFileEvent}
use lex_mind.Watcher.Service.{
  Watcher, Pending, FileEvent, file_event, dispatch, dispatch_with, release_found, release_each,
  due_in, drain,
}
use lex_mind.Common.{
  ℕ, String, Bool, true, false, ◌≡◌, refl, sym, ◌∙◌, ap, subst, inl, inr, Option, none, some, List,
  [], ◌∷◌, ◌++◌, ◌==◌, if◌then◌else◌, arith, eq_iff, Bool-cases, if_true, if_false,
}
use lex_mind.Common.Dict.{get, pop, get-pop}

abbrev pub or_this : Option FileEvent → Bool → FileEvent → Option FileEvent
or_this (some x) b e = some x
or_this none b e = if b then some e else none

-- the last event about a file
unfoldable pub last_for : String → List FileEvent → Option FileEvent
last_for uri [] = none
last_for uri (e ∷ l) = or_this (last_for uri l) (e.uri == uri) e

last_for-snoc :
    (uri : String) (l : List FileEvent) (e : FileEvent)
    → last_for uri (l ++ e ∷ []) ≡ (if e.uri == uri then some e else last_for uri l)
unfolding last_for
last_for-snoc uri [] e = ground arith
last_for-snoc uri (x ∷ l) e = elim (Bool-cases (e.uri == uri)) [
  | inl same ↦
      rw same (ap (λ o. or_this o (x.uri == uri) x) (last_for-snoc uri l e ∙ if_true _ _ same))
  | inr other ↦
      rw other (ap (λ o. or_this o (x.uri == uri) x) (last_for-snoc uri l e ∙ if_false _ _ other))
]

-- the entry of a file is an event about it, of a watch that is registered
abbrev pub Fits : Watcher → String → Option Pending → Type 0
Fits s uri none = Unit
Fits s uri (some p) =
    (p.event.uri ≡ uri) × (config : WatchConfig) × (get s.configs p.event.watch_id ≡ some config)

abbrev pub IsSound : Watcher → Type 0
IsSound s = (uri : String) → Fits s uri (get s.pending uri)

abbrev pub event_with : Option WatchConfig → BackendFileEvent → Option FileEvent
event_with none raw = none
event_with (some config) raw = some (file_event config raw)

abbrev pub pending_or_last : Watcher → String → Option Pending → Option FileEvent
pending_or_last s uri none = last_for uri s.dispatched
pending_or_last s uri (some p) = event_with (get s.configs p.event.watch_id) p.event

-- the last change of a file that was taken, delivered or not
unfoldable pub latest : String → Watcher → Option FileEvent
latest uri s = pending_or_last s uri (get s.pending uri)

-- a step that only delivers
pub record Delivers (s t : Watcher) : Type 0 where
  pub configs : t.configs ≡ s.configs
  pub sound : IsSound t
  pub same : (uri : String) → latest uri t ≡ latest uri s

-- one more event about another file changes nothing for a file
other_kept :
    (s t : Watcher) (k : String) (e : FileEvent) (o : Option Pending)
    → t.configs ≡ s.configs
    → t.dispatched ≡ s.dispatched ++ e ∷ []
    → (e.uri == k) ≡ false
    → pending_or_last t k o ≡ pending_or_last s k o
other_kept s t k e none registered longer other =
    ap (last_for k) longer ∙ last_for-snoc k s.dispatched e ∙ if_false _ _ other
other_kept s t k e (some p) registered longer other =
    ap (λ c. event_with (get c p.event.watch_id) p.event) registered

release_found-Delivers :
    (uri : String) (found : Option Pending) (s : Watcher)
    → IsSound s
    → get s.pending uri ≡ found
    → Delivers s (release_found uri found s)
unfolding dispatch latest
release_found-Delivers uri none s h look = record { configs = refl; sound = h; same = λ u. refl }
release_found-Delivers uri (some p) s h look =
    let (about, config, registered) = subst (Fits s uri) look (h uri) in
    let e = file_event config p.event in
    let t : Watcher = record s {
      pending = pop s.pending uri;
      dispatched = s.dispatched ++ e ∷ [];
    } in
    let ran : t ≡ release_found uri (some p) s =
      ap (λ c. dispatch_with c p.event (record s { pending = pop s.pending uri }))
        (sym registered) in
    let gone : (k : String) → (uri == k) ≡ true → get t.pending k ≡ none =
      λ k same. get-pop s.pending uri k ∙ if_true _ _ same in
    let kept : (k : String) → (uri == k) ≡ false → get t.pending k ≡ get s.pending k =
      λ k other. get-pop s.pending uri k ∙ if_false _ _ other in
    subst (Delivers s) ran (record {
      configs = refl;
      sound = λ k. elim (Bool-cases (uri == k)) [
        | inl same ↦ subst (Fits t k) (sym (gone k same)) tt
        | inr other ↦
            subst (Fits t k) (sym (kept k other)) (sound_kept s t k (get s.pending k) refl (h k))
      ];
      same = λ k. elim (Bool-cases (uri == k)) [
        | inl same ↦
            ap (pending_or_last t k) (gone k same)
            ∙ last_for-snoc k s.dispatched e
            ∙ if_true _ _ (ap (λ u. u == k) about ∙ same)
            ∙ sym (
                ap (pending_or_last s k) (ap (get s.pending) (sym ((eq_iff uri k).0 same)) ∙ look)
                ∙ ap (λ c. event_with c p.event) registered)
        | inr other ↦
            ap (pending_or_last t k) (kept k other)
            ∙ other_kept s t k e (get s.pending k) refl refl (ap (λ u. u == k) about ∙ other)
      ];
    })
  where
    sound_kept :
        (s t : Watcher) (k : String) (o : Option Pending)
        → t.configs ≡ s.configs
        → Fits s k o
        → Fits t k o
    sound_kept s t k none same h = tt
    sound_kept s t k (some p) same (about, config, registered) =
        (about, config, ap (λ c. get c p.event.watch_id) same ∙ registered)

pub Delivers-trans : {s t u : Watcher} → Delivers s t → Delivers t u → Delivers s u
Delivers-trans h k = record {
  configs = k.configs ∙ h.configs;
  sound = k.sound;
  same = λ uri. k.same uri ∙ h.same uri;
}

release_each-Delivers : (l : List String) (s : Watcher) → IsSound s → Delivers s (release_each l s)
unfolding release_each
release_each-Delivers [] s h = record { configs = refl; sound = h; same = λ u. refl }
release_each-Delivers (uri ∷ l) s h =
    let k = release_found-Delivers uri (get s.pending uri) s h refl in
    Delivers-trans k (release_each-Delivers l (release_found uri (get s.pending uri) s) k.sound)

pub drain-Delivers :
    (now : ℕ) (force : Bool) (s : Watcher) → IsSound s → Delivers s (drain now force s)
unfolding drain
drain-Delivers now force s h = release_each-Delivers (due_in now force s s.pending) s h
