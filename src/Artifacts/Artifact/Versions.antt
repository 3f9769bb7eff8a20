-- ===== src/Artifacts/Artifact/Versions.antt =====
-- What holds of an artifact after any calls of its methods.
use lex_mind.Artifacts.Artifact.{
  Artifact, ArtifactStatus, ArtifactVersion, deleted, archived, status_eq, transition,
  can_transition_artifact, delete, create_new_version, with_version, next_version, latest_version,
  last?, add_tag, remove_tag, contains, filter, any,
}
use lex_mind.Common.{
  ℕ, ◌+◌, String, ◌≡◌, refl, inl, inr, Bool, false, some, List, [], ◌∷◌, ◌++◌, arith, eq_iff,
  length, Bool-cases, contains, filter, contains-append, sym, ap, ◌∙◌, subst, ◌||◌, length-append,
  any,
}
use lex_mind.Common.Effect.{ok}

-- one successful call of a method that changes the artifact
pub data Step (a : Artifact) : Artifact → Type 0 where
  moved :
      {b : Artifact} (target : ArtifactStatus) (now : ℕ) → transition target now a ≡ ok b → Step a b
  erased : (now : ℕ) → Step a (delete now a)
  renewed :
      {b : Artifact} (content v : ArtifactVersion) (now : ℕ)
      → create_new_version content now a ≡ ok (v, b)
      → Step a b
  tagged : (tag : String) (now : ℕ) → Step a (add_tag tag now a)
  untagged : (tag : String) (now : ℕ) → Step a (remove_tag tag now a)

pub data Steps (a : Artifact) : Artifact → Type 0 where
  here : Steps a a
  more : {b c : Artifact} → Steps a b → Step b c → Steps a c

-- `l` has the version numbers `first`, `first + 1` and so on
abbrev pub Numbered : ℕ → List ArtifactVersion → Type 0
Numbered first [] = Unit
Numbered first (v ∷ l) = (v.version_number ≡ first) × Numbered (first + 1) l

abbrev pub NoTwice : List String → Type 0
NoTwice [] = Unit
NoTwice (x ∷ l) = (contains l x ≡ false) × NoTwice l

-- what a new artifact has, its versions being recorded from the second one on
pub record IsSound (a : Artifact) : Type 0 where
  pub numbered : Numbered 2 a.versions
  pub counted : length a.versions + 1 ≡ a.current_version
  pub fresh :
      (v : ArtifactVersion)
      → latest_version a ≡ some v
      → (v.checksum ≡ a.checksum) × (v.version_number ≡ a.current_version)
  pub distinct_tags : NoTwice a.tags

Numbered-snoc :
    (first : ℕ) (l : List ArtifactVersion) (v : ArtifactVersion)
    → Numbered first l
    → v.version_number ≡ first + length l
    → Numbered first (l ++ v ∷ [])
Numbered-snoc first [] v n e = (omega (arith, e), tt)
Numbered-snoc first (w ∷ l) v (k, n) e = (k, Numbered-snoc (first + 1) l v n (omega (arith, e)))

last-snoc : {A : Type 0} (l : List A) (x : A) → last? (l ++ x ∷ []) ≡ some x
last-snoc [] x = refl
last-snoc (y ∷ []) x = refl
last-snoc (y ∷ z ∷ l) x = last-snoc (z ∷ l) x

NoTwice-snoc :
    (l : List String) (x : String) → contains l x ≡ false → NoTwice l → NoTwice (l ++ x ∷ [])
unfolding contains
NoTwice-snoc [] x h n = (refl, tt)
NoTwice-snoc (y ∷ l) x h (k, n) = (
  ground (arith, contains-append l (x ∷ []) y, eq_iff y x, eq_iff x y),
  NoTwice-snoc l x (ground arith) n,
)

contains-filter :
    (p : String → Bool) (l : List String) (x : String)
    → contains l x ≡ false
    → contains (filter p l) x ≡ false
unfolding contains filter
contains-filter p [] x h = refl
contains-filter p (y ∷ l) x h = ground (arith, contains-filter p l x)

NoTwice-filter : (p : String → Bool) (l : List String) → NoTwice l → NoTwice (filter p l)
unfolding filter
NoTwice-filter p [] n = tt
NoTwice-filter p (y ∷ l) (k, n) = elim (Bool-cases (p y)) [
  | inl kept ↦ rw kept (contains-filter p l y k, NoTwice-filter p l n)
  | inr dropped ↦ rw dropped (NoTwice-filter p l n)
]

transition-eq :
    (target : ArtifactStatus) (now : ℕ) (a b : Artifact)
    → transition target now a ≡ ok b
    → record a { status = target; updated_at = now } ≡ b
unfolding transition
transition-eq target now a b e = elim (Bool-cases (can_transition_artifact a.status target)) [
  | inl legal ↦ ground arith
  | inr illegal ↦ absurd (ground arith)
]

create_new_version-eq :
    (content v : ArtifactVersion) (now : ℕ) (a b : Artifact)
    → create_new_version content now a ≡ ok (v, b)
    → with_version content now a ≡ b
unfolding create_new_version
create_new_version-eq content v now a b e =
    elim (Bool-cases (status_eq a.status deleted || status_eq a.status archived)) [
      | inl ended ↦ absurd (ground arith)
      | inr live ↦ ground arith
    ]

with_version-IsSound :
    (content : ArtifactVersion) (now : ℕ) (a : Artifact)
    → IsSound a
    → IsSound (with_version content now a)
unfolding latest_version
with_version-IsSound content now a s = record {
  numbered =
      Numbered-snoc 2 a.versions (next_version content a) s.numbered (omega (arith, s.counted));
  counted = omega (arith, s.counted, length-append a.versions (next_version content a ∷ []));
  fresh = λ v e.
      let same : next_version content a ≡ v =
        ground (arith, last-snoc a.versions (next_version content a)) in
      (ap (λ x. x.checksum) (sym same), ap (λ x. x.version_number) (sym same));
  distinct_tags = s.distinct_tags;
}

Step-IsSound : (a b : Artifact) → IsSound a → Step a b → IsSound b
unfolding delete add_tag remove_tag latest_version
Step-IsSound a b s (moved target now e) = subst IsSound (transition-eq target now a b e) (record {
  numbered = s.numbered;
  counted = s.counted;
  fresh = s.fresh;
  distinct_tags = s.distinct_tags;
})
Step-IsSound a _ s (erased now) = record {
  numbered = s.numbered;
  counted = s.counted;
  fresh = s.fresh;
  distinct_tags = s.distinct_tags;
}
Step-IsSound a b s (renewed content v now e) =
    subst IsSound (create_new_version-eq content v now a b e) (with_version-IsSound content now a s)
Step-IsSound a _ s (tagged tag now) = elim (Bool-cases (contains a.tags tag)) [
  | inl known ↦ rw known s
  | inr new ↦ rw new (record {
    numbered = s.numbered;
    counted = s.counted;
    fresh = s.fresh;
    distinct_tags = NoTwice-snoc a.tags tag new s.distinct_tags;
  })
]
Step-IsSound a _ s (untagged tag now) = record {
  numbered = s.numbered;
  counted = s.counted;
  fresh = s.fresh;
  distinct_tags = NoTwice-filter _ a.tags s.distinct_tags;
}

-- From a sound artifact, as a new one without versions is, whatever calls succeed on it: the recorded versions
-- are numbered from 2 on without a gap up to the current version, the latest one has the
-- artifact's checksum and its current version number, and no tag stands twice.
pub IsSound-Steps : (a b : Artifact) → IsSound a → Steps a b → IsSound b
IsSound-Steps a _ s here = s
IsSound-Steps a c s (more {b} steps step) = Step-IsSound b c (IsSound-Steps a b s steps) step

Step-keeps_deleted :
    (a b : Artifact)
    → a.status ≡ deleted
    → Step a b
    → (b.status ≡ deleted) × (b.versions ≡ a.versions)
unfolding transition can_transition_artifact any delete create_new_version add_tag remove_tag
Step-keeps_deleted a b d (moved target now e) = absurd (ground arith)
Step-keeps_deleted a _ d (erased now) = (refl, refl)
Step-keeps_deleted a b d (renewed content v now e) = absurd (ground arith)
Step-keeps_deleted a _ d (tagged tag now) = (ground arith, ground arith)
Step-keeps_deleted a _ d (untagged tag now) = (d, refl)

-- A deleted artifact stays deleted and gets no version any more, whatever is called on it.
pub deleted_absorbs :
    (a b : Artifact)
    → a.status ≡ deleted
    → Steps a b
    → (b.status ≡ deleted) × (b.versions ≡ a.versions)
deleted_absorbs a _ d here = (d, refl)
deleted_absorbs a c d (more {b} steps step) =
    let (e, same) = deleted_absorbs a b d steps in
    let (f, kept) = Step-keeps_deleted b c e step in (f, kept ∙ same)
