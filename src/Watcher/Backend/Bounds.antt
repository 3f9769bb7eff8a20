-- ===== src/Watcher/Backend/Bounds.antt =====
-- The search of a location ends where the folders below it are finitely many, and gives each file once.
use lex_mind.Watcher.Backend.{
  Scan, Snapshot, and_then, scan, snapshot_loop, rstrip_slash, children_of,
}
use lex_mind.Watcher.Backend.Unique.{IsUnique, put-IsUnique, either-IsUnique}
use lex_mind.Storage.Manager.{StorageStat}
use lex_mind.Common.{
  ℕ, zero, suc, ◌+◌, ◌<◌, String, Bool, false, ◌&&◌, ◌≡◌, refl, ◌⊎◌, inl, inr, Option, some, List,
  [], ◌∷◌, arith, if◌then◌else◌,
}
use lex_mind.Common.Dict.{Dict, put}
use lex_mind.Common.Effect.{ok, err, Outcome}
use lex_mind.Common.Texts.{concat}

module _ (list : String → Option (List String)) (stat : String → Outcome String StorageStat)
    (recursive : Bool) (weigh : String → ℕ) where
  abbrev is_folder : Outcome String StorageStat → Bool
  is_folder (err e) = false
  is_folder (ok s) = s.is_directory

  -- what the folders among these children weigh, where the search goes into them
  abbrev below : String → List String → ℕ
  below base [] = 0
  below base (name ∷ l) =
      (if is_folder (stat (concat base (concat "/" name))) && recursive
        then weigh (concat base (concat "/" name))
        else 0)
      + below base l

  -- Each location weighs more than all folders that are searched right below it, as it does where the
  -- weight is the number of the folders from there on, itself among them. There is such a weight where
  -- these are finitely many.
  abbrev pub IsFinite : Type 0
  IsFinite =
      (uri : String) → below (rstrip_slash uri) (children_of list stat (list uri)) < weigh uri

  abbrev weigh_all : List String → ℕ
  weigh_all [] = 0
  weigh_all (uri ∷ l) = weigh uri + weigh_all l

  abbrev Scanned : ℕ → Scan list stat → Type 0
  Scanned n (err e) = Unit
  Scanned n (ok (stack, d)) = IsUnique d × (weigh_all stack ≡ n)

  -- one child, from what the rest of the scan comes to
  at_child :
      (child : String) (answer : Outcome String StorageStat) (rest : ℕ) (stack : List String)
      (d : Dict ℕ) (n : ℕ) (go : List String → Dict ℕ → Scan list stat)
      → IsUnique d
      → weigh_all stack + ((if is_folder answer && recursive then weigh child else 0) + rest) ≡ n
      → ((stack' : List String) (d' : Dict ℕ)
          → IsUnique d'
          → weigh_all stack' + rest ≡ n
          → Scanned n (go stack' d'))
      → Scanned n (elim answer [
        | err e ↦ err e
        | ok s ↦
            go
              (if s.is_directory && recursive then child ∷ stack else stack)
              (if s.is_directory then d else put d child s.size)
      ])
  at_child child (err e) rest stack d n go u h scans = tt
  at_child child (ok s) rest stack d n go u h scans =
      scans (if s.is_directory && recursive then child ∷ stack else stack)
        (if s.is_directory then d else put d child s.size)
        (either-IsUnique s.is_directory d (put d child s.size) u (put-IsUnique d child s.size u))
        (ground (arith, h))

  scan_ends :
      (base : String) (names stack : List String) (d : Dict ℕ) (n : ℕ)
      → IsUnique d
      → weigh_all stack + below base names ≡ n
      → Scanned n (scan list stat recursive base names stack d)
  unfolding scan
  scan_ends base [] stack d n u e = (u, omega (arith, e))
  scan_ends base (name ∷ l) stack d n u e =
      let child = concat base (concat "/" name) in
      at_child child (stat child) (below base l) stack d n (scan list stat recursive base l) u e
        (λ stack' d' u' e'. scan_ends base l stack' d' n u' e')

  -- the search raised what `stat` raised, or it gives each file once
  abbrev pub Ends : Snapshot list stat → Type 0
  Ends run =
      ((e : String) × (run ≡ some (err e)))
      ⊎ ((current : Dict ℕ) × (run ≡ some (ok current)) × IsUnique current)

  after_scan :
      (n fuel : ℕ) (answer : Scan list stat)
      → Scanned n answer
      → n < fuel
      → ((stack : List String) (d : Dict ℕ)
          → IsUnique d
          → weigh_all stack < fuel
          → Ends (snapshot_loop list stat recursive fuel stack d))
      → Ends (and_then list stat answer (snapshot_loop list stat recursive fuel))
  after_scan n fuel (err e) h enough go = inl (e, refl)
  after_scan n fuel (ok (stack, d)) (u, same) enough go = go stack d u (omega (arith, same))

  pub snapshot_loop-Ends :
      IsFinite
      → (fuel : ℕ) (stack : List String) (d : Dict ℕ) → IsUnique d
      → weigh_all stack < fuel
      → Ends (snapshot_loop list stat recursive fuel stack d)
  unfolding snapshot_loop
  snapshot_loop-Ends finite zero stack d u enough = absurd (omega arith)
  snapshot_loop-Ends finite (suc fuel) [] d u enough = inr (d, refl, u)
  snapshot_loop-Ends finite (suc fuel) (uri ∷ stack) d u enough =
      let names = children_of list stat (list uri) in
      let n = weigh_all stack + below (rstrip_slash uri) names in
      let less = finite uri in
      after_scan n fuel (scan list stat recursive (rstrip_slash uri) names stack d)
        (scan_ends (rstrip_slash uri) names stack d n u refl) (omega (arith, less))
        (snapshot_loop-Ends finite fuel)
