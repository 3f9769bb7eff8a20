-- ===== src/Watcher/Backend/Unique.antt =====
-- A snapshot has each file once.
use lex_mind.Common.{
  ℕ, String, Bool, true, false, ◌≡◌, refl, inl, inr, [], ◌∷◌, ◌==◌, arith, eq_iff, Bool-cases,
  if◌then◌else◌,
}
use lex_mind.Common.Dict.{Dict, get, put, has, get-put}

abbrev pub IsUnique : Dict ℕ → Type 0
IsUnique [] = Unit
IsUnique ((k, v) ∷ d) = (has d k ≡ false) × IsUnique d

pub put-IsUnique : (d : Dict ℕ) (k : String) (v : ℕ) → IsUnique d → IsUnique (put d k v)
unfolding put get
put-IsUnique [] k v u = (refl, tt)
put-IsUnique ((j, w) ∷ d) k v (new, u) = elim (Bool-cases (j == k)) [
  | inl same ↦ rw same (new, u)
  | inr other ↦
      rw other
        (ground (arith, get-put d k j v, eq_iff k j, eq_iff j k, new, other), put-IsUnique d k v u)
]

pub either-IsUnique :
    (b : Bool) (c d : Dict ℕ) → IsUnique c → IsUnique d → IsUnique (if b then c else d)
either-IsUnique true c d u v = u
either-IsUnique false c d u v = v
