-- ===== src/Storage/Uri/RoundTrip.antt =====
-- Printing and parsing a storage URI.
use text.Mathlib.TextLemmas.{nil-append, cons-append, append-eq-nil_iff}
use text.Mathlib.TextEquality.{Char-path}
use lex_mind.Storage.Paths.{is_slash}
use lex_mind.Storage.Uri.{
  after_prefix, cut_slash, more, StorageUri, parse_uri, uri_text, scheme_prefix, from_remainder,
}
use Prim.Native.Char.{Char, code}
use lex_mind.Common.{
  String, Bool, true, false, Option, none, some, ◌≡◌, refl, sym, ◌∙◌, ap, inl, inr, ◌||◌, eqb,
  arith, Bool-cases, ◌==◌, eq_iff,
}
use lex_mind.Common.Texts.{concat}
use lex_mind.Common.Effect.{ok}

unfoldable pub has_slash : String → Bool
has_slash String.[] = false
has_slash (String.◌∷◌ c s) = is_slash c || has_slash s

eqb_refl : (c : Char) → eqb (code c) (code c) ≡ true
eqb_refl c = ground arith

after_prefix-concat : (p s : String) → after_prefix p (concat p s) ≡ some s
unfolding after_prefix
after_prefix-concat String.[] s = rw (nil-append s) refl
after_prefix-concat (String.◌∷◌ d p) s =
    rw (cons-append d p s, eqb_refl d) (after_prefix-concat p s)

abbrev slash : Char
slash = "/"

slash_first : (p : String) → concat "/" p ≡ String.◌∷◌ slash p
slash_first p = cons-append slash "" p ∙ ap (String.◌∷◌ slash) (nil-append p)

cut_slash-concat :
    (w p : String) → has_slash w ≡ false → cut_slash (concat w (concat "/" p)) ≡ (w, some p)
unfolding cut_slash has_slash
cut_slash-concat String.[] p clean = ap cut_slash (nil-append (concat "/" p) ∙ slash_first p)
cut_slash-concat (String.◌∷◌ c w) p clean = elim (Bool-cases (is_slash c)) [
  | inl here ↦ absurd (ground (arith, clean, here))
  | inr other ↦
      rw (cons-append c w (concat "/" p), other)
        (ap (more c) (cut_slash-concat w p (ground (arith, clean, other))))
]

-- what was cut, put together again
abbrev pub rejoined : String × Option String → String
rejoined (w, none) = w
rejoined (w, some p) = concat w (concat "/" p)

rejoined-more :
    (c : Char) (q : String × Option String) → rejoined (more c q) ≡ String.◌∷◌ c (rejoined q)
rejoined-more c (w, none) = refl
rejoined-more c (w, some p) = cons-append c w (concat "/" p)

pub rejoined-cut_slash : (s : String) → rejoined (cut_slash s) ≡ s
unfolding cut_slash
rejoined-cut_slash String.[] = refl
rejoined-cut_slash (String.◌∷◌ c s) = elim (Bool-cases (is_slash c)) [
  | inl here ↦ rw here (
      nil-append (concat "/" s)
      ∙ slash_first s
      ∙ ap (λ d. String.◌∷◌ d s) (sym (Char-path c slash (ground (arith, here)))))
  | inr other ↦ rw other (rejoined-more c (cut_slash s) ∙ ap (String.◌∷◌ c) (rejoined-cut_slash s))
]

pub cut_slash-clean : (s : String) → has_slash (cut_slash s).0 ≡ false
unfolding cut_slash has_slash
cut_slash-clean String.[] = refl
cut_slash-clean (String.◌∷◌ c s) = elim (Bool-cases (is_slash c)) [
  | inl here ↦ rw here refl
  | inr other ↦ rw (other, has_slash) (rw other (cut_slash-clean s))
]

pub after_prefix-some : (p s t : String) → after_prefix p s ≡ some t → s ≡ concat p t
unfolding after_prefix
after_prefix-some String.[] s t e = ground (arith, nil-append t)
after_prefix-some (String.◌∷◌ d p) String.[] t e = absurd cc
after_prefix-some (String.◌∷◌ d p) (String.◌∷◌ c s) t e =
    elim (Bool-cases (eqb (code d) (code c))) [
      | inl same ↦
          ap (String.◌∷◌ c) (after_prefix-some p s t (rw same at e))
          ∙ ap (λ x. String.◌∷◌ x (concat p t)) (Char-path c d (ground (arith, same)))
          ∙ sym (cons-append d p t)
      | inr other ↦ absurd (let broken : none ≡ some t = rw other at e in cc)
    ]

not_empty : (s : String) → (s ≡ "" → ⊥) → (s == "") ≡ false
not_empty s h = elim (Bool-cases (s == "")) [
  | inl same ↦ absurd (h ((eq_iff s "").0 same))
  | inr other ↦ other
]

-- what `parse_uri` takes for a workspace
pub record IsWorkspace (w : String) : Type 0 where
  pub named : (w == "") ≡ false
  pub whole : has_slash w ≡ false

named-not : {w : String} → (w == "") ≡ false → w ≡ "" → ⊥
named-not {w} named empty = absurd (ground (arith, eq_iff w "", named, empty))

remainder_not_empty : (w t : String) → (w == "") ≡ false → (concat w t == "") ≡ false
remainder_not_empty w t named =
    not_empty (concat w t) (λ empty. named-not named (append-eq-nil_iff.0 empty).0)

abbrev pub parsed_from : (workspace path : String) → StorageUri
parsed_from workspace path = record {
  workspace = workspace;
  path = path;
  raw = uri_text workspace path;
}

parse_concat :
    (remainder : String)
    → parse_uri (concat scheme_prefix remainder)
      ≡ from_remainder (concat scheme_prefix remainder) (some remainder)
unfolding parse_uri
parse_concat remainder =
    rw
      (
        remainder_not_empty scheme_prefix remainder refl,
        after_prefix-concat scheme_prefix remainder,
      )
      refl

-- A URI that is made of a workspace that is not empty and has no slash, and of any path, is parsed to
-- just these, and to itself as the unparsed text.
pub parse_uri-uri_text :
    (workspace path : String)
    → IsWorkspace workspace
    → parse_uri (uri_text workspace path) ≡ ok (parsed_from workspace path)
unfolding uri_text
parse_uri-uri_text workspace path valid =
    parse_concat (concat workspace (concat "/" path))
    ∙ rw
        (
          remainder_not_empty workspace (concat "/" path) valid.named,
          cut_slash-concat workspace path valid.whole,
          valid.named,
        )
        refl
