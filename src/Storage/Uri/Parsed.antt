-- ===== src/Storage/Uri/Parsed.antt =====
-- What a URI that was parsed is like, and where `join_uri` leads.
use text.Mathlib.TextLemmas.{append_assoc}
use lex_mind.Storage.Uri.{
  StorageUri, UriError, scheme_prefix, uri_text, text_of, after_prefix, cut_slash, parse_uri,
  from_parts, join_uri, build_uri, join_parsed, joined_onto,
}
use lex_mind.Storage.Uri.RoundTrip.{
  IsWorkspace, has_slash, rejoined, rejoined-cut_slash, cut_slash-clean, after_prefix-some,
  parse_uri-uri_text, parsed_from,
}
use lex_mind.Storage.Paths.{path_text, pure_path}
use lex_mind.Common.{
  String, false, Option, none, some, List, ◌≡◌, refl, sym, ◌∙◌, ap, subst, ◌⊎◌, inl, inr, ◌==◌,
  arith, Bool-cases, Option-cases, if◌then◌else◌,
}
use lex_mind.Common.Texts.{concat}
use lex_mind.Common.Effect.{ok, err, Outcome-cases}

-- `u` was parsed from `t`
pub record IsParsed (t : String) (u : StorageUri) : Type 0 where
  pub valid : IsWorkspace u.workspace
  pub raw : u.raw ≡ t
  pub printed : (text_of u ≡ t) ⊎ (text_of u ≡ concat t "/")

from_parts-IsParsed :
    (t r : String) (q : String × Option String) (u : StorageUri)
    → rejoined q ≡ r
    → has_slash q.0 ≡ false
    → t ≡ concat scheme_prefix r
    → from_parts t q ≡ ok u
    → IsParsed t u
unfolding uri_text
from_parts-IsParsed t r (w, none) u join whole begin e = elim (Bool-cases (w == "")) [
  | inl empty ↦ absurd (ground (arith, empty, e))
  | inr named ↦
      let same : record { workspace = w; path = ""; raw = t } ≡ u = ground (arith, named, e) in
      let text : uri_text w "" ≡ concat t "/" =
        sym (append_assoc scheme_prefix w "/")
        ∙ ap (λ s. concat s "/") (ap (concat scheme_prefix) join ∙ sym begin) in
      subst (IsParsed t) same
        (record { valid = record { named = named; whole = whole }; raw = refl; printed = inr text })
]
from_parts-IsParsed t r (w, some p) u join whole begin e = elim (Bool-cases (w == "")) [
  | inl empty ↦ absurd (ground (arith, empty, e))
  | inr named ↦
      let same : record { workspace = w; path = p; raw = t } ≡ u = ground (arith, named, e) in
      subst (IsParsed t) same (record {
        valid = record { named = named; whole = whole };
        raw = refl;
        printed = inl (ap (concat scheme_prefix) join ∙ sym begin);
      })
]

pub parse_uri-IsParsed : (t : String) (u : StorageUri) → parse_uri t ≡ ok u → IsParsed t u
unfolding parse_uri
parse_uri-IsParsed t u e = elim (Bool-cases (t == "")) [
  | inl empty ↦ absurd (ground (arith, empty, e))
  | inr filled ↦ elim (Option-cases (after_prefix scheme_prefix t)) [
    | inl other ↦ absurd (ground (arith, filled, other, e))
    | inr (r, begins) ↦ elim (Bool-cases (r == "")) [
      | inl bare ↦ absurd (ground (arith, filled, begins, bare, e))
      | inr rest ↦
          from_parts-IsParsed t r (cut_slash r) u (rejoined-cut_slash r) (cut_slash-clean r)
            (after_prefix-some scheme_prefix t r begins) (ground (arith, filled, begins, rest, e))
    ]
  ]
]

-- Whatever segments are joined onto a URI: where this gives a URI at all, that can be parsed, and it is
-- in the workspace of the URI that it started from. It gives one exactly where that can be parsed.
pub join_uri-workspace :
    (base : String) (segments : List String)
    → ((e : UriError) × (parse_uri base ≡ err e) × (join_uri base segments ≡ err e))
      ⊎ ((u v : StorageUri) × (t : String) × (parse_uri base ≡ ok u)
          × (join_uri base segments ≡ ok t)
          × (parse_uri t ≡ ok v)
          × (v.workspace ≡ u.workspace))
unfolding join_uri build_uri
join_uri-workspace base segments = elim (Outcome-cases (parse_uri base)) [
  | inr (e, refused) ↦ inl (e, refused, ap (join_parsed segments) refused)
  | inl (u, parsed) ↦
      let path = path_text (joined_onto (pure_path u.path) segments) in
      let clean = if path == "" then "" else path_text (pure_path path) in
      inr (
        u,
        parsed_from u.workspace clean,
        uri_text u.workspace clean,
        parsed,
        ap (join_parsed segments) parsed,
        parse_uri-uri_text u.workspace clean (parse_uri-IsParsed base u parsed).valid,
        refl,
      )
]
