-- ===== src/Storage/Manager/Aliasing.antt =====
-- Which object a URI stands for.
use lex_mind.Storage.Uri.{StorageUri, UriError, uri_text}
use lex_mind.Storage.Uri.RoundTrip.{IsWorkspace, parse_uri-uri_text}
use lex_mind.Storage.Manager.{StorageProvider, at_path, with_path, from_call, save, load}
use lex_mind.Common.{String, ◌≡◌, ap, ◌∙◌}
use lex_mind.Common.Effect.{ok, Outcome, Action}

-- a provider reads what it wrote
abbrev pub KeepsBytes : {Data : Type 0} → StorageProvider Data → Type 0
KeepsBytes {Data} p =
    (path : String) (bytes : Data) (s t : p.State)
    → p.write_bytes path bytes s ≡ (ok tt, t)
    → p.read_bytes path t ≡ (ok bytes, t)

at_path-uri_text :
    {F S A : Type 0} (workspace path : String) (f : String → Action F S A) (s : S)
    → IsWorkspace workspace
    → at_path (uri_text workspace path) f s ≡ from_call (f path s)
unfolding at_path
at_path-uri_text workspace path f s valid =
    ap (λ (r : Outcome UriError StorageUri). with_path r f s)
      (parse_uri-uri_text workspace path valid)

-- What `save` wrote under a path of a workspace is what `load` returns under that path of any other
-- workspace as well. The provider reads what it wrote, and its write succeeded.
pub load-save :
    {Data : Type 0} (p : StorageProvider Data) (workspace other path : String) (bytes : Data)
    (s t : p.State)
    → KeepsBytes p
    → IsWorkspace workspace
    → IsWorkspace other
    → p.write_bytes path bytes s ≡ (ok tt, t)
    → (save p (uri_text workspace path) bytes s ≡ (ok tt, t))
      × (load p (uri_text workspace path) t ≡ (ok bytes, t))
      × (load p (uri_text other path) t ≡ (ok bytes, t))
unfolding save load
load-save p workspace other path bytes s t keeps valid valid' wrote = (
  at_path-uri_text workspace path (λ q. p.write_bytes q bytes) s valid ∙ ap from_call wrote,
  at_path-uri_text workspace path p.read_bytes t valid ∙ ap from_call (keeps path bytes s t wrote),
  at_path-uri_text other path p.read_bytes t valid' ∙ ap from_call (keeps path bytes s t wrote),
)
