-- ===== src/Ingestion/Mime.antt =====
-- backend/lexmind/ingestion/mime_detector.py. The methods are given the suffix of the path in lower
-- case.
use lex_mind.Common.{String, Bool, true, false, Option, none, some, [], ◌∷◌}
use lex_mind.Common.Dict.{Dict, get, has}

pub data FileCategory : Type 0 where
  document image email audio video archive unknown : FileCategory

pub record Entry : Type 0 where
  pub mime_type : String
  pub category : FileCategory
  pub supported : Bool

abbrev pub entry : String → FileCategory → Bool → Entry
entry mime_type category supported = record {
  mime_type = mime_type;
  category = category;
  supported = supported;
}

-- _EXTENSION_MAP
abbrev pub extension_map : Dict Entry
extension_map =
    (".pdf", entry "application/pdf" document true)
    ∷ (
      ".docx",
      entry "application/vnd.openxmlformats-officedocument.wordprocessingml.document" document true,
    )
    ∷ (".odt", entry "application/vnd.oasis.opendocument.text" document true)
    ∷ (".txt", entry "text/plain" document true)
    ∷ (".rtf", entry "application/rtf" document true)
    ∷ (".html", entry "text/html" document true)
    ∷ (".htm", entry "text/html" document true)
    ∷ (".eml", entry "message/rfc822" email true)
    ∷ (".msg", entry "application/vnd.ms-outlook" email true)
    ∷ (".png", entry "image/png" image true)
    ∷ (".jpg", entry "image/jpeg" image true)
    ∷ (".jpeg", entry "image/jpeg" image true)
    ∷ (".tif", entry "image/tiff" image true)
    ∷ (".tiff", entry "image/tiff" image true)
    ∷ (".bmp", entry "image/bmp" image true)
    ∷ (".webp", entry "image/webp" image true)
    ∷ (".mp3", entry "audio/mpeg" audio false)
    ∷ (".wav", entry "audio/wav" audio false)
    ∷ (".mp4", entry "video/mp4" video false)
    ∷ (".mkv", entry "video/x-matroska" video false)
    ∷ (".zip", entry "application/zip" archive false)
    ∷ []

abbrev described : Option Entry → String × FileCategory
described none = ("application/octet-stream", unknown)
described (some e) = (e.mime_type, e.category)

unfoldable pub detect : String → String × FileCategory
detect suffix = described (get extension_map suffix)

abbrev supported_entry : Option Entry → Bool
supported_entry none = false
supported_entry (some e) = e.supported

unfoldable pub is_supported : String → Bool
is_supported suffix = supported_entry (get extension_map suffix)

unfoldable pub is_known : String → Bool
is_known suffix = has extension_map suffix
