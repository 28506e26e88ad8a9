-- ===== src/Provider/Staging.antt =====
-- src/immich_bridge/webdav_provider.py, `UploadResource` and `UploadSink`: the file that an upload is
-- staged in.
use immich_bridge.Prelude.{
  ℕ, ◌+◌, String, Bool, true, false, Option, none, some, List, [], ◌∷◌, ◌++◌, length, if◌then◌else◌,
}
use immich_bridge.Json.{Fields}
use immich_bridge.Provider.{album_id, present_key}
use mathlib.Core.Option
use immich_bridge.Provider.Requests.{Platform}

-- An `UploadResource` and its sink. `temp` is the staged file, `none` when there is none.
pub record Upload : Type 0 where
  pub path : String
  pub filename : String
  pub album_id : Option String
  pub content_type : Option String
  pub temp : Option (List ℕ)
  pub bytes_written : ℕ
  pub uploaded_payload : Option Fields

pub record UploadSink : Type 0 where
  pub written : ℕ
  pub closed : Bool

unfoldable pub new_upload : String → String → Option String → Upload
new_upload path filename album_id = record {
  path = path;
  filename = filename;
  album_id = album_id;
  content_type = none;
  temp = none;
  bytes_written = 0;
  uploaded_payload = none;
}

unfoldable pub begin_write : Platform → Option String → Upload → Upload × UploadSink
begin_write platform content_type u = (
  record u {
    content_type = elim (present_key content_type) [
      | none ↦ platform.guess_type u.filename
      | some t ↦ some t
    ];
    temp = some [];
  },
  record { written = 0; closed = false },
)

-- `UploadSink.write`
unfoldable pub write : List ℕ → Upload × UploadSink → Upload × UploadSink
write chunk (u, sink) = (
  record u { temp = Option.map (λ bytes. bytes ++ chunk) u.temp },
  record sink { written = sink.written + length chunk },
)

unfoldable pub writelines : List (List ℕ) → Upload × UploadSink → Upload × UploadSink
unfolding write
writelines [] state = state
writelines (line ∷ lines) state = writelines lines (write line state)

unfoldable pub close : Upload × UploadSink → Upload × UploadSink
close (u, sink) =
    if sink.closed
    then (u, sink)
    else (record u { bytes_written = sink.written }, record sink { closed = true })
