-- ===== src/Agent/Actions/Paths.antt =====
-- The request paths of the agent's page that hold a profile's id.
use proxer.Base.{String, ◌≡◌, refl, ◌<>◌}
use proxer.Text.Uri.{encode_uri_component, percent_decode, bytes}
use proxer.Text.Uri.Laws.{IsSegment, percent_decode-encode, encode-IsSegment}
use proxer.Agent.Actions.{profile_path}

-- The path of a profile is `/api/profiles/` and one segment, which holds no `/`, `?` or `#` and is
-- percent-decoded to the bytes of the id, whatever characters the id has.
pub profile_path_lem :
    (id : String)
    → (segment : String) × (profile_path id ≡ "/api/profiles/" <> segment)
      × IsSegment segment
      × (percent_decode segment ≡ bytes id)
profile_path_lem id = (encode_uri_component id, refl, encode-IsSegment id, percent_decode-encode id)
