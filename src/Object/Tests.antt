-- ===== src/Object/Tests.antt =====
-- An accepted namespace identifier.
use blobs.Base.{◌≡◌, refl}
use blobs.Base.Bytes.{Bytes, text}
use blobs.Errors.{ok}
use blobs.Object.NamespaceId.{is_alnum, matches_tail, matches_id, validate_namespace_id}

abbrev team : Bytes
team = text "team-1"

accepted : validate_namespace_id team ≡ ok tt
unfolding validate_namespace_id matches_id matches_tail is_alnum
accepted = refl
