-- ===== src/Staging/Manager.antt =====
-- Manager (staging.go): the sessions in memory, the staging directory, and the operations on them.
pub mod Restart
use blobs.Base.{
  ℕ, ◌+◌, ◌-◌, ◌*◌, Bool, true, false, ◌==◌, ltb, if◌then◌else◌, List, [], ◌∷◌, Option, none, some,
  map,
}
use blobs.Base.Bytes.{Bytes}
use blobs.Errors.{Result, ok, err, failed, wrapped, ◌>>=◌}
use blobs.Index.Table.{Table, lookup, insert, erase}
use blobs.Staging.Ranges.{RangeSet}
use blobs.Staging.Blocks.{block_ranges}
use blobs.Staging.Session.{
  SessionMeta, SessionState, Staged, BeginOptions, session_not_found, begin_meta, begin_staged,
  load_state,
}
use blobs.Volume.Address.{hex}
use blobs.Staging.Session.Ids.{validate_session_id, is_lower_hex_len, session_id_byte_len}
use blobs.Staging.Write.{range_total, state_progress}

pub record Manager : Type 0 where
  pub sessions : Table SessionState
  pub data_files : Table Bytes
  pub meta_files : Table SessionMeta

pub record Session : Type 0 where
  pub id : Bytes
  pub namespace_id : Bytes
  pub key : Bytes

-- The session in memory, or the one that the metadata file gives, which is then in memory.
unfoldable pub get_or_load_session : Bytes → Manager → Result (SessionState × Manager)
get_or_load_session id m = elim (lookup id m.sessions) [
  | some s ↦ ok (s, m)
  | none ↦ elim (lookup id m.meta_files) [
    | some meta ↦
        ok (load_state meta, record m { sessions = insert id (load_state meta) m.sessions })
    | none ↦ err (wrapped "staging" session_not_found)
  ]
]

unfoldable pub staged_of : Bytes → SessionState → Manager → Staged
staged_of id s m = record {
  state = s;
  data_file = lookup id m.data_files;
  saved = lookup id m.meta_files;
}

unfoldable pub put_file : {A : Type 0} → Bytes → Option A → Table A → Table A
put_file id none t = t
put_file id (some a) t = insert id a t

unfoldable pub put_staged : Bytes → Staged → Manager → Manager
put_staged id s m = record {
  sessions = insert id s.state m.sessions;
  data_files = put_file id s.data_file m.data_files;
  meta_files = put_file id s.saved m.meta_files;
}

-- Begin from the creation of the data file on, where O_EXCL refuses a file that is there.
unfoldable pub create_session : SessionMeta → Manager → Result (Session × Manager)
create_session meta m = elim (lookup meta.id m.data_files) [
  | some _ ↦ err (failed "staging: create data file")
  | none ↦
      let session : Session = record {
        id = meta.id;
        namespace_id = meta.namespace_id;
        key = meta.key;
      } in
      ok (session, put_staged meta.id (begin_staged meta) m)
]

-- `random` is what rand.Read gives.
unfoldable pub begin :
    Bytes → ℕ → Bytes → Bytes → BeginOptions → Manager → Result (Session × Manager)
begin random now ns_id key opts m = do
  meta ← begin_meta (hex random) now ns_id key opts
  create_session meta m

unfoldable pub session_offset : SessionState → ℕ
session_offset s =
    let st : Staged = record { state = s; data_file = none; saved = none } in
    if s.info.block_size == 0 then range_total st else state_progress st

unfoldable pub offset : Bytes → Manager → Result (ℕ × Manager)
offset id m = do r ← get_or_load_session id m; ok (session_offset r.0, r.1)

unfoldable pub session_ranges : SessionState → RangeSet
session_ranges s =
    if s.info.block_size == 0
    then s.info.ranges
    else block_ranges s.info.block_size s.info.expected_size s.bitmap

unfoldable pub ranges : Bytes → Manager → Result (RangeSet × Manager)
ranges id m = do r ← get_or_load_session id m; ok (session_ranges r.0, r.1)

unfoldable pub block_size : Bytes → Manager → Result (ℕ × Manager)
block_size id m = do
  _ ← validate_session_id id
  r ← get_or_load_session id m
  ok (r.0.info.block_size, r.1)

unfoldable pub expected_size : Bytes → Manager → Result (ℕ × Manager)
expected_size id m = do
  _ ← validate_session_id id
  r ← get_or_load_session id m
  ok (r.0.info.expected_size, r.1)

-- cleanup and cleanupLocked.
unfoldable pub cleanup : Bytes → Manager → Manager
cleanup id m = record {
  sessions = erase id m.sessions;
  data_files = erase id m.data_files;
  meta_files = erase id m.meta_files;
}

unfoldable pub abort : Bytes → Manager → Result Manager
abort id m = do _ ← validate_session_id id; r ← get_or_load_session id m; ok (cleanup id r.1)

-- Reap at one metadata file: whether its session was removed.
unfoldable pub reap_session : ℕ → Bytes → Manager → Bool × Manager
reap_session cutoff id m = elim (is_lower_hex_len id (session_id_byte_len * 2)) [
  | false ↦ (false, m)
  | true ↦ elim (get_or_load_session id m) [
    | err _ ↦ (false, m)
    | ok r ↦ if ltb r.0.info.last_activity cutoff then (true, cleanup id r.1) else (false, r.1)
  ]
]

unfoldable pub reap_from : ℕ → List Bytes → Manager → ℕ × Manager
reap_from cutoff [] m = (0, m)
reap_from cutoff (id ∷ ids) m =
    let first = reap_session cutoff id m in
    let rest = reap_from cutoff ids first.1 in ((if first.0 then 1 else 0) + rest.0, rest.1)

-- Reap with the clock at `now`: the metadata files are those that the directory lists first.
unfoldable pub reap : ℕ → ℕ → Manager → ℕ × Manager
reap now max_age m = reap_from (now - max_age) (map (λ f. f.0) m.meta_files) m
