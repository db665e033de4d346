-- ===== src/Staging/Manager/Restart.antt =====
-- What Begin leaves for the calls that follow it, and for a manager that is started again.
use blobs.Base.{
  ℕ, ◌≡◌, ◌≢◌, refl, sym, ap, ◌∙◌, inl, inr, [], none, some, arith, bytes_eq_refl, bytes_eq_iff,
  Option-cases,
}
use blobs.Base.Bytes.{Bytes}
use blobs.Errors.{ok, err, wrapped, Result-cases, ok_inj}
use blobs.Index.Table.{Table, lookup, insert, erase, lookup-insert, lookup-erase}
use blobs.Volume.Address.{hex}
use blobs.Staging.Session.{
  SessionMeta, SessionState, BeginOptions, session_not_found, begin_meta, begin_staged, load_state,
}
use blobs.Staging.Session.Ids.{validate_session_id}
use blobs.Staging.Manager.{
  Manager, Session, get_or_load_session, put_file, put_staged, begin, create_session, abort,
  cleanup,
}

-- The manager of a process that has just been started on the same directory.
abbrev pub restarted : Manager → Manager
restarted m = record m { sessions = [] }

-- The session that a call for the ID works on.
abbrev pub Finds : Bytes → Manager → SessionState → Type 0
Finds id m s = (m' : Manager) × (get_or_load_session id m ≡ ok (s, m'))

begin_staged-Finds :
    (id : Bytes) (meta : SessionMeta) (m : Manager)
    → Finds id (put_staged id (begin_staged meta) m) (load_state meta)
      × Finds id (restarted (put_staged id (begin_staged meta) m)) (load_state meta)
unfolding get_or_load_session put_staged put_file begin_staged lookup
begin_staged-Finds id meta m =
    let begun = put_staged id (begin_staged meta) m in
    let again : Manager = record begun { sessions = insert id (load_state meta) [] } in
    (
      (begun, rw (found (load_state meta) m.sessions, get_or_load_session) refl),
      (again, rw (found meta m.meta_files, get_or_load_session) refl),
    )
  where
    found : {A : Type 0} (a : A) (t : Table A) → lookup id (insert id a t) ≡ some a
    found a t = rw (lookup-insert id id a t, bytes_eq_refl id) refl

data_files-put_staged :
    (q : Bytes) (meta : SessionMeta) (m : Manager)
    → q ≢ meta.id
    → lookup q (put_staged meta.id (begin_staged meta) m).data_files ≡ lookup q m.data_files
unfolding put_staged put_file begin_staged
data_files-put_staged q meta m other =
    lookup-insert q meta.id _ m.data_files ∙ ground (arith, other, bytes_eq_iff meta.id q)

-- Where Begin accepts an upload: the calls for its ID find the session with the metadata that Begin
-- has checked and with nothing received, and so they do in a manager that is started again on the
-- same directory. The data file of every other session is as it was.
begin-Finds :
    (random : Bytes) (now : ℕ) (ns_id key : Bytes) (opts : BeginOptions) (m : Manager)
    (done : Session × Manager)
    → begin random now ns_id key opts m ≡ ok done
    → (meta : SessionMeta) × (begin_meta (hex random) now ns_id key opts ≡ ok meta)
      × Finds done.0.id done.1 (load_state meta)
      × Finds done.0.id (restarted done.1) (load_state meta)
      × ((q : Bytes) → q ≢ done.0.id → lookup q done.1.data_files ≡ lookup q m.data_files)
unfolding begin create_session
begin-Finds random now ns_id key opts m done =
    elim (Result-cases (begin_meta (hex random) now ns_id key opts)) [
      | inr (e, bad) ↦ rw (bad, begin) (λ h. absurd (cc))
      | inl (meta, good) ↦ elim (Option-cases (lookup meta.id m.data_files)) [
        | inr (f, taken) ↦ rw (good, begin) (rw (taken, create_session) (λ h. absurd (cc)))
        | inl free ↦
            rw (good, begin)
              (rw (free, create_session)
                (λ h. rw (sym (ok_inj h)) (
                  let (now, later) = begin_staged-Finds meta.id meta m in
                  (meta, refl, now, later, λ q other. data_files-put_staged q meta m other))))
      ]
    ]

-- A call that loads a session leaves the files.
get_or_load_session-data_files :
    (id : Bytes) (m : Manager)
    → (r : SessionState × Manager) → get_or_load_session id m ≡ ok r
    → r.1.data_files ≡ m.data_files
unfolding get_or_load_session
get_or_load_session-data_files id m r = elim (Option-cases (lookup id m.sessions)) [
  | inr (s, here) ↦
      rw (here, get_or_load_session)
        (λ h. ap (λ (p : SessionState × Manager). p.1.data_files) (sym (ok_inj h)))
  | inl gone ↦ elim (Option-cases (lookup id m.meta_files)) [
    | inr (meta, there) ↦
        rw (gone, there, get_or_load_session)
          (λ h. ap (λ (p : SessionState × Manager). p.1.data_files) (sym (ok_inj h)))
    | inl lost ↦ rw (gone, lost, get_or_load_session) (λ h. absurd (cc))
  ]
]

erased : {A : Type 0} (id : Bytes) (t : Table A) → lookup id (erase id t) ≡ none
erased id t = rw (lookup-erase id id t, bytes_eq_refl id) refl

cleanup_lem :
    (id : Bytes) (m n : Manager)
    → n.data_files ≡ m.data_files
    → (get_or_load_session id (cleanup id n) ≡ err (wrapped "staging" session_not_found))
      × (get_or_load_session id (restarted (cleanup id n))
          ≡ err (wrapped "staging" session_not_found))
      × (lookup id (cleanup id n).data_files ≡ none)
      × ((q : Bytes) → q ≢ id → lookup q (cleanup id n).data_files ≡ lookup q m.data_files)
unfolding cleanup get_or_load_session lookup
cleanup_lem id m n same = (
  rw (erased id n.sessions, get_or_load_session, erased id n.meta_files) refl,
  rw (erased id n.meta_files, get_or_load_session) refl,
  erased id n.data_files,
  λ q other.
      lookup-erase q id n.data_files ∙ ground (arith, other, bytes_eq_iff id q, ap (lookup q) same),
)

-- After an Abort that succeeds no call finds the session, also in a manager that is started again,
-- its data file is gone, and the data file of every other session is as it was.
abort_lem :
    (id : Bytes) (m m' : Manager)
    → abort id m ≡ ok m'
    → (get_or_load_session id m' ≡ err (wrapped "staging" session_not_found))
      × (get_or_load_session id (restarted m') ≡ err (wrapped "staging" session_not_found))
      × (lookup id m'.data_files ≡ none)
      × ((q : Bytes) → q ≢ id → lookup q m'.data_files ≡ lookup q m.data_files)
unfolding abort
abort_lem id m m' = elim (Result-cases (validate_session_id id)) [
  | inr (e, bad) ↦ rw (bad, abort) (λ h. absurd (cc))
  | inl (u, good) ↦ elim (Result-cases (get_or_load_session id m)) [
    | inr (e, bad) ↦ rw (good, bad, abort) (λ h. absurd (cc))
    | inl ((s, loaded), found) ↦
        rw (good, found, abort)
          (λ h.
            rw (sym (ok_inj h))
              (cleanup_lem id m loaded (get_or_load_session-data_files id m (s, loaded) found)))
  ]
]
