-- ===== src/Store/Parts.antt =====
-- An operation of a namespace (store.go) on the two things that it changes: the index and the
-- namespace's engine. The engine keeps what was done to it also where the operation fails.
use blobs.Base.Bytes.{Bytes}
use blobs.Errors.{Error}
use blobs.Encryption.{wrap_err}
use blobs.Index.Table.{insert}
use blobs.Step.{Step, attempt, After, After-attempt}
use blobs.Store.Handle.{Store, begin_ns_op}
use blobs.Volume.Engine.{Engine}
use blobs.Volume.Write.{Outcome}

pub record Parts (S : Type 0) : Type 0 where
  pub index : S
  pub engine : Engine

module _ {S : Type 0} where
  -- A call of the engine, whose error is wrapped.
  abbrev pub on_engine : {A : Type 0} → Parts S → (Error → Error) → Outcome A → Step (Parts S) A
  on_engine p wrap (e, r) = (record p { engine = e }, wrap_err r wrap)

  -- A call of the index that keeps what it did before an error.
  abbrev pub on_index : {A : Type 0} → Parts S → (Error → Error) → Step S A → Step (Parts S) A
  on_index p wrap (s, r) = (record p { index = s }, wrap_err r wrap)

  abbrev pub leave :
      {A : Type 0} → Bytes → Store S Engine → Step (Parts S) A → Step (Store S Engine) A
  leave ns_id st (p, r) =
      (record st { index = p.index; engines = insert ns_id p.engine st.engines }, r)

  -- beginNSOp or beginExclusiveNSOp, the operation, and the release of the guard.
  unfoldable pub on_namespace :
      {A : Type 0} → Bytes → Store S Engine → (Parts S → Step (Parts S) A) → Step (Store S Engine) A
  on_namespace ns_id st f =
      attempt st (begin_ns_op ns_id st)
        λ e. leave ns_id st (f (record { index = st.index; engine = e }))

  -- What the operation does to the index, on an open namespace, it does to the store's.
  pub on_namespace-After :
      {A : Type 0} (P : S → Type 0) (ns_id : Bytes) (st : Store S Engine)
      (f : Parts S → Step (Parts S) A)
      → P st.index
      → ((e : Engine) → After (λ p. P p.index) (f (record { index = st.index; engine = e })))
      → After (λ st'. P st'.index) (on_namespace ns_id st f)
  unfolding on_namespace
  on_namespace-After P ns_id st f h k =
      After-attempt (λ st'. P st'.index) st (begin_ns_op ns_id st) _ h (λ e found. k e)
