-- ===== src/Store/Compact/Tests.antt =====
-- Runs of Compact on a namespace with one sealed segment, on the in-memory backend.
use blobs.Base.{ℕ, Bool, false, List, []}
use blobs.Base.Bytes.{Bytes}
use blobs.Errors.{Result, ok}
use blobs.Index.Memory.{MemTx, mem_ops, mem_IsTx}
use blobs.Index.Tests.{Doc, doc_json, doc_IsJson, ref_tx, ref_tx-IsIndex, name}
use blobs.Step.{After}
use blobs.Store.Parts.{Parts}
use blobs.Store.Put.Tests.{open_engine, one_namespace}
use blobs.Store.Compact.{compact_pages, compact_with_options}
use blobs.Store.Compact.Reaping.{Reaps, compact_pages-Reaps}
use blobs.Store.Compact.Whole.{Survives, compact_with_options-Survives}

abbrev no_scan : Bytes → MemTx Doc → Result (List Doc)
no_scan prefix s = ok []

abbrev parts : Parts (MemTx Doc)
parts = record { index = ref_tx; engine = open_engine }

compact_pages-Reaps_example :
    After (Reaps mem_IsTx doc_IsJson parts) (compact_pages mem_ops doc_json no_scan name parts)
compact_pages-Reaps_example =
    compact_pages-Reaps mem_IsTx doc_IsJson no_scan name parts ref_tx-IsIndex

-- Every segment is rewritten.
abbrev never : ℕ × ℕ → Bool
never ratio = false

compact_with_options-Survives_example :
    Survives mem_IsTx doc_IsJson 5 never ref_tx
      (compact_with_options mem_ops doc_json 5 never no_scan name one_namespace).0.index
compact_with_options-Survives_example =
    compact_with_options-Survives mem_IsTx doc_IsJson 5 never no_scan name one_namespace
      ref_tx-IsIndex
