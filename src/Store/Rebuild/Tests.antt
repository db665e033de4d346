-- ===== src/Store/Rebuild/Tests.antt =====
-- RebuildIndex of one segment into an index with one reference, on the in-memory backend.
use blobs.Index.Memory.{mem_ops, mem_IsTx}
use blobs.Index.Tests.{doc_json, doc_IsJson, ref_tx, ref_tx-IsIndex}
use blobs.Store.Put.Tests.{open_engine}
use blobs.Store.Rebuild.{rebuild}
use blobs.Store.Rebuild.Registers.{Rebuilds, rebuild-Rebuilds}
use blobs.Volume.Scan.{scan_segments}

rebuild-Rebuilds_example :
    Rebuilds mem_IsTx doc_IsJson
      (scan_segments open_engine)
      ref_tx
      (rebuild mem_ops doc_json (scan_segments open_engine) ref_tx)
rebuild-Rebuilds_example =
    rebuild-Rebuilds mem_IsTx doc_IsJson (scan_segments open_engine) ref_tx ref_tx-IsIndex
