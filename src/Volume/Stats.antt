-- ===== src/Volume/Stats.antt =====
-- SegmentStats (volume.go): the live and the dead pages of each segment.
use blobs.Base.{ℕ, ◌+◌, ◌==◌, ltb, if◌then◌else◌, List, [], ◌∷◌}
use blobs.Object.{ChunkEntry}
use blobs.Volume.Engine.{Engine}
use blobs.Volume.Flags.{is_deleted}
use blobs.Volume.Header.{PageHeader}
use blobs.Volume.Scan.{flags_of, scan_segments}

pub record SegmentStat : Type 0 where
  pub segment_id : ℕ
  pub total_pages : ℕ
  pub dead_pages : ℕ
  pub total_bytes : ℕ
  pub dead_bytes : ℕ

-- The ratio as a fraction.
unfoldable pub dead_ratio : SegmentStat → ℕ × ℕ
dead_ratio s = if s.total_pages == 0 then (0, 1) else (s.dead_pages, s.total_pages)

abbrev pub empty_stat : ℕ → SegmentStat
empty_stat id = record {
  segment_id = id;
  total_pages = 0;
  dead_pages = 0;
  total_bytes = 0;
  dead_bytes = 0;
}

-- The callback's additions for one entry.
unfoldable pub count_entry : ChunkEntry → PageHeader → SegmentStat → SegmentStat
count_entry c h s =
    let dead = is_deleted (flags_of h) in
    record s {
      total_pages = s.total_pages + c.page_count;
      total_bytes = s.total_bytes + c.len;
      dead_pages = if dead then s.dead_pages + c.page_count else s.dead_pages;
      dead_bytes = if dead then s.dead_bytes + c.len else s.dead_bytes;
    }

-- The map from segments to their sums, in the order of the final sort.
unfoldable pub add_entry : ChunkEntry → PageHeader → List SegmentStat → List SegmentStat
add_entry c h [] = count_entry c h (empty_stat c.segment_id) ∷ []
add_entry c h (s ∷ ss) =
    let later = s ∷ add_entry c h ss in
    if s.segment_id == c.segment_id
    then count_entry c h s ∷ ss
    else (if ltb c.segment_id s.segment_id
        then count_entry c h (empty_stat c.segment_id) ∷ s ∷ ss
        else later)

unfoldable pub add_entries : List (ChunkEntry × PageHeader) → List SegmentStat → List SegmentStat
add_entries [] ss = ss
add_entries ((c, h) ∷ r) ss = add_entries r (add_entry c h ss)

unfoldable pub segment_stats : Engine → List SegmentStat
segment_stats e = add_entries (scan_segments e) []
