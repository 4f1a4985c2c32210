-- ===== src/Tests/Support.antt =====
-- Entries of the retry snapshots.
use rolebot_hse.Base.{◌≡◌, true, some, string_eq}
use rolebot_hse.Application.Support.{
  sift_demoted_prefix, sift_snapshot_entry, parse_sift_snapshot_entry, parse-sift_snapshot_entry,
}

parse-sift_snapshot_entry_example :
    parse_sift_snapshot_entry (sift_snapshot_entry sift_demoted_prefix "vk:1")
    ≡ some (sift_demoted_prefix, "vk:1")
parse-sift_snapshot_entry_example = parse-sift_snapshot_entry true "vk:1"
