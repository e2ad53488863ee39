-- ===== src/Desktop/Diff.antt =====
-- desktop/crates/core/src/desktop.rs: the session, from connection to diff.
mod Connection
mod Classifying
unfoldable pub use Connection.{
  describe, is_awaiting_catalog, is_catalog_frozen, unfinished, finalize_partials, rejoined,
  peer_connected, peer_disconnected, catalog_submitted, ask_for_diff, diff_requested,
}
unfoldable pub use Classifying.{
  to_send_of, holds_digest, needs_rebuild, rebuilds_of, prefixes_to_rebuild, read_more_of,
  supersede, resumable_of, classify_session, classify_now, free_space_known, free_space_answered,
  free_space_measured, rebuild_each, rebuild_prefixes, try_classify, try_each, seed_file_ids,
  record_answer, settle_prefix, prefix_read, prefix_unreadable,
}
