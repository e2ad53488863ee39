-- ===== src/Desktop/Upload.antt =====
-- desktop/crates/core/src/desktop.rs: receiving a file.
mod Refusal
mod Opening
mod Chunks
mod Closing
unfoldable pub use Refusal.{
  retried, refuse_upload, close_upload, update_session, close_at, fail_upload, skip_send,
  reject_changed, mismatch, mismatch_at, reject_content,
}
unfoldable pub use Opening.{
  is_transferring, force_reimport, create_upload, open_upload, prefix_digest, open_planned,
  upload_opened,
}
unfoldable pub use Chunks.{
  inspect_chunk, sync_upload, sync_partial, upload_closed, upload_aborted, take_chunk, accept_chunk,
  refuse_chunk, chunk_arrived,
}
unfoldable pub use Closing.{
  file_synced, record_verified, staging_file_finalized, mtime_applied, count_sent, upload_verified,
  verify_claim, verify, watermark_moved, watermark_advanced,
}
pub use Chunks.{ChunkRefusal}
