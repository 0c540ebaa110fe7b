-- ===== src/Transcript.antt =====
-- token_bench/transcript.py: what the log of a run says.
mod Limit
unfoldable pub use Limit.{is_usage_limit_error}
