-- ===== src/Pipeline/Status.antt =====
-- internal/pipeline/status.go. A `JobStatus` is a string, and one read from the table can be any.
use ping_goat.Common.{Bool, GoString, bytes, str_eq, ◌||◌}

abbrev pub status_queued : GoString
status_queued = bytes "queued"

abbrev pub status_cloning : GoString
status_cloning = bytes "cloning"

abbrev pub status_parsing : GoString
status_parsing = bytes "parsing"

abbrev pub status_generating : GoString
status_generating = bytes "generating"

abbrev pub status_completed : GoString
status_completed = bytes "completed"

abbrev pub status_failed : GoString
status_failed = bytes "failed"

unfoldable pub is_active : GoString → Bool
unfolding str_eq
is_active s = str_eq s status_cloning || (str_eq s status_parsing || str_eq s status_generating)
