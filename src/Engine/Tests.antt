-- ===== src/Engine/Tests.antt =====
-- Runs of engine.rs.
use mcp_crewd_rs.Base.{ℕ, String, ◌≡◌, [], ◌∷◌}
use mcp_crewd_rs.Store.Tables.{Store, JournalLine, create_schema}
use mcp_crewd_rs.Engine.{journal_append, journal_rows, max_seq, newest_first, insert_by_seq}
use mcp_crewd_rs.Engine.Journal.{journal_rows-journal_append}

abbrev line : String → ℕ → String → JournalLine
line thread seq text = record { thread_id = thread; seq = seq; line = text; at = "t" }

abbrev store : Store
store = record create_schema {
  thread_journal = line "a" 1 "accepted: t" ∷ line "b" 1 "note: x" ∷ line "a" 2 "note: y" ∷ [];
}

journal_rows-journal_append_example :
    journal_rows "a" 2 (journal_append "t" "a" "final: z" store).1
    ≡ line "a" 2 "note: y" ∷ line "a" 3 "final: z" ∷ []
unfolding journal_append journal_rows max_seq newest_first insert_by_seq
journal_rows-journal_append_example = journal_rows-journal_append "t" "a" "final: z" 1 store
