-- ===== src/Engine/Journal.antt =====
-- The journal of crates/crewd-core/src/engine.rs: the last lines, in their order.
use mcp_crewd_rs.Base.{
  ℕ, suc, ◌+◌, ◌<◌, String, ◌≡◌, refl, ap, ◌∙◌, inl, inr, Bool, true, List, [], ◌∷◌, ◌++◌, arith,
  eq_refl, Bool-cases, take, select, All, All-imp, reverse,
}
use mcp_crewd_rs.Store.Tables.{Store, JournalLine}
use mcp_crewd_rs.Engine.{
  of_thread, max_seq, journal_append, insert_by_seq, newest_first, journal_rows,
}

abbrev Below : ℕ → List JournalLine → Type 0
Below n ls = All (λ l. l.seq < n) ls

max_seq-Below :
    (thread_id : String) (ls : List JournalLine)
    → Below (max_seq thread_id ls + 1) (select (of_thread thread_id) ls)
unfolding max_seq
max_seq-Below thread_id [] = tt
max_seq-Below thread_id (l ∷ ls) = elim (Bool-cases (of_thread thread_id l)) [
  | inr e ↦ rw e (max_seq-Below thread_id ls)
  | inl e ↦ rw e (
    ground arith,
    All-imp _ _ (select (of_thread thread_id) ls) (λ x h. ground (arith, h))
        (max_seq-Below thread_id ls),
  )
]

newest_first-append :
    (new : JournalLine) (ls : List JournalLine)
    → Below new.seq ls
    → newest_first (ls ++ new ∷ []) ≡ new ∷ newest_first ls
unfolding newest_first insert_by_seq
newest_first-append new [] h = refl
newest_first-append new (l ∷ ls) h =
    ap (insert_by_seq l) (newest_first-append new ls h.1) ∙ ground (arith, h.0)

select-append :
    (p : JournalLine → Bool) (ls : List JournalLine) (new : JournalLine)
    → p new ≡ true
    → select p (ls ++ new ∷ []) ≡ select p ls ++ new ∷ []
select-append p [] new h = ground (arith, h)
select-append p (l ∷ ls) new h = ground (arith, select-append p ls new h)

-- A line that is appended to the journal of a thread is the last of its tail, and before it stand the
-- last lines that were there: the tail of one line more is the old tail with the new line at its end.
pub journal_rows-journal_append :
    (now thread_id line : String) (n : ℕ) (s : Store)
    → let (seq, after) = journal_append now thread_id line s in
      journal_rows thread_id (suc n) after
      ≡ journal_rows thread_id n s
        ++ record { thread_id = thread_id; seq = seq; line = line; at = now } ∷ []
unfolding journal_rows journal_append
journal_rows-journal_append now thread_id line n s =
    let new : JournalLine = record {
      thread_id = thread_id;
      seq = max_seq thread_id s.thread_journal + 1;
      line = line;
      at = now;
    } in
    ap (λ ls. reverse (take (suc n) (newest_first ls)))
      (select-append (of_thread thread_id) s.thread_journal new (eq_refl thread_id))
    ∙ ap (λ ls. reverse (take (suc n) ls))
        (newest_first-append new (select (of_thread thread_id) s.thread_journal)
          (max_seq-Below thread_id s.thread_journal))
