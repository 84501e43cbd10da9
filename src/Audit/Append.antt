-- ===== src/Audit/Append.antt =====
-- `append` of audit.rs only adds lines, and a success leaves the event in the file.
use mathlib.Core.List.{append-nil, append_assoc}
use mcp_crewd_rs.Base.{◌≡◌, refl, sym, ap, ◌∙◌, String, List, [], ◌∷◌, ◌++◌}
use mcp_crewd_rs.Error.{Result, ok, err}
use mcp_crewd_rs.Audit.{
  Codec, Disk, refused, unsynced, synced, AuditEvent, AuditEventDraft, AuditChain, event_line,
  write, seal, append, assert_kind,
}

-- Lines are only added.
abbrev pub Grows : List String → List String → Type 0
Grows before now = (new : List String) × (now ≡ before ++ new)

pub Grows-refl : (lines : List String) → Grows lines lines
Grows-refl lines = ([], sym (append-nil lines))

pub Grows-trans : (a b c : List String) → Grows a b → Grows b c → Grows a c
Grows-trans a b c (xs, h) (ys, k) =
    (xs ++ ys, k ∙ ap (λ lines. lines ++ ys) h ∙ append_assoc a xs ys)

abbrev pub draft_of : AuditEvent → AuditEventDraft
draft_of e = record {
  kind = e.kind;
  message_id = e.message_id;
  from = e.from;
  to = e.to;
  outcome = e.outcome;
  detail = e.detail;
}

-- A line of the file is that of an event with the contents of the draft.
abbrev pub Recorded : Codec → List String → AuditEventDraft → Type 0
Recorded c lines draft =
    (e : AuditEvent) × (before : List String) × (later : List String) × (lines
      ≡ before ++ event_line c e ∷ later)
    × (draft_of e ≡ draft)

pub Recorded-Grows :
    (c : Codec) {lines now : List String} {draft : AuditEventDraft}
    → Recorded c lines draft
    → Grows lines now
    → Recorded c now draft
Recorded-Grows c (e, before, later, h, k) (new, g) = (
  e,
  before,
  later ++ new,
  g ∙ ap (λ lines. lines ++ new) h ∙ append_assoc before (event_line c e ∷ later) new,
  k,
)

-- What `append` does to the lines: it adds to them, and on success the draft's event.
abbrev pub Appended : Codec → AuditEventDraft → AuditChain → Result AuditEvent × AuditChain → Type 0
Appended c draft chain (ok e, now) = Grows chain.lines now.lines × Recorded c now.lines draft
Appended c draft chain (err e, now) = Grows chain.lines now.lines

write-Appended :
    (c : Codec) (disk : Disk) (event_id ts : String) (draft : AuditEventDraft) (chain : AuditChain)
    → Appended c draft chain (write disk c (seal c chain.head_hash event_id ts draft) chain)
unfolding seal
write-Appended c refused event_id ts draft chain = Grows-refl chain.lines
write-Appended c unsynced event_id ts draft chain =
    (event_line c (seal c chain.head_hash event_id ts draft) ∷ [], refl)
write-Appended c synced event_id ts draft chain =
    let e = seal c chain.head_hash event_id ts draft in
    ((event_line c e ∷ [], refl), (e, chain.lines, [], refl, refl))

pub append-Appended :
    (c : Codec) (disk : Disk) (event_id ts : String) (draft : AuditEventDraft) (chain : AuditChain)
    → Appended c draft chain (append c disk event_id ts draft chain)
unfolding append
append-Appended c disk event_id ts draft chain = known (assert_kind draft.kind)
  where
    known :
        (r : Result (Unit {0}))
        → Appended c draft chain (elim r [
          | err e ↦ (err e, chain)
          | ok _ ↦ write disk c (seal c chain.head_hash event_id ts draft) chain
        ])
    known (err e) = Grows-refl chain.lines
    known (ok _) = write-Appended c disk event_id ts draft chain
