-- ===== src/Threads/Recovery/Restart.antt =====
-- crates/crewd/src/scheduler.rs, boot_recovery: what a start of the daemon leaves.
use mcp_crewd_rs.Base.{
  String, ◌≡◌, refl, ap, ◌∙◌, inl, inr, Bool, true, false, not, ◌||◌, List, [], ◌∷◌, arith, eq_iff,
  eq_refl, select, update, any, all,
}
use mcp_crewd_rs.Error.{BusError, ok, err, Result-cases}
use mcp_crewd_rs.Audit.{Codec, AuditChain, append}
use mcp_crewd_rs.Store.Tables.{
  Store, CellThread, ThreadState, spawning, running, interrupted, failed_unknown,
}
use mcp_crewd_rs.Store.Once.{all_imp}
use mcp_crewd_rs.Threads.{is_thread, set_thread, thread_transition}
use mcp_crewd_rs.Threads.Recovery.{
  is_running, is_spawning, insert_by_created, sort_by_created, threads_in_states, Moment,
  turn_failed, recover, boot_recovery,
}

all-update_both :
    {A : Type 0} (P Q p : A → Bool) (f : A → A) (xs : List A)
    → ((x : A) → p x ≡ true → P x ≡ true → Q (f x) ≡ true)
    → ((x : A) → p x ≡ false → P x ≡ true → Q x ≡ true)
    → all P xs ≡ true
    → all Q (update p f xs) ≡ true
all-update_both P Q p f [] h k w = refl
all-update_both P Q p f (x ∷ xs) h k w = ground (arith, all-update_both P Q p f xs h k, h x, k x, w)

any-insert :
    (q : CellThread → Bool) (t : CellThread) (us : List CellThread)
    → any q (insert_by_created t us) ≡ any q (t ∷ us)
unfolding insert_by_created
any-insert q t [] = refl
any-insert q t (u ∷ us) = ground (arith, any-insert q t us)

any-sort : (q : CellThread → Bool) (ts : List CellThread) → any q (sort_by_created ts) ≡ any q ts
unfolding sort_by_created
any-sort q [] = refl
any-sort q (t ∷ ts) = ground (arith, any-sort q ts, any-insert q t (sort_by_created ts))

-- Every thread of the test is in the list, by its id.
abbrev covered : (ThreadState → Bool) → List CellThread → CellThread → Bool
covered p us t = not (p t.state) || any (is_thread t.crewd_thread_id) us

covered-select :
    (p : ThreadState → Bool) (ts : List CellThread)
    → all (covered p (select (λ t. p t.state) ts)) ts ≡ true
covered-select p [] = refl
covered-select p (t ∷ ts) = ground (
  arith,
  eq_refl t.crewd_thread_id,
  all_imp (covered p (select (λ t. p t.state) ts)) (covered p (select (λ t. p t.state) (t ∷ ts))) ts
      (λ x k. ground arith) (covered-select p ts),
)

covered-threads :
    (p : ThreadState → Bool) (s : Store)
    → all (covered p (threads_in_states p s)) s.cell_threads ≡ true
unfolding threads_in_states
covered-threads p s =
    all_imp (covered p (select (λ t. p t.state) s.cell_threads)) (covered p (threads_in_states p s))
      s.cell_threads
      (λ x k.
        ground (
          arith,
          k,
          any-sort (is_thread x.crewd_thread_id) (select (λ t. p t.state) s.cell_threads),
        ))
      (covered-select p s.cell_threads)

thread_transition-ok :
    (now id : String) (to : ThreadState) (s : Store)
    → (thread_transition now id to s).0 ≡ ok tt
    → (thread_transition now id to s).1
      ≡ set_thread id (λ u. record u { state = to; updated_at = now }) s
unfolding thread_transition
thread_transition-ok now id to s h = ground (arith, h)

thread_transition-err :
    (now id : String) (to : ThreadState) (s : Store) (e : BusError)
    → (thread_transition now id to s).0 ≡ err e
    → (thread_transition now id to s).1 ≡ s
unfolding thread_transition
thread_transition-err now id to s e h = ground (arith, h)

recover-clears :
    (c : Codec) (moment : CellThread → Moment) (previous to : ThreadState) (p : ThreadState → Bool)
    (ts : List CellThread) (s : Store) (chain : AuditChain) (ids : List String)
    → p to ≡ false
    → (recover c moment previous to ts s chain).0 ≡ ok ids
    → all (covered p ts) s.cell_threads ≡ true
    → all (λ t. not (p t.state)) (recover c moment previous to ts s chain).1.cell_threads ≡ true
unfolding recover
recover-clears c moment previous to p [] s chain ids h k w =
    all_imp (covered p []) (λ t. not (p t.state)) s.cell_threads (λ x l. ground arith) w
recover-clears c moment previous to p (t ∷ ts) s chain ids h k w =
    let draft = turn_failed previous to t in
    let (_, chain_2) =
      append c (moment t).disk (moment t).event_id (moment t).event_ts draft chain in
    let (_, s_2) = thread_transition (moment t).now t.crewd_thread_id to s in
    elim (Result-cases
      (append c (moment t).disk (moment t).event_id (moment t).event_ts draft chain).0) [
        | inr (e, m) ↦ absurd (ground (arith, k, m))
        | inl (x, m) ↦
            elim (Result-cases (thread_transition (moment t).now t.crewd_thread_id to s).0) [
              | inr (e, n) ↦ absurd (ground (arith, k, m, n))
              | inl (y, n) ↦ elim (Result-cases (recover c moment previous to ts s_2 chain_2).0) [
                | inr (e, o) ↦ absurd (ground (arith, k, m, n, o))
                | inl (more, o) ↦
                    let set = thread_transition-ok (moment t).now t.crewd_thread_id to s n in
                    let left : all (covered p ts) s_2.cell_threads ≡ true =
                      ap (λ (u : Store). all (covered p ts) u.cell_threads) set
                      ∙ all-update_both (covered p (t ∷ ts)) (covered p ts)
                          (is_thread t.crewd_thread_id) _ s.cell_threads
                          (λ u l v. ground (arith, h))
                          (λ u l v. ground (
                            arith,
                            l,
                            v,
                            eq_iff u.crewd_thread_id t.crewd_thread_id,
                            eq_iff t.crewd_thread_id u.crewd_thread_id,
                          ))
                          w in
                    let later =
                      recover-clears c moment previous to p ts s_2 chain_2 more h o left in
                    ground (arith, m, n, o, later)
              ]
            ]
      ]

thread_transition-keeps :
    (now id : String) (to : ThreadState) (r : ThreadState → Bool) (s : Store)
    → r to ≡ false
    → all (λ t. not (r t.state)) s.cell_threads ≡ true
    → all (λ t. not (r t.state)) (thread_transition now id to s).1.cell_threads ≡ true
thread_transition-keeps now id to r s h w = elim (Result-cases (thread_transition now id to s).0) [
  | inl (x, k) ↦
      ap (λ (u : Store). all (λ t. not (r t.state)) u.cell_threads)
        (thread_transition-ok now id to s k)
      ∙ all-update_both (λ t. not (r t.state)) (λ t. not (r t.state)) (is_thread id) _
          s.cell_threads (λ u l v. ground (arith, h)) (λ u l v. v) w
  | inr (e, k) ↦
      ap (λ (u : Store). all (λ t. not (r t.state)) u.cell_threads)
        (thread_transition-err now id to s e k)
      ∙ w
]

recover-keeps :
    (c : Codec) (moment : CellThread → Moment) (previous to : ThreadState) (r : ThreadState → Bool)
    (ts : List CellThread) (s : Store) (chain : AuditChain)
    → r to ≡ false
    → all (λ t. not (r t.state)) s.cell_threads ≡ true
    → all (λ t. not (r t.state)) (recover c moment previous to ts s chain).1.cell_threads ≡ true
unfolding recover
recover-keeps c moment previous to r [] s chain h w = w
recover-keeps c moment previous to r (t ∷ ts) s chain h w =
    let draft = turn_failed previous to t in
    let (_, chain_2) =
      append c (moment t).disk (moment t).event_id (moment t).event_ts draft chain in
    let (_, s_2) = thread_transition (moment t).now t.crewd_thread_id to s in
    let kept = thread_transition-keeps (moment t).now t.crewd_thread_id to r s h w in
    let later = recover-keeps c moment previous to r ts s_2 chain_2 h kept in
    elim (Result-cases
      (append c (moment t).disk (moment t).event_id (moment t).event_ts draft chain).0) [
        | inr (e, m) ↦ ground (arith, m, w)
        | inl (x, m) ↦
            elim (Result-cases (thread_transition (moment t).now t.crewd_thread_id to s).0) [
              | inr (e, n) ↦ ground (arith, m, n, kept)
              | inl (y, n) ↦ elim (Result-cases (recover c moment previous to ts s_2 chain_2).0) [
                | inr (e, o) ↦ ground (arith, m, n, o, later)
                | inl (more, o) ↦ ground (arith, m, n, o, later)
              ]
            ]
      ]

-- After a boot recovery that succeeds, no thread is running or spawning.
pub boot_recovery_clears :
    (c : Codec) (moment : CellThread → Moment) (s : Store) (chain : AuditChain) (ids : List String)
    → (boot_recovery c moment s chain).0 ≡ ok ids
    → (all (λ t. not (is_running t.state)) (boot_recovery c moment s chain).1.cell_threads ≡ true)
      × (all (λ t. not (is_spawning t.state)) (boot_recovery c moment s chain).1.cell_threads
          ≡ true)
unfolding boot_recovery
boot_recovery_clears c moment s chain ids h =
    let (_, s_2, chain_2) =
      recover c moment running interrupted (threads_in_states is_running s) s chain in
    let young = threads_in_states is_spawning s_2 in
    elim (Result-cases
      (recover c moment running interrupted (threads_in_states is_running s) s chain).0) [
        | inr (e, m) ↦ absurd (ground (arith, h, m))
        | inl (first, m) ↦
            elim (Result-cases (recover c moment spawning failed_unknown young s_2 chain_2).0) [
              | inr (e, n) ↦ absurd (ground (arith, h, m, n))
              | inl (second, n) ↦
                  let stopped =
                    recover-clears c moment running interrupted is_running
                      (threads_in_states is_running s) s chain first refl m
                      (covered-threads is_running s) in
                  let still_stopped =
                    recover-keeps c moment spawning failed_unknown is_running young s_2 chain_2 refl
                      stopped in
                  let failed =
                    recover-clears c moment spawning failed_unknown is_spawning young s_2 chain_2
                      second refl n (covered-threads is_spawning s_2) in
                  (ground (arith, m, n, still_stopped), ground (arith, m, n, failed))
            ]
      ]
