-- ===== src/Spawn/Replay.antt =====
-- crates/crewd-core/src/spawn.rs, spawn_idempotent: a repeated request, and what a call leaves behind.
use mcp_crewd_rs.Base.{
  ℕ, String, ◌≡◌, refl, ap, ◌∙◌, inl, inr, Bool, false, none, some, List, [], ◌∷◌, ◌++◌, arith,
  eq_refl, any-find, count, find, any, count-append, find-append_none,
}
use mcp_crewd_rs.Error.{ok, Result-cases}
use mcp_crewd_rs.Validators.{validate_cell_name_allowing_ephemeral, validate_idempotency_key}
use mcp_crewd_rs.Audit.{Codec, AuditChain, AuditEvent, append}
use mcp_crewd_rs.Store.Tables.{Store, CellThread}
use mcp_crewd_rs.Jobs.{job_enqueue_inner}
use mcp_crewd_rs.Threads.{is_thread, thread_insert, thread_get, thread_active_for_cell, active_for}
use mcp_crewd_rs.Threads.Lifecycle.{latest_active-none}
use mcp_crewd_rs.Spawn.{
  SpawnRequest, Launch, Ambient, SpawnOutcome, created_thread, replayed, is_request,
  lookup_spawn_request, lock_cell, new_request, add_request, new_thread, requested, spawn_writes,
  replay, spawn_idempotent,
}

-- What the writes of a spawn leave, when they succeed
abbrev IsSpawned : SpawnRequest → Launch → Ambient → Store → SpawnOutcome → Store → Type 0
IsSpawned req l a s o t =
    (o ≡ created_thread (new_thread req l a))
    × (any (active_for req.cell_name) s.cell_threads ≡ false)
    × (any (is_thread a.thread_id) s.cell_threads ≡ false)
    × (t.spawn_requests ≡ (add_request req a s).spawn_requests)
    × (t.cell_threads ≡ s.cell_threads ++ new_thread req l a ∷ [])

lock_cell-keeps :
    (cell : String) (s : Store)
    → ((lock_cell cell s).cell_threads ≡ s.cell_threads)
      × ((lock_cell cell s).spawn_requests ≡ s.spawn_requests)
lock_cell-keeps cell s = ground arith

job_enqueue-keeps :
    (fresh now thread_id cell payload : String) (depth_cap : ℕ) (s : Store)
    → ((job_enqueue_inner fresh now thread_id cell payload depth_cap s).1.cell_threads
        ≡ s.cell_threads)
      × ((job_enqueue_inner fresh now thread_id cell payload depth_cap s).1.spawn_requests
          ≡ s.spawn_requests)
unfolding job_enqueue_inner
job_enqueue-keeps fresh now thread_id cell payload depth_cap s = ground arith

spawn_writes-IsSpawned :
    (req : SpawnRequest) (l : Launch) (a : Ambient) (s : Store) (o : SpawnOutcome)
    → (spawn_writes req l a s).0 ≡ ok o
    → IsSpawned req l a s o (spawn_writes req l a s).1
unfolding spawn_writes thread_active_for_cell thread_insert
spawn_writes-IsSpawned req l a s o h =
    let locked = lock_cell req.cell_name s in
    let (threads, requests) = lock_cell-keeps req.cell_name s in
    let ready = record (add_request req a locked) {
      cell_threads = (add_request req a locked).cell_threads ++ new_thread req l a ∷ [];
    } in
    let kept =
      job_enqueue-keeps a.job_id a.now a.thread_id req.cell_name req.payload l.depth_cap ready in
    let active = latest_active-none req.cell_name locked.cell_threads in
    (
      ground (arith, h),
      ground (arith, h, active, threads),
      ground (arith, h, threads),
      ground (arith, h, kept, requests),
      ground (arith, h, kept, threads),
    )

-- Inversion of a spawn that made a thread
spawn-IsSpawned :
    (c : Codec) (req : SpawnRequest) (l : Launch) (a : Ambient) (s : Store) (chain : AuditChain)
    (t : CellThread)
    → (spawn_idempotent c req l a s chain).0 ≡ ok (created_thread t)
    → (validate_cell_name_allowing_ephemeral req.cell_name ≡ ok tt)
      × (validate_idempotency_key req.idempotency_key ≡ ok tt)
      × (lookup_spawn_request req.caller req.cell_name req.idempotency_key s ≡ none)
      × ((event : AuditEvent) × (append c a.disk a.event_id a.event_ts (requested req l) chain
            ≡ (ok event, (spawn_idempotent c req l a s chain).2)))
      × IsSpawned req l a s (created_thread t) (spawn_idempotent c req l a s chain).1
unfolding spawn_idempotent replay
spawn-IsSpawned c req l a s chain t h =
    elim (Result-cases (append c a.disk a.event_id a.event_ts (requested req l) chain).0) [
      | inr (e, k) ↦ absurd (ground (arith, h, k))
      | inl (event, k) ↦ elim (Result-cases (spawn_writes req l a s).0) [
        | inr (e, w) ↦ absurd (ground (arith, h, k, w))
        | inl (o, w) ↦
            let spawned = spawn_writes-IsSpawned req l a s o w in
            (
              ground (arith, h),
              ground (arith, h),
              ground (arith, h),
              (event, ground (arith, h, k)),
              (
                ground (arith, h, k, w, spawned.0),
                spawned.1,
                spawned.2,
                ground (arith, h, k, w, spawned.3),
                ground (arith, h, k, w, spawned.4),
              ),
            )
      ]
    ]

any_none-count : {A : Type 0} (p : A → Bool) (xs : List A) → any p xs ≡ false → count p xs ≡ 0
any_none-count p [] h = refl
any_none-count p (x ∷ xs) h = ground (arith, any_none-count p xs)

no_request :
    (req : SpawnRequest) (s : Store)
    → lookup_spawn_request req.caller req.cell_name req.idempotency_key s ≡ none
    → find (is_request req.caller req.cell_name req.idempotency_key) s.spawn_requests ≡ none
unfolding lookup_spawn_request
no_request req s h = ground (arith, h)

find-request_after :
    (req : SpawnRequest) (a : Ambient) (s t : Store)
    → find (is_request req.caller req.cell_name req.idempotency_key) s.spawn_requests ≡ none
    → t.spawn_requests ≡ s.spawn_requests ++ new_request req a ∷ []
    → lookup_spawn_request req.caller req.cell_name req.idempotency_key t ≡ some a.thread_id
unfolding lookup_spawn_request
find-request_after req a s t h k = ground (arith, k, found)
  where
    found :
        find
          (is_request req.caller req.cell_name req.idempotency_key)
          (s.spawn_requests ++ new_request req a ∷ [])
        ≡ some (new_request req a)
    found =
        find-append_none (is_request req.caller req.cell_name req.idempotency_key) s.spawn_requests
          (new_request req a ∷ []) h
        ∙ ground (arith, eq_refl req.caller, eq_refl req.cell_name, eq_refl req.idempotency_key)

thread_get_after :
    (req : SpawnRequest) (l : Launch) (a : Ambient) (s t : Store)
    → any (is_thread a.thread_id) s.cell_threads ≡ false
    → t.cell_threads ≡ s.cell_threads ++ new_thread req l a ∷ []
    → replay t a.thread_id ≡ ok (replayed (new_thread req l a))
unfolding replay thread_get
thread_get_after req l a s t h k = ground (arith, k, found)
  where
    found :
        find (is_thread a.thread_id) (s.cell_threads ++ new_thread req l a ∷ [])
        ≡ some (new_thread req l a)
    found =
        find-append_none (is_thread a.thread_id) s.cell_threads (new_thread req l a ∷ [])
          (ground (arith, h, any-find (is_thread a.thread_id) s.cell_threads))
        ∙ ground (arith, eq_refl a.thread_id)

-- A request that made a thread is answered with that thread when it is made again, whatever else the
-- second call comes with; the second call changes neither the store nor the audit.
pub spawn_replay :
    (c : Codec) (req : SpawnRequest) (l m : Launch) (a b : Ambient) (s : Store) (chain : AuditChain)
    (t : CellThread)
    → (spawn_idempotent c req l a s chain).0 ≡ ok (created_thread t)
    → let after = spawn_idempotent c req l a s chain in
      spawn_idempotent c req m b after.1 after.2 ≡ (ok (replayed t), after.1, after.2)
unfolding spawn_idempotent
spawn_replay c req l m a b s chain t h =
    let (name, key, fresh, _, (made, _, fresh_id, requests, threads)) =
      spawn-IsSpawned c req l a s chain t h in
    let after = (spawn_idempotent c req l a s chain).1 in
    let found = find-request_after req a s after (no_request req s fresh) requests in
    let thread = thread_get_after req l a s after fresh_id threads in
    ground (arith, name, key, found, thread, made)

-- A spawn that made a thread found none of the cell's threads active, and has left exactly one.
pub spawn_one_active :
    (c : Codec) (req : SpawnRequest) (l : Launch) (a : Ambient) (s : Store) (chain : AuditChain)
    (t : CellThread)
    → (spawn_idempotent c req l a s chain).0 ≡ ok (created_thread t)
    → (count (active_for req.cell_name) s.cell_threads ≡ 0)
      × (count (active_for req.cell_name) (spawn_idempotent c req l a s chain).1.cell_threads ≡ 1)
spawn_one_active c req l a s chain t h =
    let (_, _, _, _, (_, none_active, _, _, threads)) = spawn-IsSpawned c req l a s chain t h in
    let zero_active = any_none-count (active_for req.cell_name) s.cell_threads none_active in
    (
      zero_active,
      ap (count (active_for req.cell_name)) threads
          ∙ ground (
            arith,
            zero_active,
            count-append (active_for req.cell_name) s.cell_threads (new_thread req l a ∷ []),
            eq_refl req.cell_name,
          ),
    )
