-- ===== src/Store/Sequences.antt =====
-- crates/crewd-core/src/store.rs, next_seq: the numbers of a pair of cells.
use mcp_crewd_rs.Base.{
  any-find, find-append_other, ℕ, suc, ◌+◌, String, ◌≡◌, ap, ◌∙◌, inl, inr, true, false, ◌&&◌, none,
  some, List, [], ◌∷◌, ◌++◌, arith, ◌==◌, eq_iff, eq_refl, Bool-cases, Option-cases, find, update,
  find-update_ne, find-update_eq, find-append_none,
}
use mcp_crewd_rs.Error.{ok}
use mcp_crewd_rs.Store.Tables.{Store, SeqCounter}
use mcp_crewd_rs.Store.Deliveries.{is_pair, first_counter, with_counter, next_seq}

-- The number that the pair gets next: that of its row, and 1 before its first message.
abbrev pub next_number : String → String → List SeqCounter → ℕ
next_number from to counters = elim (find (is_pair from to) counters) [
  | none ↦ 1
  | some c ↦ c.next_seq
]

other_pair :
    (from to f t : String)
    → (f == from && t == to) ≡ false
    → (c : SeqCounter) → is_pair from to c ≡ true
    → is_pair f t c ≡ false
other_pair from to f t h c e = elim (Bool-cases (is_pair f t c)) [
  | inr k ↦ k
  | inl k ↦ ground (
    arith,
    eq_iff c.from_cell from,
    eq_iff c.to_cell to,
    eq_iff c.from_cell f,
    eq_iff c.to_cell t,
    eq_iff f from,
    eq_iff t to,
  )
]

with_counter-none :
    (from to : String) (counters : List SeqCounter)
    → find (is_pair from to) counters ≡ none
    → with_counter from to counters ≡ counters ++ first_counter from to ∷ []
with_counter-none from to counters e = ground (arith, e, any-find (is_pair from to) counters)

with_counter-some :
    (from to : String) (counters : List SeqCounter) (c : SeqCounter)
    → find (is_pair from to) counters ≡ some c
    → with_counter from to counters ≡ counters
with_counter-some from to counters c e = ground (arith, e, any-find (is_pair from to) counters)

first_counter-is_pair : (from to : String) → is_pair from to (first_counter from to) ≡ true
first_counter-is_pair from to = ground (arith, eq_refl from, eq_refl to)

with_counter-own :
    (from to : String) (counters : List SeqCounter)
    → (c : SeqCounter) × (find (is_pair from to) (with_counter from to counters) ≡ some c)
      × (c.next_seq ≡ next_number from to counters)
with_counter-own from to counters = elim (Option-cases (find (is_pair from to) counters)) [
  | inl e ↦ (
    first_counter from to,
    ground (
      arith,
      with_counter-none from to counters e,
      find-append_none (is_pair from to) counters (first_counter from to ∷ []) e,
      first_counter-is_pair from to,
    ),
    ground (arith, e),
  )
  | inr (c, e) ↦ (c, ground (arith, e, with_counter-some from to counters c e), ground (arith, e))
]

with_counter-other :
    (from to f t : String) (counters : List SeqCounter)
    → (f == from && t == to) ≡ false
    → find (is_pair f t) (with_counter from to counters) ≡ find (is_pair f t) counters
with_counter-other from to f t counters h = elim (Option-cases (find (is_pair from to) counters)) [
  | inr (c, e) ↦ ap (find (is_pair f t)) (with_counter-some from to counters c e)
  | inl e ↦
      ap (find (is_pair f t)) (with_counter-none from to counters e)
      ∙ find-append_other (is_pair f t) counters (first_counter from to)
          (other_pair from to f t h (first_counter from to) (first_counter-is_pair from to))
]

raise-other :
    (from to f t : String) (counters : List SeqCounter)
    → (f == from && t == to) ≡ false
    → find
        (is_pair f t)
        (update (is_pair from to) (λ k. record k { next_seq = k.next_seq + 1 }) counters)
      ≡ find (is_pair f t) counters
raise-other from to f t counters h =
    find-update_ne (is_pair f t) (is_pair from to) (λ k. record k { next_seq = k.next_seq + 1 })
      counters (λ c. other_pair from to f t h c) (λ c. other_pair from to f t h c)

-- A call returns the pair's next number and raises it by one; the numbers of the other pairs stay.
pub next_seq_lem :
    (from to f t : String) (s : Store)
    → (f == from && t == to) ≡ false
    → ((next_seq from to s).0 ≡ ok (next_number from to s.seq_counters))
      × (next_number from to (next_seq from to s).1.seq_counters
          ≡ suc (next_number from to s.seq_counters))
      × (next_number f t (next_seq from to s).1.seq_counters ≡ next_number f t s.seq_counters)
unfolding next_seq
next_seq_lem from to f t s h =
    let (c, e, n) = with_counter-own from to s.seq_counters in
    let kept =
      find-update_eq (is_pair from to) (λ k. record k { next_seq = k.next_seq + 1 })
        (with_counter from to s.seq_counters) c (λ x k. k) e in
    (
      ground (arith, e, n),
      ground (arith, e, n, kept),
      ground (
        arith,
        e,
        raise-other from to f t (with_counter from to s.seq_counters) h,
        with_counter-other from to f t s.seq_counters h,
      ),
    )
