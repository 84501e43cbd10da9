-- ===== src/Audit/Tamper.antt =====
-- What two chains of audit.rs with one head have in common, and what a failed fsync does.
use Prim.Native.String.{◌++◌ as ◌^^◌, count}
use text.Mathlib.TextLemmas.{append_inj, length-append}
use mcp_crewd_rs.Base.{
  ℕ, ◌+◌, ◌≤◌, ◌≡◌, ◌≢◌, refl, sym, ap, subst, ◌∙◌, ◌⊎◌, inl, inr, String, not, ◌||◌, none, some,
  List, [], ◌∷◌, select, ◌==◌, eq_iff, arith, Bool-cases, Option-cases,
}
use mcp_crewd_rs.Canonical.{to_canonical_json}
use mcp_crewd_rs.Audit.{
  Codec, verify, verify_from, readable, intact, read_entry, genesis_hash, recompute, without_hash,
  get_str, or_empty,
}

-- What a line says: the canonical text of the event without its hash.
abbrev pub content : Codec → String → String
content c line = elim (c.from_str line) [
  | none ↦ ""
  | some v ↦ to_canonical_json c.escape (without_hash v)
]

abbrev pub SameContents : Codec → List String → List String → Type 0
SameContents c [] [] = Unit
SameContents c [] (y ∷ ys) = ⊥
SameContents c (x ∷ xs) [] = ⊥
SameContents c (x ∷ xs) (y ∷ ys) = (content c x ≡ content c y) × SameContents c xs ys

-- Two lines that stand at one place of the two files, where the texts that are hashed there, the content
-- of the line with the hash of the line before, differ and have one hash.
abbrev pub Collides : Codec → String → String → List String → List String → Type 0
Collides c p q [] ys = ⊥
Collides c p q (x ∷ xs) [] = ⊥
Collides c p q (x ∷ xs) (y ∷ ys) =
    (((content c x ^^ p) ≢ (content c y ^^ q))
      × (c.hex_sha256 (content c x ^^ p) ≡ c.hex_sha256 (content c y ^^ q)))
    ⊎ Collides c (c.hex_sha256 (content c x ^^ p)) (c.hex_sha256 (content c y ^^ q)) xs ys

-- A line that passes the loop of `verify`: its hash is that of its content with the previous hash.
passed :
    (c : Codec) (i : ℕ) (p : String) (x : String) (xs : List String) (h : String) (n : ℕ)
    → verify_from c i p (x ∷ xs) ≡ intact h n
    → (k : String) × (k ≡ c.hex_sha256 (content c x ^^ p))
      × (verify_from c (i + 1) k xs ≡ intact h n)
unfolding verify_from read_entry recompute
passed c i p x xs h n e = elim (Option-cases (c.from_str x)) [
  | inl unread ↦ absurd (ground (arith, unread))
  | inr (v, r) ↦
      let prev = or_empty (get_str "prev_hash" v) in
      let hash = or_empty (get_str "hash" v) in
      elim (Bool-cases (not (recompute c v prev == hash) || not (prev == p))) [
        | inl bad ↦ absurd (ground (arith, r, bad))
        | inr good ↦ (
          hash,
          rw (r, content)
              (sym ((eq_iff _ _).0 (ground arith))
                ∙ ap (λ q. c.hex_sha256 (to_canonical_json c.escape (without_hash v) ^^ q))
                    ((eq_iff prev p).0 (ground arith))),
          ground (arith, r, good),
        )
      ]
]

verify_from-count :
    (c : Codec) (i : ℕ) (p : String) (xs : List String) (h : String) (n : ℕ)
    → verify_from c i p xs ≡ intact h n
    → i ≤ n
unfolding verify_from
verify_from-count c i p [] h n e = ground arith
verify_from-count c i p (x ∷ xs) h n e =
    let (k, _, r) = passed c i p x xs h n e in omega (arith, verify_from-count c (i + 1) k xs h n r)

abbrev Agree : Codec → String → String → List String → List String → Type 0
Agree c p q xs ys = ((p ≡ q) × SameContents c xs ys) ⊎ Collides c p q xs ys

-- One step back along two chains whose hashes agree after it.
Agree-back :
    (c : Codec) (p q x y : String) (xs ys : List String)
    → count p ≡ count q
    → c.hex_sha256 (content c x ^^ p) ≡ c.hex_sha256 (content c y ^^ q)
    → SameContents c xs ys
    → Agree c p q (x ∷ xs) (y ∷ ys)
Agree-back c p q x y xs ys len e rest =
    elim (Bool-cases ((content c x ^^ p) == (content c y ^^ q))) [
      | inr ne ↦ inr (inl ((λ s. ground (arith, (eq_iff _ _).1 s)), e))
      | inl eq ↦
          let same : content c x ^^ p ≡ content c y ^^ q = (eq_iff _ _).0 eq in
          let parts = append_inj same (
            omega (
              arith,
              len,
              length-append (content c x) p,
              length-append (content c y) q,
              ap count same,
            )) in
          inl (parts.1, (parts.0, rest))
    ]

-- SHA-256 in hexadecimal has 64 characters.
pub record IsHex (c : Codec) : Type 0 where
  pub hex_length : (s : String) → count (c.hex_sha256 s) ≡ 64

chains-Agree :
    (c : Codec) (i : ℕ) (p q : String) (xs ys : List String) (h : String) (n : ℕ)
    → IsHex c
    → count p ≡ 64
    → count q ≡ 64
    → verify_from c i p xs ≡ intact h n
    → verify_from c i q ys ≡ intact h n
    → Agree c p q xs ys
unfolding verify_from
chains-Agree c i p q [] [] h n w lp lq e f = inl (cc, tt)
chains-Agree c i p q [] (y ∷ ys) h n w lp lq e f =
    let (k, _, r) = passed c i q y ys h n f in
    let none_left : i ≡ n = cc in
    absurd (omega (arith, verify_from-count c (i + 1) k ys h n r, none_left))
chains-Agree c i p q (x ∷ xs) [] h n w lp lq e f =
    let (k, _, r) = passed c i p x xs h n e in
    let none_left : i ≡ n = cc in
    absurd (omega (arith, verify_from-count c (i + 1) k xs h n r, none_left))
chains-Agree c i p q (x ∷ xs) (y ∷ ys) h n w lp lq e f =
    let (k, a, r) = passed c i p x xs h n e in
    let (l, b, s) = passed c i q y ys h n f in
    elim (chains-Agree c (i + 1) k l xs ys h n w (ap count a ∙ w.hex_length _)
      (ap count b ∙ w.hex_length _) r s) [
        | inr collision ↦ inr (
            inr (
              subst (λ z. Collides c z (c.hex_sha256 (content c y ^^ q)) xs ys) a
                (subst (λ z. Collides c k z xs ys) b collision)))
        | inl agree ↦ Agree-back c p q x y xs ys (lp ∙ sym lq) (sym a ∙ agree.0 ∙ b) agree.1
      ]

-- The lines of a file that `verify` walks.
abbrev pub events : Codec → List String → List String
events c lines = select (λ l. not (c.is_blank l)) lines

-- Tamper evidence, for hashes of 64 characters: two files that `verify` finds intact, with the same head
-- hash and the same number of events, hold the same events line by line, or at some place of both the
-- texts that the chain hashes there, an event with the hash before it, differ and have one hash.
pub tamper_evident :
    (c : Codec) (old new : List String) (head : String) (n : ℕ)
    → IsHex c
    → verify c (readable old) ≡ intact head n
    → verify c (readable new) ≡ intact head n
    → SameContents c (events c old) (events c new)
      ⊎ Collides c genesis_hash genesis_hash (events c old) (events c new)
unfolding verify
tamper_evident c old new head n w e f =
    elim (chains-Agree c 0 genesis_hash genesis_hash (events c old) (events c new) head n w refl
      refl e f) [ inl agree ↦ inl agree.1 | inr collision ↦ inr collision ]
