-- ===== src/Tickets/Search/Sound.antt =====
-- What the search of tickets.rs finds is a chain of active awaits.
use mcp_crewd_rs.Base.{
  ℕ, zero, suc, ◌≡◌, refl, inl, inr, String, Bool, true, ◌||◌, not, Option, some, List, [], ◌∷◌,
  ◌++◌, eqb, ◌==◌, eq_iff, arith, All, All-append, Bool-cases, subst,
}
use mcp_crewd_rs.Tickets.{Edges, Scan, found, scanned, scan, search, mem}
use mcp_crewd_rs.Tickets.Graph.{Edge, Waits, FromTo, extend}

-- What the search holds in its queue can be reached from `to`.
abbrev Reached : Edges → String → List String → Type 0
Reached es to queue = All (FromTo es to) queue

-- What one run over the edges finds.
abbrev SoundScan : Edges → String → String → Scan → Type 0
SoundScan es to from found = Waits es to from
SoundScan es to from (scanned queue visited) = Reached es to queue

module _ (all_edges : Edges) (to from node : String) (reach : FromTo all_edges to node) where
  scan-SoundScan :
      (es : Edges) (queue visited : List String)
      → ((b : String) → Edge es node b → Edge all_edges node b)
      → Reached all_edges to queue
      → SoundScan all_edges to from (scan from node es queue visited)
  unfolding scan
  scan-SoundScan [] queue visited sub r = r
  scan-SoundScan (((a, b), n) ∷ rest) queue visited sub r =
      elim (Bool-cases (eqb n 0 || not (a == node))) [
        | inl e ↦ rw (e, scan) (scan-SoundScan rest queue visited (λ c w. sub c (inr w)) r)
        | inr e ↦
            let edge : Edge all_edges node b =
              sub b (inl (ground arith, (eq_iff a node).0 (ground arith), refl)) in
            elim (Bool-cases (b == from)) [
              | inl f ↦
                  rw (e, f, scan)
                    (subst (Waits all_edges to) ((eq_iff b from).0 f) (extend reach edge))
              | inr f ↦ elim (Bool-cases (mem visited b)) [
                | inl v ↦
                    rw (e, f, v, scan) (scan-SoundScan rest queue visited (λ c w. sub c (inr w)) r)
                | inr v ↦
                    rw (e, f, v, scan)
                      (scan-SoundScan rest (queue ++ b ∷ []) (b ∷ visited) (λ c w. sub c (inr w))
                        (All-append _ (b ∷ []) queue (inr (extend reach edge), tt) r))
              ]
            ]
      ]

-- The state of the outer loop after a scan.
sound_next :
    (es : Edges) (to from : String) (r : Scan)
    → SoundScan es to from r
    → (next : List String → List String → Option Bool)
    → ((queue visited : List String)
        → Reached es to queue
        → next queue visited ≡ some true
        → Waits es to from)
    → (elim r [ found ↦ some true | scanned queue visited ↦ next queue visited ]) ≡ some true
    → Waits es to from
sound_next es to from found w next ih h = w
sound_next es to from (scanned queue visited) w next ih h = ih queue visited w h

pub search-sound :
    (fuel : ℕ) (es : Edges) (to from : String) (queue visited : List String)
    → Reached es to queue
    → search fuel from es queue visited ≡ some true
    → Waits es to from
unfolding search
search-sound zero es to from queue visited r h = cc
search-sound (suc fuel) es to from [] visited r h = cc
search-sound (suc fuel) es to from (node ∷ queue) visited r h =
    sound_next es to from (scan from node es queue visited)
      (scan-SoundScan es to from node r.0 es queue visited (λ b e. e) r.1) (search fuel from es)
      (search-sound fuel es to from) h
