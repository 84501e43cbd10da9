-- ===== src/Tickets/Search/Complete.antt =====
-- The search of tickets.rs ends, and misses no chain of active awaits.
use mcp_crewd_rs.Base.{
  ℕ, zero, suc, ◌≡◌, ◌≢◌, refl, sym, ◌⊎◌, inl, inr, String, Bool, true, false, ◌||◌, not, Option,
  some, List, [], ◌∷◌, ◌++◌, eqb, ◌==◌, eq_iff, arith, Bool-cases, subst,
}
use mcp_crewd_rs.Tickets.{Edges, Scan, found, scanned, scan, search, mem}
use mcp_crewd_rs.Tickets.Graph.{Edge, Waits, direct, through}

-- A visited node that has left the queue has only visited successors, and `from` is none of them.
abbrev IsClosed : Edges → String → List String → List String → Type 0
IsClosed es from queue visited =
    (v b : String)
    → mem visited v ≡ true
    → Edge es v b
    → (mem queue v ≡ true) ⊎ ((mem visited b ≡ true) × (b ≢ from))

mem-push : (queue : List String) (b x : String) → mem (queue ++ b ∷ []) x ≡ mem queue x || (b == x)
mem-push [] b x = ground arith
mem-push (y ∷ queue) b x = ground (arith, mem-push queue b x)

-- What a scan that does not find `from` has done.
record Scanned (es : Edges) (from node : String) (queue visited queue' visited' : List String)
    : Type 0 where
  keeps_visited : (x : String) → mem visited x ≡ true → mem visited' x ≡ true
  keeps_queue : (x : String) → mem queue x ≡ true → mem queue' x ≡ true
  new_queued : (x : String) → mem visited' x ≡ true → (mem visited x ≡ true) ⊎ (mem queue' x ≡ true)
  covers : (b : String) → Edge es node b → (mem visited' b ≡ true) × (b ≢ from)

abbrev CompleteScan : Edges → String → String → List String → List String → Scan → Type 0
CompleteScan es from node queue visited found = Unit
CompleteScan es from node queue visited (scanned queue' visited') =
    Scanned es from node queue visited queue' visited'

-- An edge of another node, or one whose target is visited already, is passed over.
skip-Edge :
    (e : (String × String) × ℕ) (es : Edges) (from node : String) (queue visited : List String)
    (r : Scan)
    → ((b : String) → Edge (e ∷ []) node b → (mem visited b ≡ true) × (b ≢ from))
    → CompleteScan es from node queue visited r
    → CompleteScan (e ∷ es) from node queue visited r
skip-Edge e es from node queue visited found h c = tt
skip-Edge e es from node queue visited (scanned q v) h c = record {
  keeps_visited = c.keeps_visited;
  keeps_queue = c.keeps_queue;
  new_queued = c.new_queued;
  covers = λ b w. elim w [
    | inl here ↦ (c.keeps_visited b (h b (inl here)).0, (h b (inl here)).1)
    | inr there ↦ c.covers b there
  ];
}

-- A new successor goes to the queue and among the visited.
push_edge :
    (x y from node : String) (n : ℕ) (es : Edges) (queue visited : List String) (r : Scan)
    → (y == from) ≡ false
    → CompleteScan es from node (queue ++ y ∷ []) (y ∷ visited) r
    → CompleteScan (((x, y), n) ∷ es) from node queue visited r
push_edge x y from node n es queue visited found h c = tt
push_edge x y from node n es queue visited (scanned q v) h c = record {
  keeps_visited = λ z m. c.keeps_visited z (ground arith);
  keeps_queue = λ z m. c.keeps_queue z (ground (arith, mem-push queue y z));
  new_queued = λ z m. ground (arith, c.new_queued z m, c.keeps_queue z, mem-push queue y z);
  covers = λ b w. elim w [
    | inl here ↦ ground (arith, c.keeps_visited b, eq_iff y b, eq_iff y from)
    | inr there ↦ c.covers b there
  ];
}

scan-CompleteScan :
    (es : Edges) (from node : String) (queue visited : List String)
    → CompleteScan es from node queue visited (scan from node es queue visited)
unfolding scan
scan-CompleteScan [] from node queue visited = record {
  keeps_visited = λ x m. m;
  keeps_queue = λ x m. m;
  new_queued = λ x m. inl m;
  covers = λ b w. absurd w;
}
scan-CompleteScan (((a, b), n) ∷ rest) from node queue visited =
    elim (Bool-cases (eqb n 0 || not (a == node))) [
      | inl e ↦
          rw (e, scan)
            (skip-Edge ((a, b), n) rest from node queue visited _
              (λ c w. ground (arith, eq_iff a node))
              (scan-CompleteScan rest from node queue visited))
      | inr e ↦ elim (Bool-cases (b == from)) [
        | inl f ↦ rw (e, f, scan) tt
        | inr f ↦ elim (Bool-cases (mem visited b)) [
          | inl v ↦
              rw (e, f, v, scan)
                (skip-Edge ((a, b), n) rest from node queue visited _
                  (λ c w. ground (arith, eq_iff b from, eq_iff b c))
                  (scan-CompleteScan rest from node queue visited))
          | inr v ↦
              rw (e, f, v, scan)
                (push_edge a b from node n rest queue visited _ f
                  (scan-CompleteScan rest from node (queue ++ b ∷ []) (b ∷ visited)))
        ]
      ]
    ]

-- The invariant of the outer loop after one node.
IsClosed-scan :
    (es : Edges) (from node : String) (queue visited queue' visited' : List String)
    → IsClosed es from (node ∷ queue) visited
    → Scanned es from node queue visited queue' visited'
    → IsClosed es from queue' visited'
IsClosed-scan es from node queue visited queue' visited' c s v b m e = elim (s.new_queued v m) [
  | inr q ↦ inl q
  | inl old ↦ elim (c v b old e) [
    | inr done ↦ inr (s.keeps_visited b done.0, done.1)
    | inl queued ↦ elim (Bool-cases (node == v)) [
      | inl same ↦ inr (s.covers b (subst (λ x. Edge es x b) (sym ((eq_iff node v).0 same)) e))
      | inr other ↦ inl (s.keeps_queue v (ground arith))
    ]
  ]
]

-- With an empty queue the visited nodes are closed, and a chain from one of them never ends in `from`.
closed_chain :
    (es : Edges) (from : String) (visited : List String) {v c : String}
    → IsClosed es from [] visited
    → mem visited v ≡ true
    → Waits es v c
    → c ≢ from
closed_chain es from visited {v} {c} k m (direct e) = elim (k v c m e) [
  | inl q ↦ absurd (cc)
  | inr r ↦ r.1
]
closed_chain es from visited {v} k m (through {b = b} e w) = elim (k v b m e) [
  | inl q ↦ absurd (cc)
  | inr r ↦ closed_chain es from visited k r.0 w
]

complete_next :
    (es : Edges) (to from node : String) (queue visited : List String) (r : Scan)
    → CompleteScan es from node queue visited r
    → IsClosed es from (node ∷ queue) visited
    → mem visited to ≡ true
    → (next : List String → List String → Option Bool)
    → ((queue visited : List String)
        → IsClosed es from queue visited
        → mem visited to ≡ true
        → next queue visited ≡ some false
        → ¬ Waits es to from)
    → (elim r [ found ↦ some true | scanned queue visited ↦ next queue visited ]) ≡ some false
    → ¬ Waits es to from
complete_next es to from node queue visited found c k m next ih h = absurd (cc)
complete_next es to from node queue visited (scanned q v) c k m next ih h =
    ih q v (IsClosed-scan es from node queue visited q v k c) (c.keeps_visited to m) h

pub search_complete :
    (fuel : ℕ) (es : Edges) (to from : String) (queue visited : List String)
    → IsClosed es from queue visited
    → mem visited to ≡ true
    → search fuel from es queue visited ≡ some false
    → ¬ Waits es to from
unfolding search
search_complete zero es to from queue visited k m h = absurd (cc)
search_complete (suc fuel) es to from [] visited k m h =
    λ w. closed_chain es from visited k m w refl
search_complete (suc fuel) es to from (node ∷ queue) visited k m h =
    complete_next es to from node queue visited (scan from node es queue visited)
      (scan-CompleteScan es from node queue visited) k m (search fuel from es)
      (search_complete fuel es to from) h
