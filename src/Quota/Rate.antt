-- ===== src/Quota/Rate.antt =====
-- The per-sender rate limit of quota.rs over a whole history of requests of many senders.
use mathlib.Core.List.{append-nil, append_assoc}
use mcp_crewd_rs.Base.{
  ℕ, ◌≤◌, ◌≡◌, refl, ap, ◌∙◌, String, Bool, true, false, ◌&&◌, List, [], ◌∷◌, ◌++◌, length,
  replicate, count, ◌==◌, eq_iff, eq_refl, if◌then◌else◌, arith, length-append, length-replicate,
  Bool-cases, inl, inr,
}
use mcp_crewd_rs.Error.{Result, ok, err}
use mcp_crewd_rs.Quota.{
  QuotaTracker, QuotaConfig, new, prune, window_of, put, note_and_check_sender,
}
use mcp_crewd_rs.Quota.Window.{
  Ascending, UpTo, is_recent, length-prune, prune-prune, prune-append_now, count-recent,
  Ascending-append, UpTo-mono, UpTo-append_now, window_of-put,
}

pub record Request : Type 0 where
  pub from : String
  pub at : ℕ
  pub units : ℕ

abbrev step : QuotaTracker → Request → Result (Unit {0}) × QuotaTracker
step t r = note_and_check_sender t r.from r.at r.units

abbrev is_ok : Result (Unit {0}) → Bool
is_ok (ok _) = true
is_ok (err _) = false

-- The stamps that one request adds for the sender `s`: one for each unit, if it is accepted.
taken : String → QuotaTracker → Request → List ℕ
taken s t r = if (r.from == s) && is_ok (step t r).0 then replicate r.units r.at else []

-- The stamps of all the units that `s` was granted over a history.
pub granted : String → QuotaTracker → List Request → List ℕ
granted s t [] = []
granted s t (r ∷ rs) = taken s t r ++ granted s (step t r).1 rs

-- The clock does not run backwards.
abbrev pub Ordered : ℕ → List Request → Type 0
Ordered last [] = Unit
Ordered last (r ∷ rs) = (last ≤ r.at) × Ordered r.at rs

abbrev pub end_time : ℕ → List Request → ℕ
end_time last [] = last
end_time last (r ∷ rs) = end_time r.at rs

-- The window of `s` is what an earlier pruning left of the stamps granted so far.
record Tracks (s : String) (t : QuotaTracker) (last : ℕ) (past : List ℕ) : Type 0 where
  cut : ℕ
  cut_le : cut ≤ last
  window : window_of ◌==◌ t.per_sender s ≡ prune cut past
  room : length (window_of ◌==◌ t.per_sender s) ≤ t.config.sender_per_min
  ascending : Ascending 0 past
  up_to : UpTo last past

text_eq : (s t : String) → (s == t) ≡ true → s ≡ t
text_eq s t = (eq_iff s t).0

window-put :
    (m : List (String × List ℕ)) (k j : String) (w : List ℕ)
    → window_of ◌==◌ (put ◌==◌ m k w) j ≡ (if k == j then w else window_of ◌==◌ m j)
window-put = window_of-put ◌==◌ text_eq eq_refl

-- What a request does to the window of `s`: the sender's own is pruned and takes the new stamps.
window-step :
    (s : String) (t : QuotaTracker) (r : Request)
    → let w = window_of ◌==◌ t.per_sender s in
      window_of ◌==◌ (step t r).1.per_sender s
      ≡ (if r.from == s then prune r.at w else w) ++ taken s t r
unfolding taken note_and_check_sender
window-step s t r =
    let w = prune r.at (window_of ◌==◌ t.per_sender r.from) in
    ground (
      arith,
      eq_iff r.from s,
      append-nil (window_of ◌==◌ t.per_sender s),
      append-nil (prune r.at (window_of ◌==◌ t.per_sender s)),
      window-put t.per_sender r.from s w,
      window-put t.per_sender r.from s (w ++ replicate r.units r.at),
    )

room-step :
    (s : String) (t : QuotaTracker) (r : Request)
    → length (window_of ◌==◌ t.per_sender s) ≤ t.config.sender_per_min
    → length (window_of ◌==◌ (step t r).1.per_sender s) ≤ (step t r).1.config.sender_per_min
unfolding note_and_check_sender
room-step s t r h =
    let old = window_of ◌==◌ t.per_sender r.from in
    let w = prune r.at old in
    ground (
      arith,
      eq_iff r.from s,
      length-prune r.at old,
      length-append w (replicate r.units r.at),
      length-replicate r.units r.at,
      window-put t.per_sender r.from s w,
      window-put t.per_sender r.from s (w ++ replicate r.units r.at),
    )

-- `taken` is so many copies of the time of the request.
taken-replicate :
    (s : String) (t : QuotaTracker) (r : Request) → (n : ℕ) × (taken s t r ≡ replicate n r.at)
unfolding taken
taken-replicate s t r = elim (Bool-cases ((r.from == s) && is_ok (step t r).0)) [
  | inl e ↦ (r.units, rw e)
  | inr e ↦ (0, rw e)
]

other_taken :
    (s : String) (t : QuotaTracker) (r : Request) → (r.from == s) ≡ false → taken s t r ≡ []
unfolding taken
other_taken s t r e = rw e

module _ (s : String) (t : QuotaTracker) (r : Request) (last : ℕ) (past : List ℕ)
    (v : Tracks s t last past) (later : last ≤ r.at) where
  Ascending-step : Ascending 0 (past ++ taken s t r)
  Ascending-step =
      let (n, e) = taken-replicate s t r in
      rw e (
        Ascending-append 0 r.at n past v.ascending (UpTo-mono last r.at past later v.up_to)
          (omega arith))

  UpTo-step : UpTo r.at (past ++ taken s t r)
  UpTo-step =
      let (n, e) = taken-replicate s t r in
      rw e (UpTo-append_now r.at n past (UpTo-mono last r.at past later v.up_to))

  own_window :
      prune r.at (window_of ◌==◌ t.per_sender s) ++ taken s t r ≡ prune r.at (past ++ taken s t r)
  own_window =
      let (n, e) = taken-replicate s t r in
      cc (
        e,
        v.window,
        prune-prune v.cut r.at past (omega (arith, v.cut_le)),
        prune-append_now r.at n past,
      )

  Tracks-step : Tracks s (step t r).1 r.at (past ++ taken s t r)
  Tracks-step = elim (Bool-cases (r.from == s)) [
    | inl e ↦ record {
      cut = r.at;
      cut_le = omega arith;
      window = window-step s t r ∙ rw e own_window;
      room = room-step s t r v.room;
      ascending = Ascending-step;
      up_to = UpTo-step;
    }
    | inr e ↦ record {
      cut = v.cut;
      cut_le = omega (arith, v.cut_le);
      window = window-step s t r ∙ rw (e, other_taken s t r e, append-nil, append-nil) v.window;
      room = room-step s t r v.room;
      ascending = Ascending-step;
      up_to = UpTo-step;
    }
  ]

step-config : (t : QuotaTracker) (r : Request) → (step t r).1.config ≡ t.config
unfolding note_and_check_sender
step-config t r = ground arith

count-granted :
    (s : String) (t : QuotaTracker) (rs : List Request) (last : ℕ) (past : List ℕ)
    → Tracks s t last past
    → Ordered last rs
    → count (is_recent (end_time last rs)) (past ++ granted s t rs) ≤ t.config.sender_per_min
unfolding granted
count-granted s t [] last past v o =
    rw (append-nil, count-recent last 0 past v.ascending)
      (omega (
        arith,
        v.room,
        ap length (prune-prune v.cut last past v.cut_le),
        ap length v.window,
        length-prune last (prune v.cut past),
      ))
count-granted s t (r ∷ rs) last past v o =
    rw (← append_assoc past (taken s t r) (granted s (step t r).1 rs)) (
      omega (
        arith,
        count-granted s (step t r).1 rs r.at (past ++ taken s t r)
            (Tracks-step s t r last past v o.0) o.1,
        ap (λ (c : QuotaConfig). c.sender_per_min) (step-config t r),
      ))

Tracks-new : (s : String) (config : QuotaConfig) → Tracks s (new config) 0 []
unfolding window_of prune
Tracks-new s config = record {
  cut = 0;
  cut_le = omega arith;
  window = refl;
  room = omega arith;
  ascending = tt;
  up_to = tt;
}

-- Whatever the senders ask for, while the clock does not run backwards: of the units that a sender
-- was granted, at most `sender_per_min` lie in the minute up to the last request.
pub sender_rate_bound :
    (config : QuotaConfig) (rs : List Request) (s : String)
    → Ordered 0 rs
    → count (is_recent (end_time 0 rs)) (granted s (new config) rs) ≤ config.sender_per_min
sender_rate_bound config rs s o = count-granted s (new config) rs 0 [] (Tracks-new s config) o
