-- ===== src/Quota/Window.antt =====
-- Sliding windows of quota.rs: what `prune` keeps of an ascending list of stamps.
use mcp_crewd_rs.Base.{
  ℕ, zero, suc, ◌-◌, ◌≤◌, ◌<◌, ◌≡◌, refl, Bool, true, List, [], ◌∷◌, ◌++◌, length, replicate, count,
  ltb, if◌then◌else◌, All, arith,
}
use mcp_crewd_rs.Quota.{window_ms, prune, window_of, put}

-- The stamps ascend from `lo`.
abbrev pub Ascending : ℕ → List ℕ → Type 0
Ascending lo [] = Unit
Ascending lo (x ∷ xs) = (lo ≤ x) × Ascending x xs

abbrev pub UpTo : ℕ → List ℕ → Type 0
UpTo hi xs = All (λ x. x ≤ hi) xs

-- A stamp lies in the minute that ends at `now`.
abbrev pub is_recent : ℕ → ℕ → Bool
is_recent now stamp = ltb (now - stamp) window_ms

pub length-prune : (now : ℕ) (w : List ℕ) → length (prune now w) ≤ length w
unfolding prune
length-prune now [] = omega arith
length-prune now (x ∷ w) = ground (arith, length-prune now w)

-- Pruning later forgets that one has pruned before.
pub prune-prune : (k now : ℕ) (w : List ℕ) → k ≤ now → prune now (prune k w) ≡ prune now w
unfolding prune
prune-prune k now [] h = refl
prune-prune k now (x ∷ w) h = ground (arith, prune-prune k now w h)

prune-replicate : (now n : ℕ) → prune now (replicate n now) ≡ replicate n now
unfolding prune
prune-replicate now zero = refl
prune-replicate now (suc n) = ground arith

pub prune-append_now :
    (now n : ℕ) (w : List ℕ) → prune now (w ++ replicate n now) ≡ prune now w ++ replicate n now
unfolding prune
prune-append_now now n [] = prune-replicate now n
prune-append_now now n (x ∷ w) = ground (arith, prune-append_now now n w)

all_recent :
    (now lo : ℕ) (w : List ℕ)
    → now - lo < window_ms
    → Ascending lo w
    → count (is_recent now) w ≡ length w
all_recent now lo [] h a = refl
all_recent now lo (x ∷ w) h a = ground (arith, all_recent now x w (omega arith) a.1)

-- What is left after pruning are the recent stamps.
pub count-recent :
    (now lo : ℕ) (w : List ℕ) → Ascending lo w → count (is_recent now) w ≡ length (prune now w)
unfolding prune
count-recent now lo [] a = refl
count-recent now lo (x ∷ w) a = ground (arith, count-recent now x w a.1, all_recent now x w)

Ascending-replicate : (lo now n : ℕ) → lo ≤ now → Ascending lo (replicate n now)
Ascending-replicate lo now zero h = tt
Ascending-replicate lo now (suc n) h = (h, Ascending-replicate now now n (omega arith))

pub Ascending-append :
    (lo now n : ℕ) (w : List ℕ)
    → Ascending lo w
    → UpTo now w
    → lo ≤ now
    → Ascending lo (w ++ replicate n now)
Ascending-append lo now n [] a u h = Ascending-replicate lo now n h
Ascending-append lo now n (x ∷ w) a u h = (a.0, Ascending-append x now n w a.1 u.1 u.0)

pub UpTo-mono : (k now : ℕ) (w : List ℕ) → k ≤ now → UpTo k w → UpTo now w
UpTo-mono k now [] h u = tt
UpTo-mono k now (x ∷ w) h u = (omega arith, UpTo-mono k now w h u.1)

pub UpTo-append_now : (now n : ℕ) (w : List ℕ) → UpTo now w → UpTo now (w ++ replicate n now)
UpTo-append_now now zero [] u = tt
UpTo-append_now now (suc n) [] u = (omega arith, UpTo-append_now now n [] tt)
UpTo-append_now now n (x ∷ w) u = (u.0, UpTo-append_now now n w u.1)

-- The windows behave as a map, for a key test that decides equality.
module _ {ℓ} {K : Type ℓ} (same : K → K → Bool) (same-eq : (k j : K) → same k j ≡ true → k ≡ j)
    (same-refl : (k : K) → same k k ≡ true) where
  pub window_of-put :
      (m : List (K × List ℕ)) (k j : K) (w : List ℕ)
      → window_of same (put same m k w) j ≡ (if same k j then w else window_of same m j)
  unfolding window_of put
  window_of-put [] k j w = ground arith
  window_of-put ((i, v) ∷ m) k j w = ground (
    arith,
    window_of-put m k j w,
    same-eq i k,
    same-eq i j,
    same-eq k j,
    same-refl k,
    same-refl j,
  )
