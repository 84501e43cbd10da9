-- ===== src/Base/Table.antt =====
-- What the table statements do to one another.
use Prim.Native.Nat.{suc, ◌+◌, ◌≤◌}
use mathlib.Core.Path.{◌≡◌, refl, ap, subst}
use mathlib.Core.Bool.{Bool, true, false, ◌&&◌}
use mathlib.Core.Logic.{inl, inr}
use mathlib.Core.List.{List, [], ◌∷◌, ◌++◌}
use mathlib.Core.Option.{none, some}
use native.Mathlib.Omega.{arith}
use mcp_crewd_rs.Base.Tests.{if◌then◌else◌, is_some, Bool-cases}
use mcp_crewd_rs.Base.Lists.{length, count, select, find, update, any, All}

module _ {ℓ} {A : Type ℓ} where
  pub length-update : (p : A → Bool) (f : A → A) (xs : List A) → length (update p f xs) ≡ length xs
  length-update p f [] = refl
  length-update p f (x ∷ xs) = ap suc (length-update p f xs)

  pub count-append : (p : A → Bool) (xs ys : List A) → count p (xs ++ ys) ≡ count p xs + count p ys
  count-append p [] ys = omega arith
  count-append p (x ∷ xs) ys = ground (arith, count-append p xs ys)

  pub count-le-length : (p : A → Bool) (xs : List A) → count p xs ≤ length xs
  count-le-length p [] = omega arith
  count-le-length p (x ∷ xs) = ground (arith, count-le-length p xs)

  -- An update that makes no row count any more does not raise the count.
  pub count-update_le :
      (q p : A → Bool) (f : A → A) (xs : List A)
      → ((x : A) → p x ≡ true → q (f x) ≡ true → q x ≡ true)
      → count q (update p f xs) ≤ count q xs
  count-update_le q p f [] h = omega arith
  count-update_le q p f (x ∷ xs) h = ground (arith, count-update_le q p f xs h, h x)

  -- An update that keeps a test keeps the count.
  pub count-update :
      (q p : A → Bool) (f : A → A) (xs : List A)
      → ((x : A) → p x ≡ true → q (f x) ≡ q x)
      → count q (update p f xs) ≡ count q xs
  count-update q p f [] h = refl
  count-update q p f (x ∷ xs) h = ground (arith, count-update q p f xs h, h x)

  pub find-test : (p : A → Bool) (xs : List A) (a : A) → find p xs ≡ some a → p a ≡ true
  find-test p [] a h = ground arith
  find-test p (x ∷ xs) a h = ground (arith, find-test p xs a)

  -- A row that is not written is found as before.
  pub find-update_ne :
      (q p : A → Bool) (f : A → A) (xs : List A)
      → ((x : A) → p x ≡ true → q (f x) ≡ false)
      → ((x : A) → p x ≡ true → q x ≡ false)
      → find q (update p f xs) ≡ find q xs
  find-update_ne q p f [] h k = refl
  find-update_ne q p f (x ∷ xs) h k = ground (arith, find-update_ne q p f xs h k, h x, k x)

  -- An update of the rows with the key that is looked for, which keeps the key.
  pub find-update_eq :
      (p : A → Bool) (f : A → A) (xs : List A) (a : A)
      → ((x : A) → p x ≡ true → p (f x) ≡ true)
      → find p xs ≡ some a
      → find p (update p f xs) ≡ some (f a)
  find-update_eq p f [] a h e = ground arith
  find-update_eq p f (x ∷ xs) a h e = ground (arith, find-update_eq p f xs a h, h x)

  pub find-append_none :
      (p : A → Bool) (xs ys : List A) → find p xs ≡ none → find p (xs ++ ys) ≡ find p ys
  find-append_none p [] ys h = refl
  find-append_none p (x ∷ xs) ys h = ground (arith, find-append_none p xs ys)

  pub find-append_some :
      (p : A → Bool) (xs ys : List A) (a : A) → find p xs ≡ some a → find p (xs ++ ys) ≡ some a
  find-append_some p [] ys a h = ground arith
  find-append_some p (x ∷ xs) ys a h = ground (arith, find-append_some p xs ys a)

  pub find-append_other :
      (p : A → Bool) (xs : List A) (a : A) → p a ≡ false → find p (xs ++ a ∷ []) ≡ find p xs
  find-append_other p [] a h = ground arith
  find-append_other p (x ∷ xs) a h = ground (arith, find-append_other p xs a h)

  pub find-none-count : (p : A → Bool) (xs : List A) → find p xs ≡ none → count p xs ≡ 0
  find-none-count p [] h = refl
  find-none-count p (x ∷ xs) h = ground (arith, find-none-count p xs)

  pub count_zero-find : (p : A → Bool) (xs : List A) → count p xs ≡ 0 → find p xs ≡ none
  count_zero-find p [] h = refl
  count_zero-find p (x ∷ xs) h = ground (arith, count_zero-find p xs)

  pub All-update {κ} :
      (P : A → Type κ) (p : A → Bool) (f : A → A) (xs : List A)
      → ((x : A) → p x ≡ true → P x → P (f x))
      → All P xs
      → All P (update p f xs)
  All-update P p f [] h w = tt
  All-update P p f (x ∷ xs) h w = (ground (arith, h x, w.0), All-update P p f xs h w.1)

  pub All-append {κ} : (P : A → Type κ) (ys xs : List A) → All P ys → All P xs → All P (xs ++ ys)
  All-append P ys [] later w = later
  All-append P ys (x ∷ xs) later w = (w.0, All-append P ys xs later w.1)

  pub All-find {κ} :
      (P : A → Type κ) (p : A → Bool) (xs : List A) (a : A) → All P xs → find p xs ≡ some a → P a
  All-find P p [] a w h = absurd (cc)
  All-find P p (x ∷ xs) a w h = elim (Bool-cases (p x)) [
    | inl e ↦ subst P (found e) w.0
    | inr e ↦ All-find P p xs a w.1 (ground arith)
  ]
    where
      found : p x ≡ true → x ≡ a
      found e = ground arith

  pub any-none : (p q : A → Bool) (xs : List A) → count q xs ≡ 0 → any (λ x. p x && q x) xs ≡ false
  any-none p q [] h = refl
  any-none p q (x ∷ xs) h = ground (arith, any-none p q xs)

  pub any-only :
      (p q : A → Bool) (xs : List A) (a : A)
      → count q xs ≤ 1
      → find q xs ≡ some a
      → any (λ x. p x && q x) xs ≡ p a
  any-only p q [] a h k = ground arith
  any-only p q (x ∷ xs) a h k = elim (Bool-cases (q x)) [
    | inl e ↦
        let same : x ≡ a = ground (arith, e, k) in ground (arith, e, ap p same, any-none p q xs)
    | inr e ↦ ground (arith, e, any-only p q xs a)
  ]

  pub find-some-count : (p : A → Bool) (xs : List A) (a : A) → find p xs ≡ some a → 1 ≤ count p xs
  find-some-count p [] a h = ground arith
  find-some-count p (x ∷ xs) a h = ground (arith, find-some-count p xs a)

  pub any-find : (p : A → Bool) (xs : List A) → any p xs ≡ is_some (find p xs)
  any-find p [] = refl
  any-find p (x ∷ xs) = ground (arith, any-find p xs)

  -- An update that keeps the key that is looked for: the row found is the old one, written when the
  -- update's test holds of it.
  pub find-update :
      (q p : A → Bool) (f : A → A) (xs : List A) (a : A)
      → ((x : A) → q (f x) ≡ q x)
      → find q xs ≡ some a
      → find q (update p f xs) ≡ some (if p a then f a else a)
  find-update q p f [] a h e = ground arith
  find-update q p f (x ∷ xs) a h e = ground (arith, find-update q p f xs a h, h x)

  pub All-imp {κ μ} :
      (P : A → Type κ) (Q : A → Type μ) (xs : List A) → ((x : A) → P x → Q x) → All P xs → All Q xs
  All-imp P Q [] h w = tt
  All-imp P Q (x ∷ xs) h w = (h x w.0, All-imp P Q xs h w.1)

  pub All-select {κ} :
      (P : A → Type κ) (p : A → Bool) (xs : List A) → All P xs → All P (select p xs)
  All-select P p [] w = tt
  All-select P p (x ∷ xs) w = elim (Bool-cases (p x)) [
    | inl e ↦ rw e (w.0, All-select P p xs w.1)
    | inr e ↦ rw e (All-select P p xs w.1)
  ]
