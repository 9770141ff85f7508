-- ===== src/Base/Table.antt =====
-- Tables as lists of rows: what an update in place keeps, and rows with distinct keys.
use Prim.Native.Nat.{◌+◌}
use mathlib.Core.Path.{◌≡◌, refl, sym, ap, ◌∙◌, subst}
use mathlib.Core.Logic.{inl, inr}
use mathlib.Core.Bool.{Bool, true, false, ◌&&◌, ◌||◌}
use mathlib.Core.Option.{none, some}
use mathlib.Core.List.{List, [], ◌∷◌, ◌++◌}
use native.Mathlib.Omega.{arith}
use data_dyna.Base.Tests.{if◌then◌else◌, Bool-cases}
use data_dyna.Base.Equality.{Eq, ◌==◌, beq_refl, or_else}
use data_dyna.Base.Lists.{any, find?, update_where, count, All}

module _ {ℓ} {A : Type ℓ} (p q : A → Bool) (f : A → A) (same : (x : A) → p (f x) ≡ p x) where
  pub any-update_where : (xs : List A) → any p (update_where q f xs) ≡ any p xs
  any-update_where [] = refl
  any-update_where (x ∷ xs) = ground (arith, same x, any-update_where xs)

  pub count-update_where : (xs : List A) → count p (update_where q f xs) ≡ count p xs
  count-update_where [] = refl
  count-update_where (x ∷ xs) = ground (arith, same x, count-update_where xs)

pub find?_and {ℓ} :
    {A : Type ℓ} (p r : A → Bool) (xs : List A) (x : A)
    → find? p xs ≡ some x
    → r x ≡ true
    → find? (λ y. p y && r y) xs ≡ some x
find?_and p r [] x h k = cc
find?_and p r (y ∷ ys) x h k = elim (Bool-cases (p y)) [
  | inl hit ↦
      let here : y ≡ x = cc (rw hit at h) in
      let passes : r y ≡ true = subst (λ z. r z ≡ true) (sym here) k in
      rw (hit, passes) (ap some here)
  | inr miss ↦ rw miss (find?_and p r ys x (rw miss at h) k)
]

module _ {ℓ} {A : Type ℓ} (p : A → Bool) where
  pub any-append : (xs ys : List A) → any p (xs ++ ys) ≡ any p xs || any p ys
  any-append [] ys = refl
  any-append (x ∷ xs) ys = ground (arith, any-append xs ys)

  pub count-append : (xs ys : List A) → count p (xs ++ ys) ≡ count p xs + count p ys
  count-append [] ys = omega arith
  count-append (x ∷ xs) ys = omega (arith, count-append xs ys)

  pub find?_holds : (xs : List A) (x : A) → find? p xs ≡ some x → p x ≡ true
  find?_holds [] x h = cc
  find?_holds (y ∷ ys) x h = ground (arith, find?_holds ys x)

  pub count_none : (xs : List A) → any p xs ≡ false → count p xs ≡ 0
  count_none [] h = refl
  count_none (x ∷ xs) h = ground (arith, count_none xs)

  pub update_where_none : (f : A → A) (xs : List A) → any p xs ≡ false → update_where p f xs ≡ xs
  update_where_none f [] h = refl
  update_where_none f (x ∷ xs) h = ground (arith, update_where_none f xs)

module _ {ℓ} {A : Type ℓ} where
  pub find?-cong :
      (p q : A → Bool) (xs : List A) → All (λ x. p x ≡ q x) xs → find? p xs ≡ find? q xs
  find?-cong p q [] h = refl
  find?-cong p q (x ∷ xs) h = ground (arith, h.0, find?-cong p q xs h.1)

  pub any_of_find?-none : (p : A → Bool) (xs : List A) → find? p xs ≡ none → any p xs ≡ false
  any_of_find?-none p [] h = refl
  any_of_find?-none p (x ∷ xs) h = ground (arith, any_of_find?-none p xs)

  pub any_of_find?-some :
      (p : A → Bool) (xs : List A) (x : A) → find? p xs ≡ some x → any p xs ≡ true
  any_of_find?-some p [] x h = cc
  any_of_find?-some p (y ∷ ys) x h = ground (arith, any_of_find?-some p ys x)

  pub find?-append_one :
      (p : A → Bool) (xs : List A) (x : A)
      → find? p (xs ++ x ∷ []) ≡ or_else (find? p xs) (if p x then some x else none)
  find?-append_one p [] x = refl
  find?-append_one p (y ∷ ys) x = ground (arith, find?-append_one p ys x)

module _ {ℓ κ ι} {A : Type ℓ} {P : A → Type κ} {Q : A → Type ι} where
  pub All-mono : (xs : List A) → ((x : A) → P x → Q x) → All P xs → All Q xs
  All-mono [] to h = tt
  All-mono (x ∷ xs) to h = (to x h.0, All-mono xs to h.1)

module _ {ℓ κ ι} {A : Type ℓ} (P : A → Type κ) (Q : A → Type ι) where
  pub All-zip : (xs : List A) → All P xs → All Q xs → All (λ x. P x × Q x) xs
  All-zip [] h k = tt
  All-zip (x ∷ xs) h k = ((h.0, k.0), All-zip xs h.1 k.1)

module _ {ℓ κ} {A : Type ℓ} (P : A → Type κ) (p : A → Bool) where
  pub All-find? : (xs : List A) (x : A) → All P xs → find? p xs ≡ some x → P x
  All-find? [] x h e = cc
  All-find? (y ∷ ys) x h e = elim (Bool-cases (p y)) [
    | inl hit ↦
        let same : some y ≡ some x = rw hit at e in let here : y ≡ x = cc in subst P here h.0
    | inr miss ↦ All-find? ys x h.1 (rw miss at e)
  ]

module _ {ℓ} {A : Type ℓ} (p : A → Bool) where
  pub find?-append_new :
      (xs : List A) (x : A) → any p xs ≡ false → p x ≡ true → find? p (xs ++ x ∷ []) ≡ some x
  find?-append_new [] x h e = rw e
  find?-append_new (y ∷ ys) x h e = ground (arith, find?-append_new ys x)

module _ {ℓ} {A : Type ℓ} (p q : A → Bool) (f : A → A) where
  -- An update elsewhere is not seen.
  pub find?-update_where_miss :
      (xs : List A)
      → ((x : A) → q x ≡ true → (p x ≡ false) × (p (f x) ≡ false))
      → find? p (update_where q f xs) ≡ find? p xs
  find?-update_where_miss [] apart = refl
  find?-update_where_miss (x ∷ xs) apart = ground (arith, apart x, find?-update_where_miss xs apart)

  -- An update of the row that is found is seen.
  pub find?-update_where_hit :
      (xs : List A) (x : A)
      → ((y : A) → p (f y) ≡ p y)
      → ((y : A) → p y ≡ true → q y ≡ true)
      → find? p xs ≡ some x
      → find? p (update_where q f xs) ≡ some (f x)
  find?-update_where_hit [] x same within h = cc
  find?-update_where_hit (y ∷ ys) x same within h = elim (Bool-cases (p y)) [
    | inl hit ↦
        let e : some y ≡ some x = rw hit at h in
        let here : y ≡ x = cc in rw (within y hit, same y, hit) (ap (λ z. some (f z)) here)
    | inr miss ↦
        let rest = find?-update_where_hit ys x same within (rw miss at h) in
        ground (arith, same y, rest)
  ]

-- No two rows have one key.
module _ {ℓ κ} {A : Type ℓ} {K : Type κ} ⦃e : Eq K⦄ (key : A → K) where
  abbrev pub has_key : K → A → Bool
  has_key k x = key x == k

  abbrev pub Distinct : List A → Type 0
  Distinct [] = Unit
  Distinct (x ∷ xs) = (any (has_key (key x)) xs ≡ false) × Distinct xs

  key_of_if :
      (b : Bool) (f : A → A) (x : A) → key (f x) ≡ key x → key (if b then f x else x) ≡ key x
  key_of_if true f x same = same
  key_of_if false f x same = refl

  pub Distinct-update_where :
      (q : A → Bool) (f : A → A) (xs : List A)
      → ((x : A) → key (f x) ≡ key x)
      → Distinct xs
      → Distinct (update_where q f xs)
  Distinct-update_where q f [] same d = tt
  Distinct-update_where q f (x ∷ xs) same d = (
    ap (λ k. any (has_key k) (update_where q f xs)) (key_of_if (q x) f x (same x))
        ∙ any-update_where (has_key (key x)) q f (λ y. ap (λ k. k == key x) (same y)) xs
        ∙ d.0,
    Distinct-update_where q f xs same d.1,
  )

  beq_comm : (j k : K) → (j == k) ≡ (k == j)
  beq_comm j k = ground (arith, e.beq_iff j k, e.beq_iff k j)

  pub Distinct-append :
      (xs : List A) (x : A)
      → any (has_key (key x)) xs ≡ false
      → Distinct xs
      → Distinct (xs ++ x ∷ [])
  Distinct-append [] x new d = (refl, tt)
  Distinct-append (y ∷ ys) x new d = (
    any-append (has_key (key y)) ys (x ∷ []) ∙ ground (arith, d.0, new, beq_comm (key x) (key y)),
    Distinct-append ys x (ground (arith, new)) d.1,
  )

  pub any_of_find? :
      (p : A → Bool) (xs : List A) (x : A) → find? p xs ≡ some x → any (has_key (key x)) xs ≡ true
  any_of_find? p [] x h = cc
  any_of_find? p (y ∷ ys) x h = elim (Bool-cases (p y)) [
    | inl hit ↦
        let same : some y ≡ some x = rw hit at h in
        let here : y ≡ x = cc in rw here (ground (arith, beq_refl (key x)))
    | inr miss ↦ ground (arith, any_of_find? p ys x (rw miss at h))
  ]

  pub key_ne :
      (y : A) (ys : List A) (x : A)
      → any (has_key (key y)) ys ≡ false
      → any (has_key (key x)) ys ≡ true
      → (key y == key x) ≡ false
  key_ne y ys x without with' = elim (Bool-cases (key y == key x)) [
    | inl same ↦
        let k : key y ≡ key x = (e.beq_iff (key y) (key x)).0 same in
        absurd (cc (subst (λ j. any (has_key j) ys ≡ false) k without))
    | inr other ↦ other
  ]

  -- The rows with the key of a row that was found are that row alone.
  pub All-update_found {ι} :
      (P : A → Type ι) (p : A → Bool) (f : A → A) (xs : List A) (x : A)
      → Distinct xs
      → find? p xs ≡ some x
      → All P xs
      → P (f x)
      → All P (update_where (has_key (key x)) f xs)
  All-update_found P p f [] x d found h new = tt
  All-update_found P p f (y ∷ ys) x d found h new = elim (Bool-cases (p y)) [
    | inl hit ↦
        let same : some y ≡ some x = rw hit at found in
        let here : y ≡ x = cc in
        subst (λ z. All P (update_where (has_key (key z)) f (y ∷ ys))) here
          (rw (beq_refl (key y), update_where_none (has_key (key y)) f ys d.0)
            (subst (λ z. P (f z)) (sym here) new, h.1))
    | inr miss ↦
        let rest = rw miss at found in
        let other : (key y == key x) ≡ false = key_ne y ys x d.0 (any_of_find? p ys x rest) in
        rw other (h.0, All-update_found P p f ys x d.1 rest h.1 new)
  ]
