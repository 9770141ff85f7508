-- ===== src/Base/Maps.antt =====
-- A JavaScript `Map` as an association list in insertion order: `set` on a present key keeps its
-- place, and a new key goes to the end.
use Prim.Native.Nat.{◌+◌}
use mathlib.Core.Path.{◌≡◌, refl, ap}
use mathlib.Core.Logic.{◌≢◌, inl, inr}
use mathlib.Core.Option.{Option, none, some}
use mathlib.Core.List.{List, [], ◌∷◌}
use native.Mathlib.Omega.{arith}
use data_dyna.Base.Tests.{if◌then◌else◌, Bool-cases}
use data_dyna.Base.Equality.{Eq, ◌==◌, beq_refl}
use data_dyna.Base.Lists.{length}

abbrev pub Assoc {ℓ κ} : Type ℓ → Type κ → Type (ℓ ⊔ κ)
Assoc K V = List (K × V)

module _ {ℓ κ} {K : Type ℓ} {V : Type κ} ⦃e : Eq K⦄ where
  unfoldable pub lookup : K → Assoc K V → Option V
  lookup key [] = none
  lookup key ((place, held) ∷ rest) = if place == key then some held else lookup key rest

  unfoldable pub insert : K → V → Assoc K V → Assoc K V
  insert key value [] = (key, value) ∷ []
  insert key value ((place, held) ∷ rest) =
      if place == key then (place, value) ∷ rest else (place, held) ∷ insert key value rest

  pub lookup-insert :
      (set asked : K) (v : V) (m : Assoc K V)
      → lookup asked (insert set v m) ≡ (if set == asked then some v else lookup asked m)
  unfolding lookup insert
  lookup-insert set asked v [] = refl
  lookup-insert set asked v ((place, w) ∷ rest) = ground (
    arith,
    e.beq_iff set asked,
    e.beq_iff place set,
    e.beq_iff place asked,
    lookup-insert set asked v rest,
  )

  pub lookup-insert_self : (k : K) (v : V) (m : Assoc K V) → lookup k (insert k v m) ≡ some v
  lookup-insert_self k v m = rw (lookup-insert, beq_refl k)

  pub lookup-insert_ne :
      (k j : K) (v : V) (m : Assoc K V) → k ≢ j → lookup j (insert k v m) ≡ lookup j m
  lookup-insert_ne k j v m h = ground (arith, lookup-insert k j v m, e.beq_iff k j)

  -- A key that is new makes the map one entry longer.
  pub length-insert_new :
      (k : K) (v : V) (m : Assoc K V) → lookup k m ≡ none → length (insert k v m) ≡ length m + 1
  unfolding lookup insert
  length-insert_new k v [] h = omega arith
  length-insert_new k v ((j, w) ∷ m) h = elim (Bool-cases (j == k)) [
    | inl hit ↦ ground arith
    | inr miss ↦ rw miss (omega (arith, length-insert_new k v m (rw miss at h)))
  ]

-- What the first map finds is found by the second map under the other key of the value.
module _ {ℓ κ ι} {K : Type ℓ} {I : Type κ} {V : Type ι} ⦃e : Eq K⦄ ⦃d : Eq I⦄ (f : V → K)
    (g : V → I) where
  abbrev pub Indexed : Assoc K V → Assoc I V → Type (ℓ ⊔ ι)
  Indexed m n = (k : K) (v : V) → lookup k m ≡ some v → (f v ≡ k) × (lookup (g v) n ≡ some v)

  lookup-insert_kept :
      (n : Assoc I V) (u v : V)
      → lookup (g u) n ≡ none
      → lookup (g v) n ≡ some v
      → lookup (g v) (insert (g u) u n) ≡ some v
  lookup-insert_kept n u v new h = elim (Bool-cases (g u == g v)) [
    | inl same ↦ absurd (cc (ap (λ j. lookup j n) ((d.beq_iff (g u) (g v)).0 same)))
    | inr other ↦ rw (lookup-insert, other) h
  ]

  pub Indexed-insert :
      (m : Assoc K V) (n : Assoc I V) (k : K) (u : V)
      → f u ≡ k
      → lookup (g u) n ≡ none
      → Indexed m n
      → Indexed (insert k u m) (insert (g u) u n)
  Indexed-insert m n k u own new h j v found = elim (Bool-cases (k == j)) [
    | inl hit ↦
        let e1 : some u ≡ some v = rw (lookup-insert, hit) at found in
        let e2 : u ≡ v = cc in
        (cc ((e.beq_iff k j).0 hit), rw (← e2) (lookup-insert_self (g u) u n))
    | inr miss ↦
        let (p, q) = h j v (rw (lookup-insert, miss) at found) in
        (p, lookup-insert_kept n u v new q)
  ]
