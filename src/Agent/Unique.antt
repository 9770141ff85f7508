-- ===== src/Agent/Unique.antt =====
-- `[...new Set(texts)].sort(…)`, as src/agent/context-bundle.ts and result-boundary.ts use it.
use data_dyna.Base.{
  ◌≤◌, String, List, [], ◌∷◌, Bool, true, not, ◌==◌, ◌≡◌, ◌∙◌, refl, ap, string_eq, eq_iff, arith,
  any, select, count, if◌then◌else◌, ltb, beq_refl,
}
use data_dyna.Agent.{Sorting, includes, unique, unique_sorted, same_strings, agree_at}

any-count : (p : String → Bool) (ts : List String) → any p ts ≡ ltb 0 (count p ts)
any-count p [] = refl
any-count p (t ∷ ts) = ground (arith, any-count p ts)

count-select :
    (t s : String) (ts : List String)
    → count (λ u. u == t) (select (λ u. not (u == s)) ts)
      ≡ (if s == t then 0 else count (λ u. u == t) ts)
count-select t s [] = ground arith
count-select t s (u ∷ ts) = ground (arith, eq_iff u s, eq_iff u t, eq_iff s t, count-select t s ts)

count-unique :
    (t : String) (ts : List String)
    → count (λ u. u == t) (unique ts) ≡ (if includes ts t then 1 else 0)
unfolding unique
count-unique t [] = refl
count-unique t (u ∷ ts) = ground (arith, count-select t u (unique ts), count-unique t ts)

select_absent :
    (s : String) (ts : List String)
    → count (λ u. u == s) ts ≡ 0
    → select (λ u. not (u == s)) ts ≡ ts
select_absent s [] h = refl
select_absent s (u ∷ ts) h = ground (arith, select_absent s ts)

unique_of_counts : (ts : List String) → ((t : String) → count (λ u. u == t) ts ≤ 1) → unique ts ≡ ts
unfolding unique
unique_of_counts [] h = refl
unique_of_counts (t ∷ ts) h =
    let rest : unique ts ≡ ts = unique_of_counts ts (λ s. ground (arith, h s)) in
    let alone : count (λ u. u == t) ts ≡ 0 = ground (arith, h t, beq_refl t) in
    rw rest (ap (λ us. t ∷ us) (select_absent t ts alone))

module _ (sorting : Sorting) where
  count-unique_sorted :
      (t : String) (ts : List String)
      → count (λ u. u == t) (unique_sorted sorting ts) ≡ (if includes ts t then 1 else 0)
  unfolding unique_sorted
  count-unique_sorted t ts = sorting.count-sort t (unique ts) ∙ count-unique t ts

  pub includes-unique_sorted :
      (ts : List String) (t : String) → includes (unique_sorted sorting ts) t ≡ includes ts t
  includes-unique_sorted ts t =
      any-count (λ u. u == t) (unique_sorted sorting ts) ∙ ground (arith, count-unique_sorted t ts)

  pub unique_sorted-unique_sorted :
      (ts : List String)
      → unique_sorted sorting (unique_sorted sorting ts) ≡ unique_sorted sorting ts
  unfolding unique_sorted
  unique_sorted-unique_sorted ts =
      ap sorting.sort
        (unique_of_counts (sorting.sort (unique ts)) λ t. ground (arith, count-unique_sorted t ts))
      ∙ sorting.sort-sort (unique ts)

agree_at_self : (ts : List String) → agree_at ts ts ≡ true
agree_at_self [] = refl
agree_at_self (t ∷ ts) = ground (arith, beq_refl t, agree_at_self ts)

pub same_strings_self : (ts : List String) → same_strings ts ts ≡ true
unfolding same_strings
same_strings_self ts = ground (arith, agree_at_self ts)
