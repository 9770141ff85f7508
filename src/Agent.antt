-- ===== src/Agent.antt =====
-- src/agent: what an agent is given, what it drafts, and how a draft becomes a request for review.
-- The numbers of JavaScript and `sort` by `localeCompare` are parameters. A schema of zod is a test
-- on an object that has the schema's fields, with literals that have one value left out.
mod Tests
mod SidecarTests
mod PreparedTests
pub mod Unique
pub mod Context
pub mod Plan
pub mod Run
pub mod Sidecar
pub mod Validator
pub mod Prepared
pub mod Boundary
use data_dyna.Base.{
  ℕ, ◌+◌, String, List, [], ◌∷◌, ◌++◌, Bool, true, false, not, ◌&&◌, ◌==◌, string_eq, all, any,
  select, count, ◌≡◌, if◌then◌else◌, nat_beq, length, All, and_true, and_intro, refl,
}

-- What the program uses of numbers: `<=`, and 0, 1, 0.65 and 0.8.
pub record Numbers (N : Type 0) : Type 0 where
  pub le : N → N → Bool
  pub nought : N
  pub one : N
  pub medium_confidence : N
  pub confidence_cap : N

-- The order of those numbers.
pub record IsOrdered {N : Type 0} (num : Numbers N) : Type 0 where
  pub cap_nonnegative : num.le num.nought num.confidence_cap ≡ true
  pub cap_le_one : num.le num.confidence_cap num.one ≡ true
  pub cap_positive : num.le num.confidence_cap num.nought ≡ false

-- `sort` by `localeCompare` rearranges a list, and leaves a sorted one as it is.
pub record Sorting : Type 0 where
  pub sort : List String → List String
  pub count-sort :
      (s : String) (texts : List String)
      → count (λ t. t == s) (sort texts) ≡ count (λ t. t == s) texts
  pub sort-sort : (texts : List String) → sort (sort texts) ≡ sort texts

-- An object of zod: every field passes.
abbrev pub all_hold : List Bool → Bool
all_hold [] = true
all_hold (b ∷ bs) = b && all_hold bs

pub all_hold-All : (bs : List Bool) → all_hold bs ≡ true → All (λ b. b ≡ true) bs
all_hold-All [] h = tt
all_hold-All (b ∷ bs) h = let (p, q) = and_true b (all_hold bs) h in (p, all_hold-All bs q)

pub All-all_hold : (bs : List Bool) → All (λ b. b ≡ true) bs → all_hold bs ≡ true
All-all_hold [] h = refl
All-all_hold (b ∷ bs) h = and_intro b (all_hold bs) h.0 (All-all_hold bs h.1)

-- `z.string().min(1)`.
abbrev pub nonempty : String → Bool
nonempty s = not (s == "")

abbrev pub includes : List String → String → Bool
includes texts s = any (λ t. t == s) texts

-- `z.array(z.string().min(1)).min(1)`.
abbrev pub nonempty_texts : List String → Bool
nonempty_texts [] = false
nonempty_texts (t ∷ ts) = all nonempty (t ∷ ts)

-- `[...new Set(texts)]`.
unfoldable pub unique : List String → List String
unique [] = []
unique (t ∷ ts) = t ∷ select (λ u. not (u == t)) (unique ts)

unfoldable pub unique_sorted : Sorting → List String → List String
unique_sorted sorting texts = sorting.sort (unique texts)

abbrev pub agree_at : List String → List String → Bool
agree_at [] right = true
agree_at (l ∷ ls) [] = false
agree_at (l ∷ ls) (r ∷ rs) = l == r && agree_at ls rs

unfoldable pub same_strings : List String → List String → Bool
same_strings left right = nat_beq (length left) (length right) && agree_at left right

pub data MetricWindow : Type 0 where
  snapshot ninety_days : MetricWindow

abbrev pub snapshot_metric_ids : List String
snapshot_metric_ids =
    "repurchase_90d_rate" ∷ "avg_order_value" ∷ "refund_rate" ∷ "checkout_started_cart_rate" ∷ []

-- Numbers between 0 and 1.
abbrev pub is_share : {N : Type 0} → Numbers N → N → Bool
is_share num n = num.le num.nought n && num.le n num.one
