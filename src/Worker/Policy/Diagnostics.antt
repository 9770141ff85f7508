-- ===== src/Worker/Policy/Diagnostics.antt =====
-- What `sanitizeDiagnostic` of worker-failure-policy.ts lets through.
use data_dyna.Base.{
  ℕ, suc, zero, ◌+◌, ◌≤◌, String, true, false, ◌≡◌, refl, arith, Bool-cases, inl, inr, ltb,
}
use Prim.Native.String.{◌++◌ as string_append}
use data_dyna.Contract.{Json, Items, Fields}
use data_dyna.Worker.Policy.{
  Texts, truncate, safe_text, forbidden_diagnostic_key, sanitize_diagnostic, unless_deep,
  sanitize_items, sanitize_fields,
}

-- What `length` and `slice` do.
pub record TextsLaws (texts : Texts) : Type 0 where
  pub length-prefix : (n : ℕ) (s : String) → texts.length (texts.prefix n s) ≤ n
  pub length-append :
      (s t : String) → texts.length (string_append s t) ≡ texts.length s + texts.length t
  pub length-dots : texts.length "..." ≡ 3
  pub length-depth : texts.length "[redacted-depth]" ≡ 16

module _ (texts : Texts) where
  -- At a depth of at most 5 every text has at most 240 characters, an array at most ten entries, and
  -- what stands under a forbidden key is "[redacted]".
  mutual
    pub IsSafe : ℕ → Json → Type 0
    IsSafe depth Json.null = Unit
    IsSafe depth (Json.bool b) = Unit
    IsSafe depth (Json.num n) = Unit
    IsSafe depth (Json.str s) = (depth ≤ 5) × (texts.length s ≤ 240)
    IsSafe depth (Json.arr items) = (depth ≤ 4) × AreSafe 10 (suc depth) items
    IsSafe depth (Json.obj fields) = (depth ≤ 4) × IsRedacted (suc depth) fields

    pub AreSafe : ℕ → ℕ → Items → Type 0
    AreSafe left depth Items.nil = Unit
    AreSafe zero depth (Items.cons v rest) = ⊥
    AreSafe (suc left) depth (Items.cons v rest) = IsSafe depth v × AreSafe left depth rest

    pub IsRedacted : ℕ → Fields → Type 0
    IsRedacted depth Fields.end = Unit
    IsRedacted depth (Fields.field key v rest) =
        (forbidden_diagnostic_key texts key ≡ true → v ≡ Json.str "[redacted]")
        × (forbidden_diagnostic_key texts key ≡ false → IsSafe depth v)
        × IsRedacted depth rest

module _ (texts : Texts) (laws : TextsLaws texts) where
  truncate_bounded : (s : String) → texts.length (truncate texts s) ≤ 240
  unfolding truncate
  truncate_bounded s = elim (Bool-cases (ltb 240 (texts.length s))) [
    | inl long ↦
        let at_most_237 = laws.length-prefix 237 s in
        let total = laws.length-append (texts.prefix 237 s) "..." in
        rw long (omega (arith, at_most_237, total, laws.length-dots))
    | inr short ↦ rw short (ground arith)
  ]

  -- A text of a diagnostic has at most 240 characters, whatever it was.
  pub safe_text_bounded : (s : String) → texts.length (safe_text texts s) ≤ 240
  unfolding safe_text
  safe_text_bounded s = truncate_bounded _

  unless_deep-IsSafe :
      (v : Json) (depth : ℕ)
      → depth ≤ 5
      → (depth ≤ 4 → IsSafe texts depth v)
      → IsSafe texts depth (unless_deep texts depth v)
  unfolding IsSafe
  unless_deep-IsSafe v depth h near_safe = elim (Bool-cases (ltb 4 depth)) [
    | inl deep ↦ rw (deep, laws.length-depth) (h, omega arith)
    | inr near ↦ rw near (near_safe (ground arith))
  ]

  mutual
    unfolding sanitize_diagnostic sanitize_items sanitize_fields IsSafe

    sanitize_diagnostic-IsSafe_below :
        (v : Json) (depth : ℕ) → depth ≤ 5 → IsSafe texts depth (sanitize_diagnostic texts v depth)
    sanitize_diagnostic-IsSafe_below Json.null depth h =
        unless_deep-IsSafe Json.null depth h (λ _. tt)
    sanitize_diagnostic-IsSafe_below (Json.bool b) depth h =
        unless_deep-IsSafe (Json.bool b) depth h (λ _. tt)
    sanitize_diagnostic-IsSafe_below (Json.num n) depth h =
        unless_deep-IsSafe (Json.num n) depth h (λ _. tt)
    sanitize_diagnostic-IsSafe_below (Json.str s) depth h =
        unless_deep-IsSafe (Json.str (safe_text texts s)) depth h (λ _. (h, safe_text_bounded s))
    sanitize_diagnostic-IsSafe_below (Json.arr items) depth h =
        unless_deep-IsSafe _ depth h
          (λ n. (n, sanitize_items_safe 10 items (suc depth) (omega arith)))
    sanitize_diagnostic-IsSafe_below (Json.obj fields) depth h =
        unless_deep-IsSafe _ depth h
          (λ n. (n, sanitize_fields_safe fields (suc depth) (omega arith)))

    sanitize_items_safe :
        (left : ℕ) (items : Items) (depth : ℕ)
        → depth ≤ 5
        → AreSafe texts left depth (sanitize_items texts left items depth)
    sanitize_items_safe zero items depth h = tt
    sanitize_items_safe (suc left) Items.nil depth h = tt
    sanitize_items_safe (suc left) (Items.cons v rest) depth h =
        (sanitize_diagnostic-IsSafe_below v depth h, sanitize_items_safe left rest depth h)

    sanitize_fields_safe :
        (fields : Fields) (depth : ℕ)
        → depth ≤ 5
        → IsRedacted texts depth (sanitize_fields texts fields depth)
    sanitize_fields_safe Fields.end depth h = tt
    sanitize_fields_safe (Fields.field key v rest) depth h = (
      (λ forbidden. rw forbidden refl),
      (λ allowed. rw allowed (sanitize_diagnostic-IsSafe_below v depth h)),
      sanitize_fields_safe rest depth h,
    )

  -- Whatever object a thrown error carries, what the policy stores of it is at most five levels
  -- deep, with arrays of at most ten entries, texts of at most 240 characters, and "[redacted]"
  -- under every forbidden key, for texts whose length and slices behave as documented.
  pub sanitize_diagnostic-IsSafe :
      (fields : Fields) → IsSafe texts 0 (sanitize_diagnostic texts (Json.obj fields) 0)
  sanitize_diagnostic-IsSafe fields =
      sanitize_diagnostic-IsSafe_below (Json.obj fields) 0 (omega arith)
