-- ===== src/Agent/Sidecar/Results.antt =====
-- What the tool boundary of src/agent/agent-sidecar.ts hands over.
use data_dyna.Base.{
  List, [], ◌∷◌, ◌++◌, map, ap, ◌∙◌, String, false, ◌≡◌, refl, subst, inl, inr, Bool-cases, Outcome,
  ok, thrown, ltb,
}
use data_dyna.Contract.{Json, Items, Fields, null, bool, num, str, arr, obj, nil, cons, end, field}
use data_dyna.Agent.Sidecar.{
  redact_text, AgentReadOnlyToolName, PreparedAgentAttempt, AgentRuntimePolicy, World, Audit, Act,
  continue_with, ◌>>=◌, ◌>>◌, give, throw,
}
use data_dyna.Agent.Sidecar.Tools.{
  takes_input, call_prepared_tool, may_call, deny_tool, hand_over, guarded_tool_call,
  sanitize_json_value, sanitize_values, sanitize_entries,
}

-- The texts of a value in their order, less the keys of its objects.
unfoldable mutual
  pub texts_of : Json → List String
  texts_of null = []
  texts_of (bool b) = []
  texts_of (num n) = []
  texts_of (str s) = s ∷ []
  texts_of (arr items) = item_texts items
  texts_of (obj fields) = field_texts fields

  item_texts : Items → List String
  item_texts nil = []
  item_texts (cons value items) = texts_of value ++ item_texts items

  field_texts : Fields → List String
  field_texts end = []
  field_texts (field key value fields) = texts_of value ++ field_texts fields

-- The keys of a value's objects in their order.
unfoldable mutual
  pub keys_of : Json → List String
  keys_of null = []
  keys_of (bool b) = []
  keys_of (num n) = []
  keys_of (str s) = []
  keys_of (arr items) = item_keys items
  keys_of (obj fields) = field_keys fields

  item_keys : Items → List String
  item_keys nil = []
  item_keys (cons value items) = keys_of value ++ item_keys items

  field_keys : Fields → List String
  field_keys end = []
  field_keys (field key value fields) = key ∷ keys_of value ++ field_keys fields

map_both :
    (f : String → String) (xs ys us vs : List String)
    → us ≡ map f xs
    → vs ≡ map f ys
    → us ++ vs ≡ map f (xs ++ ys)
map_both f [] ys us vs h k = rw (h, k) refl
map_both f (x ∷ xs) ys us vs h k = rw h (ap (λ ts. f x ∷ ts) (map_both f xs ys _ vs refl k))

module _ (redact : String → String) where
  mutual
    unfolding sanitize_json_value texts_of

    texts_of-sanitize :
        (v : Json) → texts_of (sanitize_json_value redact v) ≡ map redact (texts_of v)
    texts_of-sanitize null = refl
    texts_of-sanitize (bool b) = refl
    texts_of-sanitize (num n) = refl
    texts_of-sanitize (str s) = refl
    texts_of-sanitize (arr items) = item_texts-sanitize items
    texts_of-sanitize (obj fields) = field_texts-sanitize fields

    item_texts-sanitize :
        (items : Items) → item_texts (sanitize_values redact items) ≡ map redact (item_texts items)
    item_texts-sanitize nil = refl
    item_texts-sanitize (cons v items) =
        map_both redact (texts_of v) (item_texts items) _ _ (texts_of-sanitize v)
          (item_texts-sanitize items)

    field_texts-sanitize :
        (fields : Fields)
        → field_texts (sanitize_entries redact fields) ≡ map redact (field_texts fields)
    field_texts-sanitize end = refl
    field_texts-sanitize (field key v fields) =
        map_both redact (texts_of v) (field_texts fields) _ _ (texts_of-sanitize v)
          (field_texts-sanitize fields)

  mutual
    unfolding sanitize_json_value keys_of

    keys_of-sanitize : (v : Json) → keys_of (sanitize_json_value redact v) ≡ keys_of v
    keys_of-sanitize null = refl
    keys_of-sanitize (bool b) = refl
    keys_of-sanitize (num n) = refl
    keys_of-sanitize (str s) = refl
    keys_of-sanitize (arr items) = item_keys-sanitize items
    keys_of-sanitize (obj fields) = field_keys-sanitize fields

    item_keys-sanitize :
        (items : Items) → item_keys (sanitize_values redact items) ≡ item_keys items
    item_keys-sanitize nil = refl
    item_keys-sanitize (cons v items) =
        ap (λ ks. ks ++ item_keys (sanitize_values redact items)) (keys_of-sanitize v)
        ∙ ap (λ ks. keys_of v ++ ks) (item_keys-sanitize items)

    field_keys-sanitize :
        (fields : Fields) → field_keys (sanitize_entries redact fields) ≡ field_keys fields
    field_keys-sanitize end = refl
    field_keys-sanitize (field key v fields) =
        ap (λ ks. key ∷ ks ++ field_keys (sanitize_entries redact fields)) (keys_of-sanitize v)
        ∙ ap (λ ks. key ∷ keys_of v ++ ks) (field_keys-sanitize fields)

-- What a step returns, if it returns.
record Yields {A : Type 0} (P : A → Type 0) (step : Act A) : Type 0 where
  yielded : (s : Audit) (a : A) → (step s).1 ≡ ok a → P a

module _ {A B : Type 0} {P : A → Type 0} {Q : B → Type 0} where
  continue_with-Yields :
      (next : A → Act B) (r : Audit × Outcome String A)
      → ((a : A) → r.1 ≡ ok a → P a)
      → ((a : A) → P a → Yields Q (next a))
      → (b : B) → (continue_with next r).1 ≡ ok b
      → Q b
  continue_with-Yields next (s, ok a) h k b e = (k a (h a refl)).yielded s b e
  continue_with-Yields next (s, thrown x) h k b e = cc

  Yields-bind :
      {step : Act A} {next : A → Act B}
      → Yields P step
      → ((a : A) → P a → Yields Q (next a))
      → Yields Q (step >>= next)
  unfolding ◌>>=◌
  Yields-bind {step} {next} h k = record {
    yielded = λ s b e. continue_with-Yields next (step s) (h.yielded s) k b e;
  }

Yields-any : {A : Type 0} (step : Act A) → Yields (λ _. Unit {0}) step
Yields-any step = record { yielded = λ s a e. tt }

Yields-after :
    {A B : Type 0} {Q : B → Type 0} (step : Act A) {next : A → Act B}
    → ((a : A) → Yields Q (next a))
    → Yields Q (step >>= next)
Yields-after step h = Yields-bind (Yields-any step) (λ a _. h a)

Yields-last :
    {B : Type 0} {Q : B → Type 0} (step : Act (Unit {0})) {next : Act B}
    → Yields Q next
    → Yields Q (step >> next)
unfolding ◌>>◌
Yields-last step h = Yields-after step (λ _. h)

Yields-throw : {A : Type 0} {P : A → Type 0} (message : String) → Yields P (throw message)
unfolding throw
Yields-throw message = record { yielded = λ s a e. cc }

Yields-give : {A : Type 0} {P : A → Type 0} (a : A) → P a → Yields P (give a)
unfolding give
Yields-give {P} a p = record { yielded = λ s b e. subst P (cc) p }

module _ (world : World) (attempt : PreparedAgentAttempt) (policy : AgentRuntimePolicy) where
  module _ (tool : AgentReadOnlyToolName) (json : Json) where
    -- A raw result with its texts redacted that is within the budget of the attempt.
    pub record HandedOver (value : Json) : Type 0 where
      pub raw : Json
      pub given : world.call_tool tool json ≡ ok raw
      pub redacted : texts_of value ≡ map (redact_text world) (texts_of raw)
      pub same_keys : keys_of value ≡ keys_of raw
      pub within : ltb attempt.max_tool_result_bytes (world.byte_length value) ≡ false

    Yields-call_prepared_tool :
        Yields
          (λ raw. world.call_tool tool json ≡ ok raw)
          (call_prepared_tool world attempt tool json)
    unfolding call_prepared_tool
    Yields-call_prepared_tool = record {
      yielded = λ s a e. elim (Bool-cases (takes_input world attempt tool json)) [
        | inl taken ↦ rw taken at e
        | inr refused ↦ cc (rw refused at e)
      ];
    }

    Yields-hand_over :
        (raw : Json)
        → world.call_tool tool json ≡ ok raw
        → Yields HandedOver
            (hand_over world attempt policy tool (sanitize_json_value (redact_text world) raw))
    unfolding hand_over
    Yields-hand_over raw given =
        let value = sanitize_json_value (redact_text world) raw in
        elim (Bool-cases (ltb attempt.max_tool_result_bytes (world.byte_length value))) [
          | inl over ↦ rw over (Yields-after _ λ at. Yields-last _ (Yields-throw _))
          | inr fits ↦ rw fits (
              Yields-after _ λ at. Yields-last _ (
                Yields-give value (record {
                  raw = raw;
                  given = given;
                  redacted = texts_of-sanitize (redact_text world) raw;
                  same_keys = keys_of-sanitize (redact_text world) raw;
                  within = fits;
                })))
        ]

    Yields-guarded_tool_call : Yields HandedOver (guarded_tool_call world attempt policy tool json)
    unfolding guarded_tool_call deny_tool
    Yields-guarded_tool_call = elim (Bool-cases (may_call world attempt policy tool)) [
      | inr outside ↦ rw outside (Yields-after _ λ at. Yields-last _ (Yields-throw _))
      | inl inside ↦ rw inside (
          Yields-after _
            λ at. Yields-last _ (Yields-bind Yields-call_prepared_tool Yields-hand_over))
    ]

    -- What a guarded tool call returns has, in order, the redacted texts of what the raw tool
    -- returned, and the same keys of objects, which are not redacted; and it is no larger than the
    -- attempt's budget for a result.
    pub guarded_tool_call-HandedOver :
        (s : Audit) (value : Json)
        → (guarded_tool_call world attempt policy tool json s).1 ≡ ok value
        → HandedOver value
    guarded_tool_call-HandedOver = Yields-guarded_tool_call.yielded
