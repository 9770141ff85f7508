-- ===== src/Worker/Repository/Columns.antt =====
-- `stringifyJsonb` of durable-worker-job-repository.ts and the `jsonb` columns it writes.
use data_dyna.Base.{String, Outcome, ok, thrown, Outcome-cases, ◌≡◌, ◌⊎◌, inl, inr, refl}
use Prim.Native.String.{◌++◌ as string_append}
use data_dyna.Contract.{Fields}
use data_dyna.Worker.Types.{Thrown, plain_error}
use data_dyna.Worker.Tables.{Database, Query}

-- `JSON.stringify`, which may throw a message, and what a `jsonb` column makes of a text: the value
-- that is read back, or the error of a database that refuses it.
pub record JsonColumns : Type 0 where
  pub stringify : Fields → Outcome String String
  pub store : String → Outcome Thrown Fields

module _ (columns : JsonColumns) where
  unfoldable pub stringify_jsonb : Fields → (label : String) → Outcome Thrown String
  stringify_jsonb value label = elim (columns.stringify value) [
    | ok written ↦ ok written
    | thrown message ↦ thrown (
        plain_error "Error" (
          string_append "Could not serialize "
            (string_append label (string_append " as JSON: " message))))
  ]

  abbrev stored_text : Outcome Thrown String → Outcome Thrown Fields
  stored_text (ok written) = columns.store written
  stored_text (thrown e) = thrown e

  -- A value as its column stores it.
  unfoldable pub to_jsonb : Fields → (label : String) → Outcome Thrown Fields
  unfolding stringify_jsonb
  to_jsonb value label = stored_text (stringify_jsonb value label)

  module _ (value : Fields) (label : String) where
    pub to_jsonb-unwritten :
        (e : Thrown) → stringify_jsonb value label ≡ thrown e → to_jsonb value label ≡ thrown e
    unfolding to_jsonb
    to_jsonb-unwritten e h = rw h refl

    pub to_jsonb-refused :
        (written : String) (e : Thrown)
        → stringify_jsonb value label ≡ ok written
        → columns.store written ≡ thrown e
        → to_jsonb value label ≡ thrown e
    unfolding to_jsonb
    to_jsonb-refused written e h k = rw h k

abbrev pub next_on : {A B : Type 0} → (A → Query B) → Outcome Thrown A → Query B
next_on next (ok a) db = next a db
next_on next (thrown e) db = (db, thrown e)

-- A statement with a parameter that may not be had: then it changes nothing.
unfoldable pub given : {A B : Type 0} → Outcome Thrown A → (A → Query B) → Query B
given o next db = next_on next o db

module _ {A B : Type 0} (o : Outcome Thrown A) (next : A → Query B) (db : Database) where
  pub given_cases :
      ((a : A) × (o ≡ ok a) × (given o next db ≡ next a db))
      ⊎ ((e : Thrown) × (o ≡ thrown e) × (given o next db ≡ (db, thrown e)))
  unfolding given
  given_cases = elim (Outcome-cases o) [
    | inl (a, e) ↦ inl (a, e, rw e refl)
    | inr (x, e) ↦ inr (x, e, rw e refl)
  ]

  -- What both endings keep is kept.
  pub given-keeps :
      (P : Database → Type 0) → P db → ((a : A) → P (next a db).0) → P (given o next db).0
  unfolding given
  given-keeps P p h = elim (Outcome-cases o) [ inl (a, e) ↦ rw e (h a) | inr (x, e) ↦ rw e p ]
