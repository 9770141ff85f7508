-- ===== src/Ingestion/PostgresTests.antt =====
-- The theorems on the Postgres repository at a database of concrete texts.
use data_dyna.Base.{
  String, none, some, List, [], ◌∷◌, ◌≡◌, refl, ok, thrown, ◌==◌, string_eq, list_eq, if◌then◌else◌,
}
use Prim.Native.String.{◌++◌ as string_append}
use data_dyna.Contract.{end}
use data_dyna.Ingestion.Store.{empty_store}
use data_dyna.Ingestion.Postgres.{
  to_raw_event_record, PostgresDatabase, date, to_iso_timestamp, unique_violation,
}
use data_dyna.Ingestion.Postgres.Repository.{Tables, empty_tables}
use data_dyna.Ingestion.Postgres.Refines.{
  IsStorable, StoreCall, accept, reject, Follows, empty_tables-Follows,
}
use data_dyna.Ingestion.Postgres.Repository
use data_dyna.Ingestion.Tests.{paid, paid_again, clashing}

-- A database that shows a time as it was written, and knows three events.
abbrev three_events : PostgresDatabase String
three_events = record {
  Date = String;
  to_iso_string = λ t. t;
  parse_date = some;
  timestamptz = λ t. some (date t);
  properties_column = record { stringify = λ _. ok (some "{}"); stored = λ _. some end };
  event_column = record {
    stringify = λ e. ok (some (string_append e.correlation.event_id e.idempotency.key));
    stored = λ t.
        if t == "e1k1"
        then some paid
        else if t == "e2k1"
        then some paid_again
        else if t == "e1k2"
        then some clashing
        else none;
  };
  payload_column = record { stringify = λ p. ok (some p); stored = some };
}

paid-IsStorable : IsStorable three_events paid
unfolding to_iso_timestamp
paid-IsStorable = record {
  occurred = date "2026-01-01T00:00:00Z";
  taken = refl;
  shown = refl;
  properties_kept = ("{}", refl, refl);
  event_kept = ("e1k1", refl, refl);
  named = (λ e. cc, λ e. cc);
}

paid_again-IsStorable : IsStorable three_events paid_again
unfolding to_iso_timestamp
paid_again-IsStorable = record {
  occurred = date "2026-01-01T00:00:00Z";
  taken = refl;
  shown = refl;
  properties_kept = ("{}", refl, refl);
  event_kept = ("e2k1", refl, refl);
  named = (λ e. cc, λ e. cc);
}

clashing-IsStorable : IsStorable three_events clashing
unfolding to_iso_timestamp
clashing-IsStorable = record {
  occurred = date "2026-01-01T00:00:00Z";
  taken = refl;
  shown = refl;
  properties_kept = ("{}", refl, refl);
  event_kept = ("e1k2", refl, refl);
  named = (λ e. cc, λ e. cc);
}

-- An event, the same under a new id, another key under the same id, and a rejected payload.
abbrev calls : List (StoreCall three_events)
calls =
    accept paid (some "c1") (date "t0") "t0"
    ∷ accept paid_again none (date "t1") "t1"
    ∷ accept clashing none (date "t2") "t2"
    ∷ reject "bad" "no event" none (date "t3") "t3"
    ∷ []

empty_tables-Follows_example : Follows three_events empty_store (empty_tables three_events) calls
unfolding to_iso_timestamp
empty_tables-Follows_example = empty_tables-Follows three_events calls (
  (paid-IsStorable, refl),
  ((paid_again-IsStorable, refl), ((clashing-IsStorable, refl), ((("bad", refl, refl), refl), tt))),
)

-- The second call is a duplicate, and the third violates the primary key.
abbrev after_paid : Tables three_events
after_paid =
    (Repository.persist_accepted three_events (empty_tables three_events) paid (some "c1")
      (date "t0")).0

persist_clashing :
    (Repository.persist_accepted three_events after_paid clashing none (date "t2")).1
    ≡ thrown unique_violation
unfolding Repository.persist_accepted Repository.after_insert Repository.insert_raw_event
    Repository.inserted_row empty_tables Repository.first_record to_raw_event_record
    to_iso_timestamp Repository.recover
persist_clashing = refl
