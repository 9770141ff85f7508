-- ===== src/Ingestion/Sink.antt =====
-- src/ingestion/posthog-sink.ts: the copy of an accepted event for product analytics.
use data_dyna.Base.{String, Option, or_else, coalesce, truthy, if◌then◌else◌}
use data_dyna.Contract.{DataDynaEvent, EventName, Fields, str, set_field, source_text}

pub record PostHogSinkEvent : Type 0 where
  pub event : EventName
  pub distinct_id : String
  pub properties : Fields

-- `if (value) properties[key] = value`.
unfoldable pub set_if_present : String → Option String → Fields → Fields
set_if_present key value properties =
    if truthy value then set_field key (str (coalesce value "")) properties else properties

unfoldable pub to_posthog_sink_event : DataDynaEvent → PostHogSinkEvent
unfolding set_if_present
to_posthog_sink_event event =
    let i = event.identity in
    let tagged =
      set_field "eventId" (str event.correlation.event_id)
        (set_field "source" (str (source_text event.source)) event.properties) in
    record {
      event = event.name;
      distinct_id =
          coalesce (or_else i.member_id (or_else i.customer_id (or_else i.device_id i.store_id)))
            event.correlation.event_id;
      properties = set_if_present "brandId" i.brand_id (set_if_present "storeId" i.store_id tagged);
    }
