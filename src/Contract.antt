-- ===== src/Contract.antt =====
-- src/contracts/event-contract.ts: the event envelope that every producer sends, as typed data.
-- The literal `version` field has one value and is left out. A JSON number is an integer here: the
-- modelled code passes numbers on and compares none of them.
use data_dyna.Base.{String, Bool, Option, ◌==◌, string_eq, if◌then◌else◌}
use data_dyna.Base.Int.{ℤ}

-- `JsonValue`, with the two containers as types of their own.
mutual
  pub data Json : Type 0 where
    null : Json
    bool : Bool → Json
    num : ℤ → Json
    str : String → Json
    arr : Items → Json
    obj : Fields → Json

  pub data Items : Type 0 where
    nil : Items
    cons : Json → Items → Items

  pub data Fields : Type 0 where
    end : Fields
    field : String → Json → Fields → Fields

-- `o[key] = value` on an object.
unfoldable pub set_field : String → Json → Fields → Fields
set_field key value end = field key value end
set_field key value (field k v rest) =
    if k == key then field k value rest else field k v (set_field key value rest)

unfoldable pub get_field : String → Fields → Option Json
get_field key end = Option.none
get_field key (field k v rest) = if k == key then Option.some v else get_field key rest

pub data EventSource : Type 0 where
  mini_program pos mobile_hq datamesh system : EventSource

abbrev pub source_text : EventSource → String
source_text mini_program = "mini_program"
source_text pos = "pos"
source_text mobile_hq = "mobile_hq"
source_text datamesh = "datamesh"
source_text system = "system"

pub data EventDomain : Type 0 where
  user_behavior transaction_scene merchant_action external_fact_snapshot system_fact : EventDomain

pub data EventName : Type 0 where
  menu_item_viewed cart_updated checkout_started : EventName
  order_opened order_paid refund_recorded : EventName
  experiment_review_submitted experiment_review_viewed experiment_accepted : EventName
  experiment_modified experiment_rejected experiment_applied_recorded : EventName
  experiment_reverted_recorded merchant_preference_confirmed : EventName
  member_rfm_snapshot_imported projection_rebuilt : EventName

pub data Environment : Type 0 where
  local dev test staging prod : Environment

abbrev pub environment_text : Environment → String
environment_text local = "local"
environment_text dev = "dev"
environment_text test = "test"
environment_text staging = "staging"
environment_text prod = "prod"

pub record Producer : Type 0 where
  pub service : String
  pub app : Option String
  pub environment : Option Environment
  pub emitted_at : String
  pub schema_ref : Option String

pub data ActorType : Type 0 where
  customer cashier merchant system datamesh : ActorType

pub record Identity : Type 0 where
  pub brand_id : Option String
  pub store_id : Option String
  pub merchant_id : Option String
  pub member_id : Option String
  pub customer_id : Option String
  pub device_id : Option String
  pub actor_type : Option ActorType

pub record Correlation : Type 0 where
  pub event_id : String
  pub trace_id : Option String
  pub session_id : Option String
  pub request_id : Option String
  pub causation_id : Option String
  pub correlation_id : Option String

pub data EntityType : Type 0 where
  store member cart order order_item payment refund menu_item experiment_plan : EntityType
  experiment_review merchant_preference rfm_snapshot projection : EntityType

pub record Entity : Type 0 where
  pub type : EntityType
  pub id : String
  pub version : Option String

pub data IdempotencyScope : Type 0 where
  producer store brand global : IdempotencyScope

abbrev pub scope_text : IdempotencyScope → String
scope_text producer = "producer"
scope_text store = "store"
scope_text brand = "brand"
scope_text global = "global"

pub record Idempotency : Type 0 where
  pub key : String
  pub scope : IdempotencyScope

pub record DataDynaEvent : Type 0 where
  pub source : EventSource
  pub domain : EventDomain
  pub name : EventName
  pub occurred_at : String
  pub producer : Producer
  pub identity : Identity
  pub correlation : Correlation
  pub entity : Entity
  pub properties : Fields
  pub idempotency : Idempotency
