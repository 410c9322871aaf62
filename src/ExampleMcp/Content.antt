-- ===== src/ExampleMcp/Content.antt =====
-- The wire values and the canned content of cmd/example-mcp/main.go.
use agent_plane.Base.{String, ◌<>◌, Bool, List, [], ◌∷◌}

-- A value that `encoding/json` writes: a number by its digits, and a `json.RawMessage` by its text.
mutual
  pub data Json : Type 0 where
    flag : Bool → Json
    number : String → Json
    text : String → Json
    raw : String → Json
    array : Items → Json
    object : Fields → Json

  pub data Items : Type 0 where
    no_items : Items
    item : Json → Items → Items

  pub data Fields : Type 0 where
    no_fields : Fields
    field : String → Json → Fields → Fields

abbrev pub items : List Json → Items
items [] = no_items
items (x ∷ xs) = item x (items xs)

abbrev pub fields : List (String × Json) → Fields
fields [] = no_fields
fields ((k, v) ∷ rest) = field k v (fields rest)

abbrev pub object_of : List (String × Json) → Json
object_of entries = object (fields entries)

abbrev pub array_of : List Json → Json
array_of xs = array (items xs)

abbrev pub order_tool_schema : String
order_tool_schema =
    "{\n" <> "  \"type\": \"object\",\n"
    <> "  \"properties\": { \"orderId\": { \"type\": \"string\", \"description\": \"the order id to look up\" } },\n"
    <> "  \"required\": [\"orderId\"]\n" <> "}"

abbrev pub weather_tool_schema : String
weather_tool_schema =
    "{\n" <> "  \"type\": \"object\",\n"
    <> "  \"properties\": { \"city\": { \"type\": \"string\", \"description\": \"city name, e.g. Beijing or Shanghai\" } },\n"
    <> "  \"required\": [\"city\"]\n" <> "}"

abbrev pub attractions_tool_schema : String
attractions_tool_schema =
    "{\n" <> "  \"type\": \"object\",\n" <> "  \"properties\": {\n"
    <> "    \"city\":       { \"type\": \"string\", \"description\": \"city name, e.g. Beijing\" },\n"
    <> "    \"preference\": { \"type\": \"string\", \"description\": \"traveler preference, e.g. history, nature, food\" }\n"
    <> "  },\n" <> "  \"required\": [\"city\"]\n" <> "}"

abbrev pub hotels_tool_schema : String
hotels_tool_schema =
    "{\n" <> "  \"type\": \"object\",\n" <> "  \"properties\": {\n"
    <> "    \"city\": { \"type\": \"string\", \"description\": \"city name, e.g. Beijing\" },\n"
    <> "    \"type\": { \"type\": \"string\", \"description\": \"accommodation type: budget | comfort | luxury\" }\n"
    <> "  },\n" <> "  \"required\": [\"city\"]\n" <> "}"

abbrev attraction : String → String → String → String → String → Json
attraction name rating hours ticket visit_time = object_of (
    ("name", text name)
    ∷ ("rating", number rating)
    ∷ ("hours", text hours)
    ∷ ("ticket", text ticket)
    ∷ ("visitTime", text visit_time)
    ∷ [])

abbrev hotel : String → String → String → String → Json
hotel name rating price location = object_of (
    ("name", text name)
    ∷ ("rating", number rating)
    ∷ ("price", text price)
    ∷ ("location", text location)
    ∷ [])

abbrev pub history_list : List Json
history_list =
    attraction "Old Palace Museum" "4.8" "08:30-17:00" "60 CNY" "3h"
    ∷ attraction "Ancient City Wall" "4.6" "08:00-18:00" "45 CNY" "2h"
    ∷ attraction "Heritage Temple" "4.5" "07:30-17:30" "30 CNY" "1.5h"
    ∷ []

abbrev pub nature_list : List Json
nature_list =
    attraction "Lakeside National Park" "4.7" "06:00-19:00" "free" "4h"
    ∷ attraction "Fragrant Hills" "4.5" "07:00-18:00" "15 CNY" "3h"
    ∷ attraction "Botanical Garden" "4.4" "08:00-17:00" "10 CNY" "2h"
    ∷ []

abbrev pub food_list : List Json
food_list =
    attraction "Night Food Street" "4.6" "16:00-24:00" "free" "2h"
    ∷ attraction "Time-honored Restaurant Row" "4.4" "10:00-22:00" "free" "2h"
    ∷ attraction "Local Snack Market" "4.3" "09:00-21:00" "free" "1.5h"
    ∷ []

-- The first of each list.
abbrev pub default_mix : List Json
default_mix =
    attraction "Old Palace Museum" "4.8" "08:30-17:00" "60 CNY" "3h"
    ∷ attraction "Lakeside National Park" "4.7" "06:00-19:00" "free" "4h"
    ∷ attraction "Night Food Street" "4.6" "16:00-24:00" "free" "2h"
    ∷ []

abbrev pub budget_list : List Json
budget_list =
    hotel "City Youth Hostel" "4.2" "180 CNY/night" "near metro line 2"
    ∷ hotel "Express Inn Downtown" "4.0" "260 CNY/night" "city center"
    ∷ []

abbrev pub comfort_list : List Json
comfort_list =
    hotel "Garden Boutique Hotel" "4.5" "520 CNY/night" "old town"
    ∷ hotel "Riverside Business Hotel" "4.4" "480 CNY/night" "river district"
    ∷ []

abbrev pub luxury_list : List Json
luxury_list =
    hotel "Grand Lakeview Hotel" "4.8" "1480 CNY/night" "lakefront"
    ∷ hotel "Imperial Palace Hotel" "4.7" "1280 CNY/night" "CBD"
    ∷ []
