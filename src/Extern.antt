-- ===== src/Extern.antt =====
-- What the program uses and does not implement: C's `double`, and the cJSON library (vendored in
-- third_party/cjson). Both are parameters of the definitions that use them.
use kaufbot.Prelude.{true, false, ℕ, Bool, Option, none, some, List, ℤ}
use kaufbot.CText.{Text}

-- The type `double` with the operations and the constants of the source.
pub record Doubles : Type 1 where
  pub Double : Type 0
  pub zero_d : Double
  pub one_d : Double
  -- 0.005, 0.015 and 1.005
  pub half_cent : Double
  pub cent_and_half : Double
  pub just_over_one : Double
  pub add_d : Double → Double → Double
  pub sub_d : Double → Double → Double
  pub mul_d : Double → Double → Double
  pub neg_d : Double → Double
  -- `a < b`
  pub lt_d : Double → Double → Bool
  -- `printf("%.2f", a)`
  pub show_2f : Double → Text
  -- `(int64_t)a`, and `(double)n` of a number that is not negative
  pub to_int64 : Double → ℤ
  pub of_size : ℕ → Double
  -- `(double)n` of an `int64_t`
  pub of_int64 : ℤ → Double

-- A parsed document, read by the calls of cJSON.h; `is_string` and its like are false of a NULL
-- pointer, which the wrappers below pass on.
pub record Cjson (d : Doubles) : Type 1 where
  pub Node : Type 0
  pub parse : Text → Option Node
  pub get_object_item : Node → Text → Option Node
  -- The items of an array: `cJSON_GetArraySize` and `cJSON_GetArrayItem`.
  pub array_items : Node → List Node
  pub is_array : Node → Bool
  -- `valuestring` of a node for which `cJSON_IsString` holds
  pub string_value : Node → Option Text
  -- `valuedouble` and `valueint` of a node for which `cJSON_IsNumber` holds
  pub number_value : Node → Option (d.Double × ℤ)
  pub is_false : Node → Bool
  pub is_true : Node → Bool

-- A document that the program builds with the calls `cJSON_Create…` and `cJSON_Add…`.
mutual
  pub data Json (d : Doubles) : Type 0 where
    json_number : d.Double → Json d
    json_string : Text → Json d
    json_array : JsonItems d → Json d
    json_object : JsonFields d → Json d

  pub data JsonItems (d : Doubles) : Type 0 where
    no_items : JsonItems d
    add_item : Json d → JsonItems d → JsonItems d

  pub data JsonFields (d : Doubles) : Type 0 where
    no_fields : JsonFields d
    add_field : Text → Json d → JsonFields d → JsonFields d

-- `cJSON_PrintUnformatted`, which may fail
abbrev pub CjsonPrint : Doubles → Type 0
CjsonPrint d = Json d → Option Text

module _ {d : Doubles} (cj : Cjson d) where
  -- `cJSON_GetObjectItem(node, key)` with `node` possibly NULL
  unfoldable pub item : Option cj.Node → Text → Option cj.Node
  item none key = none
  item (some node) key = cj.get_object_item node key

  -- `cJSON_IsString(node)` and then `node->valuestring`
  unfoldable pub string_of : Option cj.Node → Option Text
  string_of none = none
  string_of (some node) = cj.string_value node

  -- `cJSON_IsNumber(node)` and then `node->valuedouble`
  unfoldable pub double_of : Option cj.Node → Option d.Double
  double_of none = none
  double_of (some node) = elim (cj.number_value node) [ none ↦ none | some (x, n) ↦ some x ]

  -- `cJSON_IsNumber(node)` and then `node->valueint`
  unfoldable pub int_of : Option cj.Node → Option ℤ
  int_of none = none
  int_of (some node) = elim (cj.number_value node) [ none ↦ none | some (x, n) ↦ some n ]

  -- `cJSON_IsArray(node)` and then its items
  unfoldable pub array_of : Option cj.Node → Option (List cj.Node)
  array_of none = none
  array_of (some node) = elim (cj.is_array node) [
    | true ↦ some (cj.array_items node)
    | false ↦ none
  ]

  -- `cJSON_IsTrue(node)`
  unfoldable pub is_true_node : Option cj.Node → Bool
  is_true_node none = false
  is_true_node (some node) = cj.is_true node
