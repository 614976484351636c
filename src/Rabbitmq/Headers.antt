-- ===== src/Rabbitmq/Headers.antt =====
-- `extractRejectedCount` of pkg/rabbitmq/helpers.go. A nil `amqp.Table` reads as an empty one.
use text.Mathlib.Text.{◌==◌ as str_eq}
use mini_wallet.Base.{Bool, false, not, Option, none, some, String, if◌then◌else◌}
use mini_wallet.Base.Int.{ℤ, pos}

-- The dynamic types that are told apart in an `amqp.Table`.
mutual
  pub data Value : Type 0 where
    string : String → Value
    int64 : ℤ → Value
    int32 : ℤ → Value
    items : Values → Value
    table : Table → Value
    other : Value

  pub data Values : Type 0 where
    end : Values
    and : Value → Values → Values

  pub data Table : Type 0 where
    empty : Table
    entry : String → Value → Table → Table

abbrev pub lookup : String → Table → Option Value
lookup k empty = none
lookup k (entry j v t) = let rest = lookup k t in if str_eq j k then some v else rest

-- `s, ok := v.(string); ok && s == want`
abbrev pub is_text : String → Option Value → Bool
is_text want none = false
is_text want (some (string s)) = str_eq s want
is_text want (some (int64 z)) = false
is_text want (some (int32 z)) = false
is_text want (some (items vs)) = false
is_text want (some (table t)) = false
is_text want (some other) = false

abbrev pub count_of : Option Value → ℤ
count_of none = pos 0
count_of (some (string s)) = pos 0
count_of (some (int64 z)) = z
count_of (some (int32 z)) = z
count_of (some (items vs)) = pos 0
count_of (some (table t)) = pos 0
count_of (some other) = pos 0

-- The loop over the items of the header `x-death`; `rest` is what the next items yield.
abbrev pub count_or : String → Value → ℤ → ℤ
count_or queue_name (string s) rest = rest
count_or queue_name (int64 z) rest = rest
count_or queue_name (int32 z) rest = rest
count_or queue_name (items vs) rest = rest
count_or queue_name (table t) rest =
    if not (is_text queue_name (lookup "queue" t))
    then rest
    else if not (is_text "rejected" (lookup "reason" t))
    then rest
    else count_of (lookup "count" t)
count_or queue_name other rest = rest

abbrev pub count_in : String → Values → ℤ
count_in queue_name end = pos 0
count_in queue_name (and v vs) = count_or queue_name v (count_in queue_name vs)

abbrev pub count_deaths : String → Option Value → ℤ
count_deaths queue_name none = pos 0
count_deaths queue_name (some (string s)) = pos 0
count_deaths queue_name (some (int64 z)) = pos 0
count_deaths queue_name (some (int32 z)) = pos 0
count_deaths queue_name (some (items vs)) = count_in queue_name vs
count_deaths queue_name (some (table t)) = pos 0
count_deaths queue_name (some other) = pos 0

unfoldable pub extract_rejected_count : Table → String → ℤ
extract_rejected_count headers queue_name = count_deaths queue_name (lookup "x-death" headers)
