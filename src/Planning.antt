-- ===== src/Planning.antt =====
-- services/production-planner/app/main.py: the plan for the market's signals, the health of the nodes
-- and the orders that were accepted. Indexes, pressures and load scores are whole hundredths and not
-- negative; where the source subtracts, a difference below zero counts as zero, which the tests and
-- the least quantities do not tell apart. The text that gives a plan's reason is left out.
pub mod Items
pub mod Order
mod Tests
use mini_ogas.Prelude.{
  ℕ, ◌+◌, ◌-◌, ◌*◌, max, min, Bool, true, false, not, ◌&&◌, ◌||◌, Option, none, some, List, [], ◌∷◌,
  ◌++◌, map, String, str_eq, codes, ltb, leb, ◌==◌, if◌then◌else◌, any, select, find_last,
}
use Prim.Native.Nat.{◌/◌}

pub record MarketSignal : Type 0 where
  pub product_code : String
  pub demand_index : ℕ
  pub inventory_pressure : ℕ

pub record NodeHealth : Type 0 where
  pub node_code : String
  pub workshop_type : String
  pub status : String
  pub load_score : ℕ

pub record AllocationOrder : Type 0 where
  pub order_id : String
  pub product_code : String
  pub required_quantity : ℕ
  pub priority : ℕ
  pub deadline_hours : ℕ
  pub status : String

pub record PlanningRequest : Type 0 where
  pub market_signals : List MarketSignal
  pub node_health : List NodeHealth
  pub allocation_orders : List AllocationOrder

pub record PlanItem : Type 0 where
  pub product_code : String
  pub target_quantity : ℕ
  pub priority : ℕ
  pub route : List String

-- `ROUTES.get(product_code, ["turning"])`
abbrev pub route_of : String → List String
route_of code =
    if str_eq code "P1"
    then "turning" ∷ "grinding" ∷ []
    else if str_eq code "P2"
    then "turning" ∷ "milling" ∷ []
    else if str_eq code "P3"
    then "turning" ∷ "milling" ∷ "grinding" ∷ []
    else if str_eq code "P4"
    then "turning" ∷ "grinding" ∷ []
    else if str_eq code "P5"
    then "milling" ∷ "grinding" ∷ []
    else "turning" ∷ []

-- `step in healthy_workshops`
abbrev pub is_healthy : List NodeHealth → String → Bool
is_healthy nodes step =
    any (λ n. str_eq n.workshop_type step && str_eq n.status "online" && ltb n.load_score 8_000)
      nodes

abbrev pub all_healthy : List NodeHealth → List String → Bool
all_healthy nodes [] = true
all_healthy nodes (step ∷ steps) = is_healthy nodes step && all_healthy nodes steps

-- `order.status in {"completed", "cancelled", "rejected"}`
abbrev pub is_over : String → Bool
is_over status = str_eq status "completed" || str_eq status "cancelled" || str_eq status "rejected"

abbrev pub is_active_for : String → AllocationOrder → Bool
is_active_for code o = not (is_over o.status) && str_eq o.product_code code

-- `orders_by_product.get(product_code, [])`
abbrev pub active_orders : PlanningRequest → String → List AllocationOrder
active_orders r code = select (is_active_for code) r.allocation_orders

-- The signal of a product: of two, the last one is kept.
abbrev pub signal_of : PlanningRequest → String → Option MarketSignal
signal_of r code = find_last (λ s. str_eq s.product_code code) r.market_signals

abbrev pub pressure_of : Option MarketSignal → ℕ
pressure_of none = 0
pressure_of (some s) = s.demand_index - s.inventory_pressure

abbrev pub committed : List AllocationOrder → ℕ
committed [] = 0
committed (o ∷ os) = o.required_quantity + committed os

abbrev pub least_priority : ℕ → List AllocationOrder → ℕ
least_priority p [] = p
least_priority p (o ∷ os) = min o.priority (least_priority p os)

-- The body of the loop of `plan` for one product.
unfoldable pub item_of : PlanningRequest → String → PlanItem
item_of r code =
    let route = route_of code in
    let is_available = all_healthy r.node_health route in
    let pressure = pressure_of (signal_of r code) in
    let orders = active_orders r code in
    let market_priority = if ltb 6_000 pressure && is_available then 2 else 6 in
    let market_quantity =
      if is_available then max 10 (pressure * 2 / 100) else max 5 (pressure / 100) in
    record {
      product_code = code;
      target_quantity = max market_quantity (committed orders);
      priority = least_priority market_priority orders;
      route = route;
    }

-- The order of texts, by their code points.
abbrev pub is_before : List ℕ → List ℕ → Bool
is_before [] [] = false
is_before [] (b ∷ bs) = true
is_before (a ∷ rest_a) [] = false
is_before (a ∷ rest_a) (b ∷ bs) = let rest = is_before rest_a bs in if a == b then rest else ltb a b

-- A stable sort: an element goes in front of the first that comes after it.
module _ {A : Type 0} (comes_before : A → A → Bool) where
  unfoldable pub insert_sorted : A → List A → List A
  insert_sorted a [] = a ∷ []
  insert_sorted a (b ∷ bs) =
      let rest = insert_sorted a bs in if comes_before b a then b ∷ rest else a ∷ b ∷ bs

  unfoldable pub sort : List A → List A
  sort [] = []
  sort (a ∷ rest_a) = insert_sorted a (sort rest_a)

-- The elements of a set, from a list.
unfoldable pub distinct : List String → List String
distinct [] = []
distinct (c ∷ cs) = let rest = distinct cs in if any (λ d. str_eq d c) rest then rest else c ∷ rest

abbrev pub codes_of_orders : List AllocationOrder → List String
codes_of_orders [] = []
codes_of_orders (o ∷ os) =
    let rest = codes_of_orders os in if is_over o.status then rest else o.product_code ∷ rest

-- `set(signals) | set(orders_by_product)`
abbrev pub wanted_codes : PlanningRequest → List String
wanted_codes r = map (λ s. s.product_code) r.market_signals ++ codes_of_orders r.allocation_orders

abbrev pub code_before : String → String → Bool
code_before a b = is_before (codes a) (codes b)

abbrev pub is_first : PlanItem → PlanItem → Bool
is_first a b = ltb a.priority b.priority

unfoldable pub plan : PlanningRequest → List PlanItem
plan r = sort is_first (map (item_of r) (sort code_before (distinct (wanted_codes r))))
