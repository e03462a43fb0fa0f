-- ===== src/Planning/Tests.antt =====
-- A plan of services/production-planner/app/main.py, and its theorems there.
use mini_ogas.Prelude.{ℕ, ◌≡◌, refl, [], ◌∷◌, map, String, str_eq, count}
use mini_ogas.Planning.{
  NodeHealth, AllocationOrder, PlanningRequest, PlanItem, item_of, insert_sorted, sort, distinct,
  plan,
}
use mini_ogas.Planning.Items.{plan-count}
use mini_ogas.Planning.Order.{IsUrgentFirst, plan-IsUrgentFirst}

abbrev online : String → ℕ → NodeHealth
online workshop load = record {
  node_code = workshop;
  workshop_type = workshop;
  status = "online";
  load_score = load;
}

abbrev order : String → String → ℕ → ℕ → String → AllocationOrder
order identifier product quantity priority status = record {
  order_id = identifier;
  product_code = product;
  required_quantity = quantity;
  priority = priority;
  deadline_hours = 8;
  status = status;
}

-- Milling is loaded, so that P2 cannot be made; P9 has an order and no signal.
abbrev request : PlanningRequest
request = record {
  market_signals =
      record { product_code = "P2"; demand_index = 9_000; inventory_pressure = 1_000 }
      ∷ record { product_code = "P1"; demand_index = 8_000; inventory_pressure = 1_050 }
      ∷ [];
  node_health = online "turning" 2_000 ∷ online "grinding" 7_999 ∷ online "milling" 8_000 ∷ [];
  allocation_orders =
      order "o-1" "P9" 40 7 "received"
      ∷ order "o-2" "P9" 30 4 "received"
      ∷ order "o-3" "P1" 500 1 "cancelled"
      ∷ [];
}

abbrev summary : PlanItem → String × ℕ × ℕ
summary i = (i.product_code, i.target_quantity, i.priority)

plan-request : map summary (plan request) ≡ ("P1", 139, 2) ∷ ("P9", 70, 4) ∷ ("P2", 80, 6) ∷ []
unfolding plan item_of insert_sorted sort distinct
plan-request = refl

plan-count_example : count (λ i. str_eq i.product_code "P9") (plan request) ≡ 1
plan-count_example = plan-count request "P9"

plan-IsUrgentFirst_example : IsUrgentFirst (plan request)
plan-IsUrgentFirst_example = plan-IsUrgentFirst request
