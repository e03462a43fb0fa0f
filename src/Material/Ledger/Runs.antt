-- ===== src/Material/Ledger/Runs.antt =====
-- Sequences of operations of services/central-api/app/repositories/material_flow.py, from empty tables.
use mini_ogas.Prelude.{ℕ, ◌+◌, ◌≤◌, ◌≡◌, refl, true, some, [], String, arith, ok}
use mini_ogas.Material.Model.{
  Warehouse, Location, Container, Lot, Movement, Transformation, ExternalImport, ReconciliationCase,
  Stock,
}
use mini_ogas.Material.Access.{one, is_serial}
use mini_ogas.Material.Balances.{quantity_at, lot_total}
use mini_ogas.Material.Catalog.{
  WarehouseIn, LocationIn, ContainerIn, LotIn, create_warehouse, create_location, create_container,
  create_lot,
}
use mini_ogas.Material.Movements.{MovementIn}
use mini_ogas.Material.Movements.Recording.{record_movement}
use mini_ogas.Material.Transformations.{TransformationIn}
use mini_ogas.Material.Transformations.Recording.{Direction, record_transformation}
use mini_ogas.Material.Reconciliation.{SnapshotIn, import_external_snapshot}
use mini_ogas.Material.Adjustments.{AdjustmentIn, adjust_reconciliation}
use mini_ogas.Material.Genealogy.Paths.{Chain}
use mini_ogas.Material.Genealogy.Lineage.{Descends}
use mini_ogas.Material.Ledger.{inflow, outflow}
use mini_ogas.Material.Ledger.Consistency.{IsConsistent, is_held, lot_by_id, Quiet-IsConsistent}
use mini_ogas.Material.Ledger.Accepted.{record_movement-IsConsistent}
use mini_ogas.Material.Ledger.Transformed.{record_transformation-IsConsistent}
use mini_ogas.Material.Ledger.Adjusted.{
  import_external_snapshot-IsConsistent, adjust_reconciliation-IsConsistent,
}
use mini_ogas.Material.Ledger.Created.{
  create_warehouse-Quiet, create_location-Quiet, create_container-Quiet, create_lot-IsConsistent,
}

-- The digests that the operations take.
pub record Digests : Type 0 where
  pub of_movement : MovementIn → String
  pub of_transformation : TransformationIn → String
  pub of_leg : String → Direction → ℕ → String
  pub of_snapshot : SnapshotIn → String
  pub of_adjustment : ℕ → AdjustmentIn → String

-- One operation that succeeds.
pub data StockOperation (d : Digests) (s s' : Stock) : Type 0 where
  warehouse :
      (p : WarehouseIn) (actor : String) (w : Warehouse)
      → create_warehouse p actor s ≡ ok (w, s')
      → StockOperation d s s'
  location :
      (p : LocationIn) (actor : String) (l : Location)
      → create_location p actor s ≡ ok (l, s')
      → StockOperation d s s'
  container :
      (p : ContainerIn) (actor : String) (c : Container)
      → create_container p actor s ≡ ok (c, s')
      → StockOperation d s s'
  lot :
      (p : LotIn) (actor : String) (l : Lot)
      → create_lot p actor s ≡ ok (l, s')
      → StockOperation d s s'
  movement :
      (p : MovementIn) (actor : String) (m : Movement)
      → record_movement d.of_movement p actor s ≡ ok (m, s')
      → StockOperation d s s'
  transformation :
      (p : TransformationIn) (actor : String) (t : Transformation)
      → record_transformation d.of_transformation d.of_leg p actor s ≡ ok (t, s')
      → StockOperation d s s'
  snapshot :
      (p : SnapshotIn) (actor : String) (i : ExternalImport)
      → import_external_snapshot d.of_snapshot p actor s ≡ ok (i, s')
      → StockOperation d s s'
  adjustment :
      (n : ℕ) (p : AdjustmentIn) (actor : String) (c : ReconciliationCase)
      → adjust_reconciliation d.of_adjustment n p actor s ≡ ok (c, s')
      → StockOperation d s s'

-- An operation; one that raises leaves the tables as they were. Other services change their own
-- tables.
pub data Change (d : Digests) (s s' : Stock) : Type 0 where
  operates : StockOperation d s s' → Change d s s'
  elsewhere :
      s' ≡ record s {
        materials = s'.materials;
        quality_holds = s'.quality_holds;
        tasks = s'.tasks;
        maintenance_orders = s'.maintenance_orders;
      }
      → Change d s s'

abbrev pub IsEmptyStock : Stock → Type 0
IsEmptyStock s = (s.balances ≡ []) × (s.movements ≡ []) × (s.lots ≡ []) × (s.edges ≡ [])

-- The tables that operations lead to, one after the other.
pub data Reached (d : Digests) : Stock → Type 0 where
  begins : (s : Stock) → IsEmptyStock s → Reached d s
  changes : (s s' : Stock) → Reached d s → Change d s s' → Reached d s'

no_descent : (n m : ℕ) → ¬ Descends [] n m
no_descent n _ (Chain.link m r) = r
no_descent n _ (Chain.further k m chain r) = r

StockOperation-IsConsistent :
    {base : Stock} (d : Digests) (s s' : Stock)
    → StockOperation d s s'
    → IsConsistent base s
    → IsConsistent base s'
StockOperation-IsConsistent d s s' (StockOperation.warehouse p actor w h) c =
    Quiet-IsConsistent s s' (create_warehouse-Quiet p actor s w s' h) c
StockOperation-IsConsistent d s s' (StockOperation.location p actor l h) c =
    Quiet-IsConsistent s s' (create_location-Quiet p actor s l s' h) c
StockOperation-IsConsistent d s s' (StockOperation.container p actor k h) c =
    Quiet-IsConsistent s s' (create_container-Quiet p actor s k s' h) c
StockOperation-IsConsistent d s s' (StockOperation.lot p actor l h) c =
    create_lot-IsConsistent p actor s l s' h c
StockOperation-IsConsistent d s s' (StockOperation.movement p actor m h) c =
    record_movement-IsConsistent d.of_movement p actor s m s' h c
StockOperation-IsConsistent d s s' (StockOperation.transformation p actor t h) c =
    record_transformation-IsConsistent d.of_transformation d.of_leg p actor s t s' h c
StockOperation-IsConsistent d s s' (StockOperation.snapshot p actor i h) c =
    import_external_snapshot-IsConsistent d.of_snapshot p actor s i s' h c
StockOperation-IsConsistent d s s' (StockOperation.adjustment n p actor k h) c =
    adjust_reconciliation-IsConsistent d.of_adjustment n p actor s k s' h c

-- The tables after an operation are what the next one begins with.
Self-IsConsistent : {base : Stock} (s : Stock) → IsConsistent base s → IsConsistent s s
Self-IsConsistent s c = record {
  agrees = c.agrees;
  lots_found = c.lots_found;
  serial_fits = c.serial_fits;
  no_stray = c.no_stray;
  holds = refl;
  held_fixed = λ n location key held. refl;
  acyclic = c.acyclic;
}

elsewhere-IsConsistent :
    {base : Stock} (s s' : Stock)
    → s' ≡ record s {
      materials = s'.materials;
      quality_holds = s'.quality_holds;
      tasks = s'.tasks;
      maintenance_orders = s'.maintenance_orders;
    }
    → IsConsistent base s
    → IsConsistent s' s'
elsewhere-IsConsistent s s' e c =
    let balances : s'.balances ≡ s.balances = ground (arith, e) in
    let movements : s'.movements ≡ s.movements = ground (arith, e) in
    let lots : s'.lots ≡ s.lots = ground (arith, e) in
    let edges : s'.edges ≡ s.edges = ground (arith, e) in
    record {
      agrees = rw (balances, movements) c.agrees;
      lots_found = rw lots c.lots_found;
      serial_fits = rw (balances, lots) c.serial_fits;
      no_stray = rw (balances, lots) c.no_stray;
      holds = refl;
      held_fixed = λ n location key held. refl;
      acyclic = rw edges c.acyclic;
    }

Change-IsConsistent :
    (d : Digests) (s s' : Stock) → Change d s s' → IsConsistent s s → IsConsistent s' s'
Change-IsConsistent d s s' (Change.operates o) c =
    Self-IsConsistent s' (StockOperation-IsConsistent d s s' o c)
Change-IsConsistent d s s' (Change.elsewhere e) c = elsewhere-IsConsistent s s' e c

Empty-IsConsistent : (s : Stock) → IsEmptyStock s → IsConsistent s s
Empty-IsConsistent s (balances, movements, lots, edges) = record {
  agrees = rw (balances, movements) (λ lot location key. refl);
  lots_found = rw lots (λ code l h. absurd (ground arith));
  serial_fits = rw (balances, lots) (λ n l h serial. absurd (ground arith));
  no_stray = rw (balances, lots) (λ n h. refl);
  holds = refl;
  held_fixed = λ n location key held. refl;
  acyclic = rw edges (λ n chain. no_descent n n chain);
}

Reached-IsConsistent : (d : Digests) (s : Stock) → Reached d s → IsConsistent s s
Reached-IsConsistent d s (Reached.begins _ e) = Empty-IsConsistent s e
Reached-IsConsistent d s (Reached.changes r _ before change) =
    Change-IsConsistent d r s change (Reached-IsConsistent d r before)

-- In the tables that operations lead to from empty ones, the quantity of every lot at every location
-- and container, with what the recorded movements took from there, is what they brought there.
pub Reached-quantity_at :
    (d : Digests) (s : Stock)
    → Reached d s
    → (lot location : ℕ) (key : String)
    → quantity_at lot location key s.balances + outflow lot location key s.movements
      ≡ inflow lot location key s.movements
Reached-quantity_at d s reached = (Reached-IsConsistent d s reached).agrees

-- In the tables that operations lead to from empty ones, the balances of a lot that is tracked by
-- serial number add up to at most one unit and the tolerance.
pub Reached-lot_total :
    (d : Digests) (s : Stock)
    → Reached d s
    → (n : ℕ) (l : Lot) → lot_by_id n s.lots ≡ some l
    → is_serial l.tracking_kind ≡ true
    → lot_total n s.balances ≤ one + 1
Reached-lot_total d s reached = (Reached-IsConsistent d s reached).serial_fits

-- In the tables that operations lead to from empty ones, no lot stems from itself.
pub Reached-acyclic : (d : Digests) (s : Stock) → Reached d s → (n : ℕ) → ¬ Descends s.edges n n
Reached-acyclic d s reached = (Reached-IsConsistent d s reached).acyclic

-- In the tables that operations lead to from empty ones, no operation of the material flow changes
-- the quantity of a lot under an open hold, at any location and container.
pub StockOperation-held :
    (d : Digests) (s s' : Stock)
    → Reached d s
    → StockOperation d s s'
    → (n : ℕ) → is_held n s ≡ true
    → (at : ℕ) (key : String) → quantity_at n at key s'.balances ≡ quantity_at n at key s.balances
StockOperation-held d s s' reached o n held at key =
    (StockOperation-IsConsistent d s s' o (Reached-IsConsistent d s reached)).held_fixed n at key
      held
