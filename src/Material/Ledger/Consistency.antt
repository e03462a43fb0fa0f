-- ===== src/Material/Ledger/Consistency.antt =====
-- The invariant of the material flow, and how a posting keeps it
-- (services/central-api/app/repositories/material_flow.py).
use mini_ogas.Prelude.{
  ℕ, ◌+◌, ◌≤◌, ◌≡◌, sym, subst, ◌∙◌, true, false, Bool, refl, any, Option, none, some, List, String,
  str_eq, arith, ◌==◌, find, find_sound, Bool-cases, inl, inr,
}
use mini_ogas.Material.Model.{Lot, Movement, Stock}
use mini_ogas.Material.Access.{one, is_serial, is_held_lot}
use mini_ogas.Material.Balances.{quantity_at, lot_total}
use mini_ogas.Material.Postings.Effects.{Posts, is_end}
use mini_ogas.Material.Genealogy.Lineage.{Descends}
use mini_ogas.Material.Ledger.{Agrees, Posts-Agrees}

abbrev pub lot_by_id : ℕ → List Lot → Option Lot
lot_by_id n = find (λ (l : Lot). l.id == n)

abbrev pub lot_by_code : String → List Lot → Option Lot
lot_by_code code = find (λ (l : Lot). str_eq l.lot_code code)

abbrev pub is_held : ℕ → Stock → Bool
is_held n s = any (is_held_lot n) s.quality_holds

pub record IsConsistent (base s : Stock) : Type 0 where
  -- Every balance is what the movements brought less what they took.
  pub agrees : Agrees s.balances s.movements
  -- A lot is found by its number as by its code.
  pub lots_found :
      (code : String) (l : Lot) → lot_by_code code s.lots ≡ some l → lot_by_id l.id s.lots ≡ some l
  -- A serial number has at most one unit, over all places.
  pub serial_fits :
      (n : ℕ) (l : Lot)
      → lot_by_id n s.lots ≡ some l
      → is_serial l.tracking_kind ≡ true
      → lot_total n s.balances ≤ one + 1
  -- There are balances of lots alone.
  pub no_stray : (n : ℕ) → lot_by_id n s.lots ≡ none → lot_total n s.balances ≡ 0
  -- The holds are the same, and what was under a hold is where it was.
  pub holds : s.quality_holds ≡ base.quality_holds
  pub held_fixed :
      (n location : ℕ) (key : String)
      → is_held n base ≡ true
      → quantity_at n location key s.balances ≡ quantity_at n location key base.balances
  -- No lot stems from itself.
  pub acyclic : (n : ℕ) → ¬ Descends s.edges n n

lot_id-lot_by_id : (n : ℕ) (s : Stock) (l : Lot) → lot_by_id n s.lots ≡ some l → l.id ≡ n
lot_id-lot_by_id n s l e =
    let found = find_sound (λ (k : Lot). k.id == n) s.lots l e in ground arith

-- A movement of another lot does not end at a place of this one.
is_end-other :
    (end : Option ℕ) (container : Option String) (own n location : ℕ) (key : String)
    → (own == n) ≡ false
    → is_end end container own n location key ≡ false
is_end-other none container own n location key h = refl
is_end-other (some l) container own n location key h = rw h refl

module _ {base : Stock} (l : Lot) (m : Movement) (s s' : Stock)
    (known : lot_by_id l.id s.lots ≡ some l) (of_lot : m.lot_id ≡ l.id) (p : Posts l m s s')
    (c : IsConsistent base s) where
  total_of_others : (n : ℕ) → (l.id == n) ≡ false → lot_total n s'.balances ≡ lot_total n s.balances
  total_of_others n other = ground (arith, p.by_lot n, of_lot)

  serial_after :
      (n : ℕ) (k : Lot)
      → lot_by_id n s.lots ≡ some k
      → is_serial k.tracking_kind ≡ true
      → lot_total n s'.balances ≤ one + 1
  serial_after n k e serial = elim (Bool-cases (l.id == n)) [
    | inl same ↦
        let at : l.id ≡ n = ground arith in
        let lots : some k ≡ some l = sym e ∙ subst (λ x. lot_by_id x s.lots ≡ some l) at known in
        let serial' : is_serial l.tracking_kind ≡ true = ground arith in
        let before = c.serial_fits n k e serial in
        subst (λ x. lot_total x s'.balances ≤ one + 1) at
          (p.serial_fits serial' (subst (λ x. lot_total x s.balances ≤ one + 1) (sym at) before))
    | inr other ↦ ground (arith, total_of_others n other, c.serial_fits n k e serial)
  ]

  no_stray_after : (n : ℕ) → lot_by_id n s.lots ≡ none → lot_total n s'.balances ≡ 0
  no_stray_after n none_there = elim (Bool-cases (l.id == n)) [
    | inl same ↦
        let at : l.id ≡ n = ground arith in
        let lots : none ≡ some l =
          sym none_there ∙ subst (λ x. lot_by_id x s.lots ≡ some l) at known in
        absurd (ground arith)
    | inr other ↦ ground (arith, total_of_others n other, c.no_stray n none_there)
  ]

  holds_after : s'.quality_holds ≡ base.quality_holds
  holds_after =
      let same : s'.quality_holds ≡ s.quality_holds = ground (arith, p.only) in same ∙ c.holds

  lot_not_held : (n : ℕ) → is_held n base ≡ true → (m.lot_id == n) ≡ false
  lot_not_held n held = elim (Bool-cases (m.lot_id == n)) [
    | inl same ↦
        let at : m.lot_id ≡ n = ground arith in
        let free : any (is_held_lot n) base.quality_holds ≡ false =
          subst (λ x. any (is_held_lot x) base.quality_holds ≡ false) at
            (subst (λ hs. any (is_held_lot m.lot_id) hs ≡ false) c.holds p.not_held) in
        absurd (ground arith)
    | inr other ↦ other
  ]

  held_fixed_after :
      (n location : ℕ) (key : String)
      → is_held n base ≡ true
      → quantity_at n location key s'.balances ≡ quantity_at n location key base.balances
  held_fixed_after n location key held =
      let other = lot_not_held n held in
      let left = is_end-other m.from_location m.from_container m.lot_id n location key other in
      let entered = is_end-other m.to_location m.to_container m.lot_id n location key other in
      let posted = p.by_place n location key in ground (arith, c.held_fixed n location key held)

  pub Posts-IsConsistent : IsConsistent base s'
  Posts-IsConsistent =
      let lots : s'.lots ≡ s.lots = ground (arith, p.only) in
      let edges : s'.edges ≡ s.edges = ground (arith, p.only) in
      record {
        agrees = Posts-Agrees l m s s' p c.agrees;
        lots_found = rw lots c.lots_found;
        serial_fits = rw lots serial_after;
        no_stray = rw lots no_stray_after;
        holds = holds_after;
        held_fixed = held_fixed_after;
        acyclic = rw edges c.acyclic;
      }

-- What the invariant is about is left as it was.
abbrev pub Quiet : Stock → Stock → Type 0
Quiet s s' =
    (s'.balances ≡ s.balances)
    × (s'.movements ≡ s.movements)
    × (s'.lots ≡ s.lots)
    × (s'.edges ≡ s.edges)
    × (s'.quality_holds ≡ s.quality_holds)

pub Quiet-IsConsistent :
    {base : Stock} (s s' : Stock) → Quiet s s' → IsConsistent base s → IsConsistent base s'
Quiet-IsConsistent s s' (balances, movements, lots, edges, holds) c = record {
  agrees = rw (balances, movements) c.agrees;
  lots_found = rw lots c.lots_found;
  serial_fits = rw (balances, lots) c.serial_fits;
  no_stray = rw (balances, lots) c.no_stray;
  holds = rw holds c.holds;
  held_fixed = rw balances c.held_fixed;
  acyclic = rw edges c.acyclic;
}
