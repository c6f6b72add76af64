-- ===== src/Tables/DroneLookup.antt =====
-- What a select of a drone finds after each statement that writes drones.
use drone_management_system.Base.{
  ◌≡◌, refl, none, some, String, ◌==◌, List, [], ◌∷◌, ◌++◌, arith, eq_iff, if◌then◌else◌,
  Option-cases, inl, inr,
}
use drone_management_system.Domain.{Drone}
use drone_management_system.Rows.{DroneRow, scan_drone, drone_insert_values, drone_update_values}
use drone_management_system.Rows.RoundTrip.{scan_drone-insert_update}
use drone_management_system.Tables.{
  Db, drone_select_by_id, drone_update, find_drone, put_drone, new_drone,
}

-- A stored drone has the identifier that it was found by.
id-drone_select_by_id :
    (id : String) (rows : List DroneRow) {found : DroneRow}
    → drone_select_by_id id rows ≡ some found
    → found.id ≡ id
unfolding drone_select_by_id
id-drone_select_by_id id [] h = cc
id-drone_select_by_id id (row ∷ rows) {found = r} h =
    ground (arith, eq_iff row.id id, id-drone_select_by_id id rows {found = r})

pub id-find_drone : (id : String) (d : Db) {o : Drone} → find_drone id d ≡ some o → o.id ≡ id
unfolding find_drone scan_drone
id-find_drone id d h = elim (Option-cases (drone_select_by_id id d.drones)) [
  | inl e ↦ ground arith
  | inr (row, e) ↦ ground (arith, id-drone_select_by_id id d.drones e)
]

-- A row selected after an update is the row of before, with the new values if it was updated.
select-drone_update :
    (drone : Drone) (id : String) (rows : List DroneRow) {found : DroneRow}
    → drone_select_by_id id rows ≡ some found
    → drone_select_by_id id (drone_update drone rows)
      ≡ some (if drone.id == id then drone_update_values drone found else found)
unfolding drone_select_by_id drone_update drone_update_values
select-drone_update drone id [] h = cc
select-drone_update drone id (row ∷ rows) {found = r} h = ground (
  arith,
  eq_iff row.id id,
  eq_iff row.id drone.id,
  eq_iff drone.id id,
  select-drone_update drone id rows {found = r},
)

select-drone_update-none :
    (drone : Drone) (id : String) (rows : List DroneRow)
    → drone_select_by_id id rows ≡ none
    → drone_select_by_id id (drone_update drone rows) ≡ none
unfolding drone_select_by_id drone_update drone_update_values
select-drone_update-none drone id [] h = refl
select-drone_update-none drone id (row ∷ rows) h =
    ground (arith, eq_iff row.id id, select-drone_update-none drone id rows)

select-drone_insert :
    (drone : Drone) (id : String) (rows : List DroneRow)
    → drone_select_by_id drone.id rows ≡ none
    → drone_select_by_id id (rows ++ drone_insert_values drone ∷ [])
      ≡ (if drone.id == id then some (drone_insert_values drone) else drone_select_by_id id rows)
unfolding drone_select_by_id drone_insert_values
select-drone_insert drone id [] h = refl
select-drone_insert drone id (row ∷ rows) h = ground (
  arith,
  eq_iff row.id id,
  eq_iff row.id drone.id,
  eq_iff drone.id id,
  select-drone_insert drone id rows,
)

created-scan_drone : (row : DroneRow) → (scan_drone row).created_at ≡ row.created_at
unfolding scan_drone
created-scan_drone row = refl

-- After an update of a drone that is there, with its time of creation, a select finds the drone.
pub find_drone-put_drone :
    (drone : Drone) (d : Db) {old : Drone}
    → find_drone drone.id d ≡ some old
    → drone.created_at ≡ old.created_at
    → (id : String)
    → find_drone id (put_drone drone d) ≡ (if drone.id == id then some drone else find_drone id d)
unfolding find_drone put_drone
find_drone-put_drone drone d h created id = elim (Option-cases (drone_select_by_id id d.drones)) [
  | inl e ↦ ground (arith, eq_iff drone.id id, select-drone_update-none drone id d.drones e)
  | inr (row, e) ↦ ground (
    arith,
    eq_iff drone.id id,
    select-drone_update drone id d.drones e,
    id-drone_select_by_id id d.drones e,
    created-scan_drone row,
    (scan_drone-insert_update drone row).1,
  )
]

-- After an insert of a new drone a select finds it.
pub find_drone-new_drone :
    (drone : Drone) (d : Db)
    → find_drone drone.id d ≡ none
    → (id : String)
    → find_drone id (new_drone drone d) ≡ (if drone.id == id then some drone else find_drone id d)
unfolding find_drone new_drone
find_drone-new_drone drone d h id = elim (Option-cases (drone_select_by_id drone.id d.drones)) [
  | inl e ↦ ground (
    arith,
    select-drone_insert drone id d.drones e,
    (scan_drone-insert_update drone (drone_insert_values drone)).0,
  )
  | inr (row, e) ↦ ground arith
]
