-- ===== src/Instances/Store.antt =====
-- pkg/instance/repository/instance_repository.go over gorm, which is a record of queries on a
-- database `D` with errors `E`.
use webapp_wago.Base.{Bool, List, Result, ok, err, if◌then◌else◌}
use webapp_wago.Base.Text.{Text}
use webapp_wago.Instances.{Instance, AdvancedSettings}

pub data DbFailure (E : Type 0) : Type 0 where
  bad_uuid : DbFailure E
  db_failed : E → DbFailure E

-- `is_uuid` is whether `uuid.Parse` succeeds. A query that changes rows gives the database after.
pub record Gorm (D E : Type 0) : Type 0 where
  pub is_uuid : Text → Bool
  pub create : Instance → D → Result E Instance × D
  pub first_by_token : Text → D → Result E Instance
  pub first_by_name : Text → D → Result E Instance
  pub first_by_id : Text → D → Result E Instance
  pub save : Instance → D → Result E (Unit {0}) × D
  pub set_connected : Text → Bool → Text → D → Result E (Unit {0}) × D
  pub set_proxy : Text → Text → D → Result E (Unit {0}) × D
  pub set_jid : Text → Text → D → Result E (Unit {0}) × D
  pub set_settings : Text → AdvancedSettings → D → Result E (Unit {0}) × D
  pub find_by_client : Text → D → Result E (List Instance)
  pub find_connected : D → Result E (List Instance)
  pub find_connected_by_client : Text → D → Result E (List Instance)
  pub delete_labels : Text → D → Result E (Unit {0}) × D
  pub delete_messages : Text → D → Result E (Unit {0}) × D
  pub delete_instance : Text → D → Result E (Unit {0}) × D

abbrev pub lift : {E A : Type 0} → Result E A → Result (DbFailure E) A
lift (err e) = err (db_failed e)
lift (ok a) = ok a

abbrev pub lift_on : {D E A : Type 0} → Result E A × D → Result (DbFailure E) A × D
lift_on (r, d) = (lift r, d)

-- The steps of a transaction: the first that fails is the last one.
abbrev pub also :
    {D E : Type 0}
    → Result E (Unit {0}) × D
    → (D → Result E (Unit {0}) × D)
    → Result E (Unit {0}) × D
also (err e, d) next = (err e, d)
also (ok u, d) next = next d

-- A transaction that fails leaves the database as it was.
abbrev pub transaction : {D E : Type 0} → D → Result E (Unit {0}) × D → Result E (Unit {0}) × D
transaction before (err e, d) = (err e, before)
transaction before (ok u, d) = (ok u, d)

module _ {D E : Type 0} (g : Gorm D E) where
  unfoldable pub get_instance_by_id : Text → D → Result (DbFailure E) Instance
  get_instance_by_id i d = if g.is_uuid i then lift (g.first_by_id i d) else err bad_uuid

  abbrev pub get_instance_by_token : Text → D → Result (DbFailure E) Instance
  get_instance_by_token token d = lift (g.first_by_token token d)

  abbrev pub get_instance_by_name : Text → D → Result (DbFailure E) Instance
  get_instance_by_name name d = lift (g.first_by_name name d)

  abbrev pub create_row : Instance → D → Result (DbFailure E) Instance × D
  create_row i d = lift_on (g.create i d)

  abbrev pub update : Instance → D → Result (DbFailure E) (Unit {0}) × D
  update i d = lift_on (g.save i d)

  abbrev pub update_proxy : Text → Text → D → Result (DbFailure E) (Unit {0}) × D
  update_proxy i proxy d = lift_on (g.set_proxy i proxy d)

  abbrev pub update_connected : Text → Bool → Text → D → Result (DbFailure E) (Unit {0}) × D
  update_connected i status reason d = lift_on (g.set_connected i status reason d)

  -- `Delete`: the labels, the messages, then the instance.
  unfoldable pub delete_row : Text → D → Result (DbFailure E) (Unit {0}) × D
  delete_row i d = lift_on (
      transaction d
        (also (g.delete_labels i d) (λ d'. also (g.delete_messages i d') (g.delete_instance i))))

  abbrev pub settings_of : Result E Instance → Result (DbFailure E) AdvancedSettings
  settings_of (err e) = err (db_failed e)
  settings_of (ok i) = ok i.settings

  unfoldable pub get_advanced_settings : Text → D → Result (DbFailure E) AdvancedSettings
  get_advanced_settings i d = if g.is_uuid i then settings_of (g.first_by_id i d) else err bad_uuid

  unfoldable pub update_advanced_settings :
      Text → AdvancedSettings → D → Result (DbFailure E) (Unit {0}) × D
  update_advanced_settings i settings d =
      if g.is_uuid i then lift_on (g.set_settings i settings d) else (err bad_uuid, d)
