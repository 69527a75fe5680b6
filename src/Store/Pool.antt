-- ===== src/Store/Pool.antt =====
-- control-plane/internal/store/store.go: opening the pool. `Driver` is what pgx answers for a URL,
-- and what the database there holds.
use dota_cuck.Prelude.{ℕ, String, Bool, if◌then◌else◌}
use dota_cuck.Prelude.Result.{Result, ok, err}
use dota_cuck.Store.Schema.{Db}

pub record Driver : Type 0 where
  pub opens : String → Bool
  pub pings : String → Bool
  pub tables : String → Db

pub data PoolError : Type 0 where
  open_pool ping : PoolError

-- `Store`
pub record Store : Type 0 where
  pub db : Db

-- `New`, with the number of pools that it leaves open.
unfoldable pub new_store : Driver → String → Result PoolError Store × ℕ
new_store driver url =
    if driver.opens url
    then (if driver.pings url then (ok (record { db = driver.tables url }), 1) else (err ping, 0))
    else (err open_pool, 0)
