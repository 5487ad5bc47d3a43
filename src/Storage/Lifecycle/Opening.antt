-- ===== src/Storage/Lifecycle/Opening.antt =====
-- src/storage.rs: a configuration that `open` refuses.
use justdbd.Common.{◌≡◌, refl, String}
use justdbd.Common.Float.{F64}
use justdbd.Common.Outcome.{err}
use justdbd.Config.{Config, validate}
use justdbd.Error
use justdbd.MemTable.{Clock}
use justdbd.Storage.Lifecycle.{open_engine}
use justdbd.Storage.Tables.{Tables}

-- The error is that of the validation, and no file is touched.
pub open_engine-refused :
    {f : F64} (t : Tables f) (now : Clock) (c : Config f) (disk : t.Disk) (message : String)
    → validate c ≡ err message
    → open_engine t now c disk ≡ (err (Error.config message), disk)
unfolding open_engine
open_engine-refused t now c disk message h = rw (open_engine, h) refl
