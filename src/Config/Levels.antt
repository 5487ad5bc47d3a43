-- ===== src/Config/Levels.antt =====
-- src/config.rs: the level functions.
use justdbd.Common.{ℕ, zero, suc, ◌≡◌, ◌≢◌, refl, none, arith}
use justdbd.Common.Float.{F64}
use justdbd.Config.{Config, level_max_sstables}

-- For a level other than 0 `level_max_sstables` returns for no depth of the stack.
pub level_max_sstables_diverges :
    {f : F64} (c : Config f) (stack level : ℕ) → level ≢ 0 → level_max_sstables stack c level ≡ none
unfolding level_max_sstables
level_max_sstables_diverges c zero level h = refl
level_max_sstables_diverges c (suc stack) level h =
    ground (arith, level_max_sstables_diverges c stack level h)
