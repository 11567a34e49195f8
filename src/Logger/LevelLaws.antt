-- ===== src/Logger/LevelLaws.antt =====
-- Which calls the level of the root logger lets through.
use ocm_service_common.Common.{Bool, true, ◌≡◌, leb, arith, ◌&&◌, not}
use ocm_service_common.Logger.Level.{is_no_level, is_disabled, rank, Level, log_level_enabled}

-- A level that is at least as severe as an enabled one is enabled too, at every level of the root logger.
log_level_enabled-upward :
    (root low high : Level)
    → leb (rank low) (rank high) ≡ true
    → log_level_enabled root low ≡ true
    → log_level_enabled root high ≡ true
unfolding log_level_enabled
log_level_enabled-upward root low high h k =
    raised (not (is_disabled root)) (not (is_no_level root)) k
  where
    raised :
        (p q : Bool)
        → (p && (q && leb (rank root) (rank low))) ≡ true
        → (p && (q && leb (rank root) (rank high))) ≡ true
    raised p q k = ground arith
