-- ===== src/Config.antt =====
-- include/server/config.h
use log_aggregator_c.Base.{ℕ}

abbrev pub default_get_limit : ℕ
default_get_limit = 10

abbrev pub cache_size : ℕ
cache_size = 1000

abbrev pub page_size : ℕ
page_size = 100

abbrev pub pages_in_cache : ℕ
pages_in_cache = 10

abbrev pub queue_capacity : ℕ
queue_capacity = 1024
