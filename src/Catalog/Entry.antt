-- ===== src/Catalog/Entry.antt =====
-- internal/catalog/catalog.go: the wire format of one item. Its numbers are Go's `int`.
use jellysync.Common.{Str, ℕ}

pub data ℤ : Type 0 where
  pos : ℕ → ℤ
  negsuc : ℕ → ℤ

pub record Entry : Type 0 where
  pub global_id : Str
  pub item_id : Str
  pub name : Str
  pub year : ℤ
  pub media_type : Str
  pub tmdb_id : Str
  pub tvdb_id : Str
  pub imdb_id : Str
  pub path : Str
  pub series_global_id : Str
  pub series_name : Str
  pub season_number : ℤ
  pub episode_number : ℤ
