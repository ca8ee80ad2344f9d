-- ===== src/Catalog/Status.antt =====
-- internal/catalog/status.go: the pages of films that the dashboard asks for. `like` is SQLite's
-- LIKE with a backslash as its escape, and `order` what its ORDER BY name makes of rows: nothing is
-- said of where it puts rows of the same name.
pub mod Search
pub mod Selected
pub mod Pages
pub mod Examples
use jellysync.Common.{
  Str, str_eq, str_lt, is_empty, lit, ◌==◌, ◌||◌, ◌&&◌, ℕ, zero, suc, ltb, Bool, true, false, not,
  Option, none, some, List, [], ◌∷◌, ◌++◌, take, length, if◌then◌else◌,
}
use jellysync.Common.Bytes.{split_commas, trim_space}
use jellysync.Common.Table.{Table, retain, order_by, has}
use jellysync.Catalog.Entry.{ℤ, pos, negsuc}
use jellysync.Catalog.Hidden.{Hides}
use jellysync.Catalog.Folders.{contains}
use jellysync.Catalog.Changes.{Param, absent, malformed, number}
use jellysync.Catalog.Items.{Item, bool_eq}
use jellysync.Catalog.Visibility.{series_key_of}

abbrev pub default_items_limit : ℕ
default_items_limit = 50

abbrev pub max_items_limit : ℕ
max_items_limit = 200

unfoldable pub limit_param : Param → Option ℕ
limit_param absent = some default_items_limit
limit_param malformed = none
limit_param (number (negsuc n)) = none
limit_param (number (pos zero)) = none
limit_param (number (pos (suc n))) =
    some (if ltb max_items_limit (suc n) then max_items_limit else suc n)

unfoldable pub offset_param : Param → Option ℕ
offset_param absent = some 0
offset_param malformed = none
offset_param (number (negsuc n)) = none
offset_param (number (pos n)) = some n

-- parsePageParams; `none` is its bad request.
unfoldable pub page_params : Param → Param → Option (ℕ × ℕ)
unfolding limit_param offset_param
page_params limit offset = elim (limit_param limit) [
  | none ↦ none
  | some l ↦ elim (offset_param offset) [ none ↦ none | some o ↦ some (l, o) ]
]

-- Whether the sources that are asked for name the one of a row.
unfoldable pub owned_by : List Str → Item → Bool
owned_by [] i = false
owned_by (o ∷ os) i =
    let rest = owned_by os i in
    let owner = trim_space o in
    if is_empty owner
    then rest
    else if str_eq owner (lit "local")
    then i.state.local || rest
    else (not i.state.local && str_eq i.state.peer_id owner) || rest

-- ownerFilter
unfoldable pub owner_filter : Option Str → Item → Bool
unfolding split_commas owned_by
owner_filter none i = true
owner_filter (some owners) i = owned_by (split_commas [] owners) i

unfoldable pub escape_like : Str → Str
escape_like [] = []
escape_like (c ∷ s) =
    let rest = escape_like s in
    if c == 0x5c || c == b'%' || c == b'_' then 0x5c ∷ c ∷ rest else c ∷ rest

-- searchPattern
unfoldable pub search_pattern : Str → Option Str
unfolding escape_like
search_pattern q =
    let t = trim_space q in if is_empty t then none else some (lit "%" ++ escape_like t ++ lit "%")

pub record ItemDto : Type 0 where
  pub global_id : Str
  pub name : Str
  pub media_type : Str
  pub local : Bool
  pub primary_peer_id : Str
  pub strm_path : Str
  pub path : Str
  pub series_global_id : Str
  pub series_name : Str
  pub season_number : ℤ
  pub episode_number : ℤ
  pub hidden : Bool
  pub hide_pending : Bool
  pub hidden_folder : Bool
  pub stream_peer_id : Str
  pub stream_item_id : Str

unfoldable pub hidden_wanted : Hides → Str → Item → Bool
hidden_wanted hides id i =
    has (if str_eq i.state.media_type (lit "episode") then series_key_of id i.state else id) hides

-- Where the item is streamed from.
unfoldable pub stream_of : Item → Str × Str
stream_of i =
    if str_eq i.state.media_type (lit "series")
    then ([], [])
    else if i.state.local
    then (lit "local", i.state.local_item_id)
    else if not (is_empty i.state.peer_id) && not (is_empty i.state.peer_item_id)
    then (i.state.peer_id, i.state.peer_item_id)
    else ([], [])

-- scanItemRows
unfoldable pub scan_item : Hides → Str → Item → ItemDto
unfolding hidden_wanted stream_of
scan_item hides id i = record {
  global_id = id;
  name = i.state.name;
  media_type = i.state.media_type;
  local = i.state.local;
  primary_peer_id = i.state.peer_id;
  strm_path = elim i.strm_path [ none ↦ [] | some p ↦ p ];
  path = i.state.path;
  series_global_id = i.state.series_global_id;
  series_name = i.state.series_name;
  season_number = i.state.season_number;
  episode_number = i.state.episode_number;
  hidden = hidden_wanted hides id i;
  hide_pending = not (bool_eq (hidden_wanted hides id i) i.state.hidden);
  hidden_folder = i.state.hidden_folder;
  stream_peer_id = (stream_of i).0;
  stream_item_id = (stream_of i).1;
}

unfoldable pub scan_items : Hides → Table Item → List ItemDto
unfolding scan_item
scan_items hides [] = []
scan_items hides ((id, i) ∷ rows) = scan_item hides id i ∷ scan_items hides rows

-- OFFSET
unfoldable pub skip {ℓ} : {A : Type ℓ} → ℕ → List A → List A
skip zero xs = xs
skip (suc n) [] = []
skip (suc n) (x ∷ xs) = skip n xs

pub record ItemsPage : Type 0 where
  pub items : List ItemDto
  pub total : ℕ
  pub limit : ℕ
  pub offset : ℕ

module _ (like : Str → Str → Bool) (owners : Option Str) (q : Str) where
  unfoldable pub is_listed : Item → Bool
  is_listed i =
      str_eq i.state.media_type (lit "movie")
      && owner_filter owners i
      && elim (search_pattern q) [ none ↦ true | some pattern ↦ like pattern i.state.name ]

  -- The rows that both queries of servePagedMovies select.
  unfoldable pub movies : Table Item → Table Item
  unfolding is_listed
  movies items = retain (λ _ i. is_listed i) items

  -- servePagedMovies; `none` is its bad request.
  unfoldable pub paged_movies :
      (Table Item → Table Item) → Hides → Table Item → Param → Param → Option ItemsPage
  unfolding movies page_params
  paged_movies order hides items limit offset = elim (page_params limit offset) [
    | none ↦ none
    | some (l, o) ↦ some (record {
      items = scan_items hides (take l (skip o (order (movies items))));
      total = length (movies items);
      limit = l;
      offset = o;
    })
  ]
