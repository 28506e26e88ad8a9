-- ===== src/Service.antt =====
-- src/immich_bridge/fs_service.py, `ImmichFilesystem`: the client that it asks, the state of a request,
-- and the search that reads all pages. The memo and the methods are in the modules below.
pub mod Filters
pub mod Sets
pub mod Memo
pub mod Buckets
pub mod Folders
pub mod Recalls
pub mod Ends
pub mod Whole
pub mod Loads
pub mod Settled
pub mod Operations
pub mod Refines
pub mod Days
pub mod Opens
pub mod Years
mod Tests
use immich_bridge.Prelude.{
  ℕ, zero, suc, Bool, true, false, Option, none, some, List, [], ◌∷◌, ◌++◌, leb, if◌then◌else◌,
}
use immich_bridge.Json.{ℤ, pos, negsuc, Value, null, bool, int, str, arr, obj, Fields, truthy}
use immich_bridge.FsModel.{Date, DateRange}
use immich_bridge.Text.{codes, parse_int}
use immich_bridge.Provider.{AlbumEntry, Asset, Source, Provider}
use immich_bridge.Assets.{Formats}

-- What a call of `ImmichFilesystem` gives: a value, an `ImmichApiError` with its status, a
-- `SearchTruncatedError`, another exception, or no end within the rounds that are followed.
pub data Answer {ℓ} (A : Type ℓ) : Type ℓ where
  found : A → Answer A
  api_error : Option ℕ → Answer A
  truncated other_error unfinished : Answer A

pub record SearchPage : Type 0 where
  pub items : List Asset
  pub next_page : Value
  pub total : Option ℤ

-- What is asked of the client: a page of a search with its size and filters, the albums, or the
-- month buckets of all assets or of the favorites.
pub data Call : Type 0 where
  search_assets : ℤ → ℕ → Fields → Call
  list_albums : Call
  timeline_buckets : Bool → Call

-- The client's answers, which may depend on what it was asked before, newest first.
pub record Client : Type 0 where
  pub search : List Call → ℤ → ℕ → Fields → Answer SearchPage
  pub albums : List Call → Answer (List Fields)
  pub buckets : List Call → Bool → Answer (List Fields)

-- `ImmichFilesystem`, without its memo; `rounds` is how many rounds of the loop over pages are
-- followed. The last two are what the naming of albums and assets takes from outside.
pub record ImmichFilesystem : Type 0 where
  pub client : Client
  pub search_page_size : ℕ
  pub search_max_pages : ℕ
  pub day_folder_split_threshold : ℤ
  pub rounds : ℕ
  pub provider : Provider
  pub formats : Formats

-- The keys of the memo. A view's filters, and those of a search, are compared frozen.
pub data Key : Type 0 where
  albums_key : Key
  range_has_assets_key : Source → DateRange → Key
  date_bounds_key : Source → Key
  month_buckets_key : Bool → Key
  should_split_key : Source → DateRange → Key
  search_all_key : Fields → Key

-- The values of the memo.
pub data Stored : Type 0 where
  album_list : List AlbumEntry → Stored
  flag : Bool → Stored
  date_pair : Option (Date × Date) → Stored
  month_list : Option (List Date) → Stored
  asset_list : List Asset → Stored

-- What a call changes: the memo, the newest entry last, and what was asked of the client.
pub record Session : Type 0 where
  pub memo : List (Key × Stored)
  pub calls : List Call

abbrev pub Run {ℓ} : Type ℓ → Type ℓ
Run A = Session → Answer A × Session

abbrev pub and_then {ℓ κ} :
    {A : Type ℓ} {B : Type κ} → Answer A × Session → (A → Run B) → Answer B × Session
and_then (found a, s) f = f a s
and_then (api_error status, s) f = (api_error status, s)
and_then (truncated, s) f = (truncated, s)
and_then (other_error, s) f = (other_error, s)
and_then (unfinished, s) f = (unfinished, s)

infixl 5 ◌>>=◌
abbrev pub ◌>>=◌ {ℓ κ} : {A : Type ℓ} {B : Type κ} → Run A → (A → Run B) → Run B
(m >>= f) s = and_then (m s) f

abbrev pub give {ℓ} : {A : Type ℓ} → Answer A → Run A
give a s = (a, s)

abbrev pub done {ℓ} : {A : Type ℓ} → A → Run A
done a = give (found a)

-- A `ValueError` where there is no value.
abbrev pub or_error {ℓ} : {A : Type ℓ} → Option A → Run A
or_error none = give other_error
or_error (some a) = done a

-- `page <= max_pages`
unfoldable pub within : ℤ → ℕ → Bool
within (pos n) cap = leb n cap
within (negsuc n) cap = true

abbrev parsed_page : Option ℤ → Answer ℤ
parsed_page none = api_error none
parsed_page (some n) = found n

-- `int(next_page)`, with a `ValueError` as an `ImmichApiError`; another type is a `TypeError`
unfoldable pub page_of : Value → Answer ℤ
page_of (str s) = parsed_page (parse_int (codes s))
page_of (int n) = found n
page_of (bool true) = found (pos 1)
page_of (bool false) = found (pos 0)
page_of null = other_error
page_of (arr vs) = other_error
page_of (obj fs) = other_error

-- One round of the loop of `search_all_assets`, after its request; `loop` is the rounds that follow.
unfoldable pub next_round :
    (ℤ → Value → List Asset → Run (List Asset)) → List Asset → SearchPage → Run (List Asset)
unfolding page_of
next_round loop read page =
    if truthy page.next_page
    then give (page_of page.next_page) >>= (λ n. loop n page.next_page (read ++ page.items))
    else done (read ++ page.items)

module _ (fs : ImmichFilesystem) where
  -- `self._client.search_assets`, of a page of a search
  unfoldable pub ask : ℤ → ℕ → Fields → Run SearchPage
  ask page size filters s = (
    fs.client.search s.calls page size filters,
    record s { calls = search_assets page size filters ∷ s.calls },
  )

  -- The loop of `search_all_assets`, with what follows it: the pages from `page` on, after the assets
  -- that were read and the `nextPage` that led here.
  unfoldable pub search_loop : ℕ → Fields → ℤ → Value → List Asset → Run (List Asset)
  unfolding within ask next_round
  search_loop zero filters page next_page read = give unfinished
  search_loop (suc fuel) filters page next_page read =
      if within page fs.search_max_pages
      then ask page fs.search_page_size filters >>= next_round (search_loop fuel filters) read
      else give (if truthy next_page then truncated else found read)

  -- The loader of `search_all_assets`.
  unfoldable pub load_search_all : Fields → Run (List Asset)
  unfolding search_loop
  load_search_all filters = search_loop fs.rounds filters (pos 1) null []
