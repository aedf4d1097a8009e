-- ===== src/Router/Registry.antt =====
-- `ProtocolRegistry`. A dict is an association list, the newest entry first; the time of an update,
-- which nothing reads, is left out. Ranges are the pairs that `parse_id_ranges` gives, and entries are
-- what the JSON files hold, their keys as `int` reads them (`none` where it raises).
use robot_runtime.Prelude.{
  Bool, List, Option, String, [], false, if◌then◌else◌, is_empty, lower, nat_eq, none, some,
  string_eq, strip, true, ◌&&◌, ◌==◌, ◌||◌, ◌∷◌,
}
use robot_runtime.Prelude.Int.{int_eq, leb_ℤ, ℤ}

unfoldable pub is_valid_protocol : String → Bool
is_valid_protocol proto = proto == "zl" || proto == "lx"

unfoldable pub normalize_protocol : Option String → Option String
unfolding is_valid_protocol
normalize_protocol none = none
normalize_protocol (some value) =
    let proto = lower (strip value) in if is_valid_protocol proto then some proto else none

unfoldable pub match_ranges : ℤ → List (ℤ × ℤ) → Bool
match_ranges sid [] = false
match_ranges sid (range ∷ ranges) =
    leb_ℤ range.0 sid && leb_ℤ sid range.1 || match_ranges sid ranges

pub record CacheEntry : Type 0 where
  pub protocol : String
  pub origin : String

pub record Registry : Type 0 where
  pub manual_map : List (ℤ × String)
  pub cache_map : List (ℤ × CacheEntry)
  pub lx_ranges : List (ℤ × ℤ)
  pub zl_ranges : List (ℤ × ℤ)

-- `dict.get`
unfoldable pub find {ℓ} : {V : Type ℓ} → ℤ → List (ℤ × V) → Option V
find key [] = none
find key (entry ∷ entries) = if key == entry.0 then some entry.1 else find key entries

-- A value of a JSON file: an object with the two fields that are read, or a text.
pub data FileValue : Type 0 where
  fields : Option String → Option String → FileValue
  plain : String → FileValue

unfoldable pub file_protocol : FileValue → Option String
file_protocol (fields protocol source) = normalize_protocol protocol
file_protocol (plain text) = normalize_protocol (some text)

unfoldable pub file_source : FileValue → String
file_source (fields protocol (some source)) = source
file_source (fields protocol none) = "cache"
file_source (plain text) = "cache"

-- One entry of the loop of `load_cache`.
unfoldable pub load_entry : Option ℤ × FileValue → List (ℤ × CacheEntry) → List (ℤ × CacheEntry)
load_entry (none, value) cache = cache
load_entry (some sid, value) cache = elim (file_protocol value) [
  | none ↦ cache
  | some proto ↦ (sid, record { protocol = proto; origin = file_source value }) ∷ cache
]

unfoldable pub load_entries :
    List (Option ℤ × FileValue) → List (ℤ × CacheEntry) → List (ℤ × CacheEntry)
load_entries [] cache = cache
load_entries (entry ∷ entries) cache = load_entries entries (load_entry entry cache)

unfoldable pub load_cache : List (Option ℤ × FileValue) → Registry → Registry
load_cache entries r = record r { cache_map = load_entries entries [] }

-- `str(source or "probe")`
unfoldable pub source_or_probe : String → String
source_or_probe source = if is_empty source then "probe" else source

unfoldable pub put_protocol : ℤ → Option String → String → Registry → Registry
put_protocol sid none source r = r
put_protocol sid (some proto) source r = record r {
  cache_map = (sid, record { protocol = proto; origin = source_or_probe source }) ∷ r.cache_map;
}

unfoldable pub set_protocol : ℤ → String → String → Registry → Registry
set_protocol sid protocol source r = put_protocol sid (normalize_protocol (some protocol)) source r

-- `manual`, where it is a text that is not empty
unfoldable pub given : Option String → Option String
given none = none
given (some text) = if is_empty text then none else some text

-- The cached text, where it normalizes to one of the two.
unfoldable pub kept : Option String → String → Option String
kept none text = none
kept (some proto) text = some text

unfoldable pub cached_protocol : Option CacheEntry → Option String
cached_protocol none = none
cached_protocol (some entry) = kept (normalize_protocol (some entry.protocol)) entry.protocol

unfoldable pub range_protocol : ℤ → Registry → Option String × String
range_protocol sid r =
    if match_ranges sid r.lx_ranges
    then (some "lx", "range")
    else if match_ranges sid r.zl_ranges
    then (some "zl", "range")
    else (none, "unknown")

-- The first of the two that is there, or the ranges.
unfoldable pub by_priority :
    Option String → Option String → Option String × String → Option String × String
by_priority (some manual) cached ranges = (some manual, "manual")
by_priority none (some cached) ranges = (some cached, "cache")
by_priority none none ranges = ranges

unfoldable pub get_protocol : ℤ → Registry → Option String × String
get_protocol sid r =
    by_priority (given (find sid r.manual_map)) (cached_protocol (find sid r.cache_map))
      (range_protocol sid r)

abbrev is_unresolved : Option String → Bool
is_unresolved none = true
is_unresolved (some protocol) = false

unfoldable pub unresolved_ids : List ℤ → Registry → List ℤ
unresolved_ids [] r = []
unresolved_ids (sid ∷ sids) r =
    let rest = unresolved_ids sids r in
    if is_unresolved (get_protocol sid r).0 then sid ∷ rest else rest

-- The loop over the manual map in the constructor.
unfoldable pub manual_entries : List (ℤ × String) → List (ℤ × String) → List (ℤ × String)
manual_entries [] manual = manual
manual_entries (entry ∷ entries) manual = elim (normalize_protocol (some entry.1)) [
  | none ↦ manual_entries entries manual
  | some proto ↦ manual_entries entries ((entry.0, proto) ∷ manual)
]

unfoldable pub new_registry :
    List (ℤ × String) → List (ℤ × ℤ) → List (ℤ × ℤ) → List (Option ℤ × FileValue) → Registry
unfolding load_cache manual_entries
new_registry manual lx_ranges zl_ranges entries = load_cache entries (record {
  manual_map = manual_entries manual [];
  cache_map = [];
  lx_ranges = lx_ranges;
  zl_ranges = zl_ranges;
})
