-- ===== src/Publications/Lookup.antt =====
-- app/applicant/publications.py: `CrossrefPublicationLookup` with its cache of bounded size, in
-- which the entry that was used last stands last. The transport is an argument.
pub mod Bounds
pub mod Repeats
use ehf_applications.Prelude.{
  ℕ, zero, suc, ◌+◌, String, Bool, true, false, not, ◌&&◌, ◌||◌, Option, none, some, List, [], ◌∷◌,
  ◌++◌, ◌==◌, nat_eq, string_eq, if◌then◌else◌, leb, ltb, length, drop, joined, Result, ok, err,
  Action, pure, raise, gets,
}
use ehf_applications.Prelude.Dict.{Dict, get, put, remove}
use ehf_applications.Store.{Bytes}
use ehf_applications.Publications.Doi.{InvalidDoi, normalize_doi}
use ehf_applications.Publications.Metadata.{
  Python, Metadata, LookupError, unavailable, not_found, invalid, metadata_of,
}

-- An OrderedDict
abbrev pub Cache : Type 0
Cache = Dict String Metadata

-- A status and a body, or PublicationLookupUnavailable, an OSError or a timeout
pub data Answer : Type 0 where
  answered : ℕ → Bytes → Answer
  failed : Answer

-- the constructor's arguments; times in milliseconds
pub record Settings : Type 0 where
  pub timeout : ℕ
  pub maximum : ℕ
  pub cache_size : ℕ

-- ValueError by its message
pub data SettingError : Type 0 where
  bad_timeout bad_maximum bad_cache_size : SettingError

pub new_lookup : ℕ → ℕ → ℕ → Result SettingError Settings
new_lookup timeout maximum cache_size =
    if not (ltb 0 timeout && leb timeout 15000)
    then err bad_timeout
    else if not (leb 1 maximum && leb maximum 2000000)
    then err bad_maximum
    else if not (leb 1 cache_size && leb cache_size 2048)
    then err bad_cache_size
    else ok (record { timeout = timeout; maximum = maximum; cache_size = cache_size })

-- cache.move_to_end(doi), at a key that is there
unfoldable pub move_to_end : String → Cache → Cache
move_to_end doi cache = elim (get cache doi) [
  | none ↦ cache
  | some metadata ↦ remove cache doi ++ (doi, metadata) ∷ []
]

-- while len(cache) > size: cache.popitem(last=False)
unfoldable pub evict : ℕ → ℕ → Cache → Cache
evict zero size cache = cache
evict (suc fuel) size cache =
    let rest = evict fuel size (drop 1 cache) in if ltb size (length cache) then rest else cache

-- cache[doi] = metadata; cache.move_to_end(doi); and the loop, which has no more rounds than entries
unfoldable pub store : ℕ → String → Metadata → Cache → Cache
unfolding move_to_end evict
store size doi metadata cache =
    let moved = move_to_end doi (put cache doi metadata) in evict (length moved) size moved

module _ {F : Type 0} (python : Python F) (settings : Settings) where
  open python use {casefold, decimal, quote}

  abbrev pub url_of : String → String
  url_of doi =
      joined "https://api.crossref.org/works/"
        (joined (quote doi "") "?mailto=adriano.aguzzi%40isab.science")

  -- the part after the transport, without the lock
  unfoldable pub read_answer : String → Answer → Result LookupError Metadata
  read_answer doi failed = err unavailable
  read_answer doi (answered status payload) =
      if status == 404
      then err not_found
      else if not (status == 200) || ltb settings.maximum (length payload)
      then err unavailable
      else metadata_of python payload doi

  abbrev keep_answer : String → Result LookupError Metadata → Action Cache LookupError Metadata
  keep_answer doi (err e) cache = (err e, cache)
  keep_answer doi (ok metadata) cache = (ok metadata, store settings.cache_size doi metadata cache)

  -- Nothing else runs between the two sections that hold the lock.
  unfoldable pub lookup_doi : (String → Answer) → String → Action Cache LookupError Metadata
  unfolding store read_answer move_to_end
  lookup_doi transport doi cache = elim (get cache doi) [
    | some metadata ↦ (ok metadata, move_to_end doi cache)
    | none ↦ keep_answer doi (read_answer doi (transport (url_of doi))) cache
  ]

  unfoldable pub lookup : (String → Answer) → Option String → Action Cache LookupError Metadata
  unfolding lookup_doi
  lookup transport raw_doi cache = elim (normalize_doi casefold decimal raw_doi) [
    | err e ↦ (err invalid, cache)
    | ok doi ↦ lookup_doi transport doi cache
  ]
