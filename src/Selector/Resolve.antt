-- ===== src/Selector/Resolve.antt =====
-- internal/selector/selector.go: the choice among the candidates. The pool that may answer for them is an
-- argument.
pub mod Choice
pub mod Report
use spyder.Prelude.{
  Bool, true, false, not, ◌&&◌, Option, none, some, List, [], ◌∷◌, map, if◌then◌else◌, select, take,
}
use spyder.Prelude.Bytes.{Bytes, is_blank}
use spyder.Selector.Match.{Selector, Info, Candidate, Predicate, match_candidate}

-- `failed` is `none` for a candidate that matches, which is never reported.
pub record NearMiss : Type 0 where
  pub uuid : Bytes
  pub alias : Bytes
  pub failed : Option Predicate

pub data Failure : Type 0 where
  platform_required : Failure
  pool_failed : Bytes → Failure
  no_match : List NearMiss → Failure

pub data Result : Type 0 where
  ok : Info → Result
  err : Failure → Result

-- What the pool answers: an identifier, which is blank if it has nothing, or an error.
pub data Answer : Type 0 where
  found : Bytes → Answer
  failed : Bytes → Answer

abbrev pub matches : Selector → Candidate → Bool
matches sel c = elim (match_candidate sel c) [ none ↦ true | some p ↦ false ]

-- The loop over the candidates: those that match and are free, and those that do not match.
unfoldable pub free_matches : Selector → List Candidate → List Candidate
free_matches sel = select (λ c. matches sel c && not c.is_reserved)

unfoldable pub misses : Selector → List Candidate → List Candidate
misses sel = select (λ c. not (matches sel c))

abbrev pub near_miss : Selector → Candidate → NearMiss
near_miss sel c = record {
  uuid = c.info.uuid;
  alias = c.entry.alias;
  failed = match_candidate sel c;
}

unfoldable pub report : Selector → List Candidate → Result
unfolding misses
report sel cs = err (no_match (map (near_miss sel) (take 3 (misses sel cs))))

abbrev pooled : Selector → Bytes → Info
pooled sel uuid = record { uuid = uuid; platform = sel.platform; model = []; os = [] }

unfoldable pub ask_pool : Selector → List Candidate → Option (Selector → Answer) → Result
unfolding report
ask_pool sel cs none = report sel cs
ask_pool sel cs (some pool) = elim (pool sel) [
  | failed text ↦ err (pool_failed text)
  | found uuid ↦ if is_blank uuid then report sel cs else ok (pooled sel uuid)
]

-- The first of a list, or what follows.
abbrev pub first_info : List Candidate → Result → Result
first_info [] later = later
first_info (c ∷ cs) later = ok c.info

unfoldable pub resolve : Selector → List Candidate → Option (Selector → Answer) → Result
unfolding free_matches
resolve sel cs pool =
    let free = free_matches sel cs in
    if is_blank sel.platform
    then err platform_required
    else first_info (select (λ c. not c.is_sim_or_emu) free)
        (first_info (select (λ c. c.is_sim_or_emu) free) (ask_pool sel cs pool))
