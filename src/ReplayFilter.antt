-- ===== src/ReplayFilter.antt =====
-- common/replayfilter/replay_filter.go: the filter that tells whether a byte string has been seen
-- within a time to live. Times are nanoseconds; a `ttl` that is not positive is 0.
pub mod Valid
pub mod Window
pub mod Replays
use wfdef.Prelude.{
  ℕ, ◌+◌, ◌-◌, ◌*◌, Bool, true, false, ◌&&◌, Option, none, some, List, [], ◌∷◌, ◌++◌, Bytes, length,
  ltb, ◌==◌, if◌then◌else◌,
}

unfoldable pub max_filter_size : ℕ
max_filter_size = 100 * 1024

pub record Entry : Type 0 where
  pub digest : ℕ
  pub first_seen : ℕ

-- The key is in `hash`, which stands for SipHash under the key. `element` of an entry is its place
-- in `fifo`.
pub record ReplayFilter : Type 0 where
  pub filter : ℕ → Option Entry
  pub fifo : List Entry
  pub hash : Bytes → ℕ
  pub ttl : ℕ

abbrev pub empty : ℕ → Option Entry
empty k = none

abbrev pub delete : (ℕ → Option Entry) → ℕ → (ℕ → Option Entry)
delete m d k = if k == d then none else m k

abbrev pub put : (ℕ → Option Entry) → ℕ → Entry → (ℕ → Option Entry)
put m d e k = if k == d then some e else m k

-- `New`, given the key.
abbrev pub new : (Bytes → ℕ) → ℕ → ReplayFilter
new hash ttl = record { filter = empty; fifo = []; hash = hash; ttl = ttl }

unfoldable pub reset : ReplayFilter → ReplayFilter
reset f = record f { filter = empty; fifo = [] }

-- The loop of `compactFilter`, from the front of `fifo`.
unfoldable pub compact_from : ReplayFilter → ℕ → List Entry → (ℕ → Option Entry) → ReplayFilter
unfolding reset
compact_from f now [] m = record f { filter = m; fifo = [] }
compact_from f now (e ∷ next) m =
    let rest = compact_from f now next (delete m e.digest) in
    if ltb (length (e ∷ next)) max_filter_size && ltb 0 f.ttl
    then (if ltb now e.first_seen
        then reset f
        else if ltb (now - e.first_seen) f.ttl
        then record f { filter = m; fifo = e ∷ next }
        else rest)
    else rest

unfoldable pub compact_filter : ReplayFilter → ℕ → ReplayFilter
compact_filter f now = compact_from f now f.fifo f.filter

-- A miss adds a new entry.
unfoldable pub set : ReplayFilter → ℕ → ℕ → ReplayFilter
set f now d =
    let e : Entry = record { digest = d; first_seen = now } in
    record f { filter = put f.filter d e; fifo = f.fifo ++ (e ∷ []) }

-- What `TestAndSet` does on the entry that the map has for the digest.
unfoldable pub on_lookup : ReplayFilter → ℕ → ℕ → Option Entry → ReplayFilter × Bool
on_lookup g now d (some e) = (g, true)
on_lookup g now d none = (set g now d, false)

unfoldable pub test_and_set : ReplayFilter → ℕ → Bytes → ReplayFilter × Bool
unfolding on_lookup
test_and_set f now buf =
    let g = compact_filter f now in on_lookup g now (f.hash buf) (g.filter (f.hash buf))
