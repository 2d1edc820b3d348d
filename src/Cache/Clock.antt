-- ===== src/Cache/Clock.antt =====
-- pkg/gcs/fs/attrcache.go: the clock that the caches of the process share, with the goroutines that
-- drive it. A channel is a number, and a goroutine is the channel that it waits for; a list of steps
-- is any interleaving of the sections of the calls and the goroutines. A start has four: it enters
-- `once.Do`, makes the channel under the mutex, launches the goroutine, and leaves `once.Do`.
pub mod Ticking
use caddy_fs_gcs.Base.{
  ℕ, ◌+◌, Bool, true, false, not, ◌&&◌, Option, none, some, List, [], ◌∷◌, ◌==◌, if◌then◌else◌,
  ◌>>=◌,
}

-- How far the call is that runs inside `once.Do`, which lets one in.
pub data Inside : Type 0 where
  outside : Inside
  entered : Inside
  has_made : (channel : ℕ) → Inside
  launched : Inside

-- `sharedClock`, how many channels have been made and which are closed, and the goroutines.
pub record Clock : Type 0 where
  pub val : ℕ
  pub once_done : Bool
  pub inside : Inside
  pub done : Option ℕ
  pub made : ℕ
  pub closed : ℕ → Bool
  pub goroutines : List ℕ

abbrev pub process_start : Clock
process_start = record {
  val = 0;
  once_done = false;
  inside = outside;
  done = none;
  made = 0;
  closed = λ ch. false;
  goroutines = [];
}

-- `sharedClock.once.Do` in `newAttrCache`, up to the call of its function: nothing when it is done, and
-- one that finds another inside waits.
abbrev pub enter_at : Inside → Clock → Clock
enter_at outside c = if c.once_done then c else record c { inside = entered }
enter_at i c = c

unfoldable pub enter : Clock → Clock
enter c = enter_at c.inside c

-- `initSharedClock`: the section of the mutex
abbrev pub make_at : Inside → Clock → Clock
make_at entered c = record c { done = some c.made; made = c.made + 1; inside = has_made c.made }
make_at i c = c

unfoldable pub make_channel : Clock → Clock
make_channel c = make_at c.inside c

-- `initSharedClock`: the first reading and the goroutine
abbrev pub launch_at : Inside → ℕ → Clock → Clock
launch_at (has_made ch) now c = record c {
  val = now;
  goroutines = ch ∷ c.goroutines;
  inside = launched;
}
launch_at i now c = c

unfoldable pub launch : ℕ → Clock → Clock
launch now c = launch_at c.inside now c

-- The end of `once.Do`
abbrev pub finish_at : Inside → Clock → Clock
finish_at launched c = record c { once_done = true; inside = outside }
finish_at i c = c

unfoldable pub finish : Clock → Clock
finish c = finish_at c.inside c

abbrev close : ℕ → Clock → Clock
close ch c = record c { closed = λ k. if k == ch then true else c.closed k }

abbrev close_done : Option ℕ → Clock → Clock
close_done none c = c
close_done (some ch) c = record (if c.closed ch then c else close ch c) { done = none }

unfoldable pub stop_shared_clock : Clock → Clock
stop_shared_clock c = record (close_done c.done c) { once_done = false }

unfoldable pub waits : ℕ → List ℕ → Bool
waits ch [] = false
waits ch (k ∷ ks) = if k == ch then true else waits ch ks

unfoldable pub remove : ℕ → List ℕ → List ℕ
remove ch [] = []
remove ch (k ∷ ks) = let rest = remove ch ks in if k == ch then ks else k ∷ rest

-- The two cases of the goroutine's `select`: the ticker, also after the channel is closed, and the
-- channel, once it is closed.
unfoldable pub tick : ℕ → ℕ → Clock → Clock
tick ch now c = if waits ch c.goroutines then record c { val = now } else c

unfoldable pub leave : ℕ → Clock → Clock
leave ch c =
    if waits ch c.goroutines && c.closed ch
    then record c { goroutines = remove ch c.goroutines }
    else c

-- `(*attrCache).now`
abbrev pub now : Clock → ℕ
now c = c.val

pub data ClockStep : Type 0 where
  enters : ClockStep
  makes : ClockStep
  launches : (time : ℕ) → ClockStep
  finishes : ClockStep
  stops : ClockStep
  ticks : (channel time : ℕ) → ClockStep
  leaves : (channel : ℕ) → ClockStep

unfoldable pub advance : ClockStep → Clock → Clock
advance enters c = enter c
advance makes c = make_channel c
advance (launches t) c = launch t c
advance finishes c = finish c
advance stops c = stop_shared_clock c
advance (ticks ch t) c = tick ch t c
advance (leaves ch) c = leave ch c

abbrev pub is_outside : Inside → Bool
is_outside outside = true
is_outside i = false

-- A stop while a call is inside `once.Do`: it overwrites the `sync.Once` that the call has locked.
abbrev pub overlaps : ClockStep → Clock → Bool
overlaps stops c = not (is_outside c.inside)
overlaps s c = false

-- What comes after an overlap is not modelled: when the call unlocks the `sync.Once`, the process ends,
-- unless another call has locked the new one.
unfoldable pub step : ClockStep → Clock → Option Clock
step s c = if overlaps s c then none else some (advance s c)

unfoldable pub run : List ClockStep → Clock → Option Clock
run [] c = some c
run (s ∷ steps) c = step s c >>= run steps
