-- ===== src/Cache/Clock/Ticking.antt =====
-- pkg/gcs/fs/attrcache.go: the goroutines of the shared clock.
use caddy_fs_gcs.Base.{
  ℕ, ◌<◌, ◌≡◌, refl, ap, ◌∙◌, sym, inl, inr, Bool, true, false, ◌&&◌, Option, none, some, List, [],
  ◌∷◌, ◌==◌, if◌then◌else◌, not, arith, Bool-cases,
}
use caddy_fs_gcs.Cache.Clock.{
  Clock, Inside, outside, entered, has_made, launched, process_start, enter, enter_at, make_channel,
  make_at, launch, launch_at, finish, finish_at, stop_shared_clock, close_done, waits, remove, tick,
  leave, ClockStep, enters, makes, launches, finishes, stops, ticks, leaves, advance, overlaps,
  is_outside, step, run,
}

-- The goroutines that have not been told to stop.
unfoldable pub unstopped : (ℕ → Bool) → List ℕ → List ℕ
unstopped closed [] = []
unstopped closed (k ∷ ks) = let rest = unstopped closed ks in if closed k then rest else k ∷ rest

abbrev pub list_of : Option ℕ → List ℕ
list_of none = []
list_of (some ch) = ch ∷ []

abbrev pub is_some : Option ℕ → Bool
is_some none = false
is_some (some ch) = true

-- The channels that goroutines wait for which have not been told to stop.
abbrev pub listening : Inside → Option ℕ → List ℕ
listening (has_made ch) current = []
listening i current = list_of current

abbrev pub is_started : Inside → Option ℕ → Bool
is_started outside current = is_some current
is_started i current = false

-- What the call inside `once.Do` has made.
abbrev pub Stage : Inside → Option ℕ → Type 0
Stage outside current = Unit {0}
Stage entered current = current ≡ none
Stage (has_made ch) current = current ≡ some ch
Stage launched current = is_some current ≡ true

pub record IsDriven (c : Clock) : Type 0 where
  pub one : unstopped c.closed c.goroutines ≡ listening c.inside c.done
  pub started : c.once_done ≡ is_started c.inside c.done
  pub stage : Stage c.inside c.done
  pub known : (ch : ℕ) → c.closed ch ≡ true → ch < c.made
  pub open_done : (ch : ℕ) → c.done ≡ some ch → (c.closed ch ≡ false) × (ch < c.made)

unstopped-close :
    (ch : ℕ) (closed : ℕ → Bool) (ks : List ℕ)
    → unstopped (λ k. if k == ch then true else closed k) ks
      ≡ unstopped (λ k. k == ch) (unstopped closed ks)
unfolding unstopped
unstopped-close ch closed [] = refl
unstopped-close ch closed (k ∷ ks) = elim (Bool-cases (closed k)) [
  | inl y ↦ rw y (ground (arith, unstopped-close ch closed ks))
  | inr n ↦ rw n (ground (arith, unstopped-close ch closed ks))
]

unstopped-remove :
    (ch : ℕ) (closed : ℕ → Bool) (ks : List ℕ)
    → closed ch ≡ true
    → unstopped closed (remove ch ks) ≡ unstopped closed ks
unfolding unstopped remove
unstopped-remove ch closed [] h = refl
unstopped-remove ch closed (k ∷ ks) h = elim (Bool-cases (k == ch)) [
  | inl y ↦ let same : k ≡ ch = ground arith in rw (y, same, h) refl
  | inr n ↦ rw n (ground (arith, unstopped-remove ch closed ks))
]

enter-IsDriven : (c : Clock) (i : Inside) → c.inside ≡ i → IsDriven c → IsDriven (enter_at i c)
enter-IsDriven c outside h d = elim (Bool-cases c.once_done) [
  | inl y ↦ rw y (record {
    one = d.one;
    started = sym y ∙ d.started;
    stage = d.stage;
    known = d.known;
    open_done = d.open_done;
  })
  | inr n ↦
      let idle : c.done ≡ none = no_channel c.done (sym (rw h at d.started) ∙ n) in
      rw n (record {
        one = rw h at d.one;
        started = refl;
        stage = idle;
        known = d.known;
        open_done = d.open_done;
      })
]
  where
    no_channel : (o : Option ℕ) → is_some o ≡ false → o ≡ none
    no_channel none e = refl
    no_channel (some ch) e = cc
enter-IsDriven c entered h d = d
enter-IsDriven c (has_made ch) h d = d
enter-IsDriven c launched h d = d

make-IsDriven : (c : Clock) (i : Inside) → c.inside ≡ i → IsDriven c → IsDriven (make_at i c)
make-IsDriven c entered h d =
    let idle : c.done ≡ none = rw h at d.stage in
    let fresh : c.closed c.made ≡ false = ground (arith, d.known c.made) in
    record {
      one = d.one ∙ rw (h, idle) refl;
      started = d.started ∙ rw h refl;
      stage = refl;
      known = λ ch k. omega (arith, d.known ch k);
      open_done = λ ch k. (ground (arith, fresh, k), ground (arith, k));
    }
make-IsDriven c outside h d = d
make-IsDriven c (has_made ch) h d = d
make-IsDriven c launched h d = d

launch-IsDriven :
    (t : ℕ) (c : Clock) (i : Inside) → c.inside ≡ i → IsDriven c → IsDriven (launch_at i t c)
unfolding unstopped
launch-IsDriven t c (has_made ch) h d =
    let here : c.done ≡ some ch = rw h at d.stage in
    let none_waits : unstopped c.closed c.goroutines ≡ [] = d.one ∙ rw h refl in
    record {
      one = rw ((d.open_done ch here).0, here) (ap (λ ks. ch ∷ ks) none_waits);
      started = d.started ∙ rw h refl;
      stage = rw here refl;
      known = d.known;
      open_done = d.open_done;
    }
launch-IsDriven t c outside h d = d
launch-IsDriven t c entered h d = d
launch-IsDriven t c launched h d = d

finish-IsDriven : (c : Clock) (i : Inside) → c.inside ≡ i → IsDriven c → IsDriven (finish_at i c)
finish-IsDriven c launched h d = record {
  one = d.one ∙ rw h refl;
  started = sym (rw h at d.stage);
  stage = tt;
  known = d.known;
  open_done = d.open_done;
}
finish-IsDriven c outside h d = d
finish-IsDriven c entered h d = d
finish-IsDriven c (has_made ch) h d = d

stop_at :
    (o : Option ℕ) (c : Clock)
    → c.done ≡ o
    → c.inside ≡ outside
    → IsDriven c
    → IsDriven (record (close_done o c) { once_done = false })
unfolding unstopped
stop_at none c h out d = record {
  one = d.one;
  started = rw (out, h) refl;
  stage = d.stage;
  known = d.known;
  open_done = d.open_done;
}
stop_at (some ch) c h out d =
    let (opened, below) = d.open_done ch h in
    rw (opened, out)
      (record {
        one = unstopped-close ch c.closed c.goroutines ∙ rw (d.one, out, h) (ground arith);
        started = refl;
        stage = tt;
        known = λ k p. ground (arith, d.known k, below);
        open_done = λ k p. absurd (ground (arith, p));
      })

stop-IsDriven : (c : Clock) → c.inside ≡ outside → IsDriven c → IsDriven (stop_shared_clock c)
unfolding stop_shared_clock
stop-IsDriven c out d = stop_at c.done c refl out d

tick-IsDriven : (ch t : ℕ) (c : Clock) → IsDriven c → IsDriven (tick ch t c)
unfolding tick
tick-IsDriven ch t c d = elim (Bool-cases (waits ch c.goroutines)) [
  | inl y ↦ rw y (record {
    one = d.one;
    started = d.started;
    stage = d.stage;
    known = d.known;
    open_done = d.open_done;
  })
  | inr n ↦ rw n d
]

leave-IsDriven : (ch : ℕ) (c : Clock) → IsDriven c → IsDriven (leave ch c)
unfolding leave
leave-IsDriven ch c d = elim (Bool-cases (waits ch c.goroutines && c.closed ch)) [
  | inl y ↦ rw y (record {
    one = unstopped-remove ch c.closed c.goroutines (ground (arith, y)) ∙ d.one;
    started = d.started;
    stage = d.stage;
    known = d.known;
    open_done = d.open_done;
  })
  | inr n ↦ rw n d
]

outside_of : (i : Inside) → not (is_outside i) ≡ false → i ≡ outside
outside_of outside h = refl
outside_of entered h = absurd (ground (arith, h))
outside_of (has_made ch) h = absurd (ground (arith, h))
outside_of launched h = absurd (ground (arith, h))

advance-IsDriven :
    (s : ClockStep) (c : Clock) → overlaps s c ≡ false → IsDriven c → IsDriven (advance s c)
unfolding advance enter make_channel launch finish
advance-IsDriven enters c o d = enter-IsDriven c c.inside refl d
advance-IsDriven makes c o d = make-IsDriven c c.inside refl d
advance-IsDriven (launches t) c o d = launch-IsDriven t c c.inside refl d
advance-IsDriven finishes c o d = finish-IsDriven c c.inside refl d
advance-IsDriven stops c o d = stop-IsDriven c (outside_of c.inside o) d
advance-IsDriven (ticks ch t) c o d = tick-IsDriven ch t c d
advance-IsDriven (leaves ch) c o d = leave-IsDriven ch c d

-- No stop comes while a call is inside `once.Do`.
abbrev pub Orderly : List ClockStep → Clock → Type 0
Orderly [] c = Unit {0}
Orderly (s ∷ steps) c = (overlaps s c ≡ false) × Orderly steps (advance s c)

run_from-IsDriven :
    (steps : List ClockStep) (c : Clock)
    → Orderly steps c
    → IsDriven c
    → (c' : Clock) × (run steps c ≡ some c') × IsDriven c'
unfolding run step
run_from-IsDriven [] c o d = (c, refl, d)
run_from-IsDriven (s ∷ steps) c (now, later) d =
    let (c', ran, d') = run_from-IsDriven steps (advance s c) later (advance-IsDriven s c now d) in
    (c', rw now ran, d')

process_start-IsDriven : IsDriven process_start
unfolding unstopped
process_start-IsDriven = record {
  one = refl;
  started = refl;
  stage = tt;
  known = λ ch h. cc;
  open_done = λ ch h. absurd (ground (arith, h));
}

-- Whatever the interleaving of the sections of starts, of stops and of the goroutines' own steps since the
-- start of the process, provided that no stop comes while a start is inside `once.Do`: while no
-- start is inside, there is exactly one goroutine that has not been told to stop, that of the
-- current channel, if there is a channel, and none otherwise; there is a channel exactly while the
-- `sync.Once` is done, and the channel is open. A start that is inside finds no channel, and leaves one
-- with a goroutine that waits for it.
pub run-IsDriven :
    (steps : List ClockStep)
    → Orderly steps process_start
    → (c : Clock) × (run steps process_start ≡ some c) × IsDriven c
run-IsDriven steps o = run_from-IsDriven steps process_start o process_start-IsDriven
