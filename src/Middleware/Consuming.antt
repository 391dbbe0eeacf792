-- ===== src/Middleware/Consuming.antt =====
-- pkg/middleware/budget.go: calls of `Consume` that run at the same time, as schedules of their atomic
-- operations.
use mathlib.Core.Path.{subst}
use bunshin_go.Common.{
  ℕ, zero, suc, ◌+◌, ◌-◌, ◌<◌, ◌≤◌, List, [], ◌∷◌, ◌≡◌, refl, sym, ◌∙◌, ltb, ◌==◌, Bool-cases, inl,
  inr, arith, map,
}
use bunshin_go.Middleware.Budget.{Phase, ready, loaded, spent, refused, consume_step}

-- The next step of the call at a position, if it is there.
unfoldable pub step_at : ℕ → ℕ → List Phase → ℕ × List Phase
step_at i remaining [] = (remaining, [])
step_at zero remaining (p ∷ ps) =
    let (remaining', p') = consume_step remaining p in (remaining', p' ∷ ps)
step_at (suc i) remaining (p ∷ ps) =
    let (remaining', ps') = step_at i remaining ps in (remaining', p ∷ ps')

unfoldable pub run_schedule : List ℕ → ℕ × List Phase → ℕ × List Phase
run_schedule [] s = s
run_schedule (i ∷ is) s = run_schedule is (step_at i s.0 s.1)

abbrev pub all_ready : List ℕ → List Phase
all_ready = map ready

-- The tokens of the calls that succeeded.
unfoldable pub total_spent : List Phase → ℕ
total_spent [] = 0
total_spent (spent n ∷ ps) = n + total_spent ps
total_spent (ready n ∷ ps) = total_spent ps
total_spent (loaded n cur ∷ ps) = total_spent ps
total_spent (refused n ∷ ps) = total_spent ps

-- A value that was loaded is not below what remains, and a call is refused for more than remains.
abbrev pub Sound : ℕ → List Phase → Type 0
Sound remaining [] = Unit
Sound remaining (ready n ∷ ps) = Sound remaining ps
Sound remaining (spent n ∷ ps) = Sound remaining ps
Sound remaining (loaded n cur ∷ ps) = (remaining ≤ cur) × Sound remaining ps
Sound remaining (refused n ∷ ps) = (remaining < n) × Sound remaining ps

all_ready-Sound : (r : ℕ) (ns : List ℕ) → Sound r (all_ready ns) × (total_spent (all_ready ns) ≡ 0)
unfolding total_spent
all_ready-Sound r [] = (tt, refl)
all_ready-Sound r (n ∷ ns) = all_ready-Sound r ns

Sound-decrease : (r r' : ℕ) (ps : List Phase) → r' ≤ r → Sound r ps → Sound r' ps
Sound-decrease r r' [] h s = tt
Sound-decrease r r' (ready n ∷ ps) h s = Sound-decrease r r' ps h s
Sound-decrease r r' (spent n ∷ ps) h s = Sound-decrease r r' ps h s
Sound-decrease r r' (loaded n cur ∷ ps) h s = (omega (arith, s.0), Sound-decrease r r' ps h s.1)
Sound-decrease r r' (refused n ∷ ps) h s = (omega (arith, s.0), Sound-decrease r r' ps h s.1)

-- What a step of the calls does: the budget does not grow, what is spent is taken from it, and the
-- calls stay sound.
abbrev Steps : ℕ → List Phase → ℕ → List Phase → Type 0
Steps r ps r' ps' = (r' ≤ r) × (r' + total_spent ps' ≡ r + total_spent ps) × Sound r' ps'

head-Steps :
    (r : ℕ) (p : Phase) (ps : List Phase)
    → Sound r (p ∷ ps)
    → Steps r (p ∷ ps) (consume_step r p).0 ((consume_step r p).1 ∷ ps)
unfolding consume_step total_spent
head-Steps r (ready n) ps s = (omega arith, refl, (omega arith, s))
head-Steps r (spent n) ps s = (omega arith, refl, s)
head-Steps r (refused n) ps s = (omega arith, refl, s)
head-Steps r (loaded n cur) ps s = elim (Bool-cases (ltb cur n)) [
  | inl over ↦
      let at : consume_step r (loaded n cur) ≡ (r, refused n) = ground arith in
      subst Next (sym at) (omega arith, refl, (ground (arith, s.0), s.1))
  | inr fits ↦ elim (Bool-cases (r == cur)) [
    | inl same ↦
        let at : consume_step r (loaded n cur) ≡ (cur - n, spent n) = ground arith in
        subst Next (sym at)
          (ground arith, ground arith, Sound-decrease r (cur - n) ps (ground arith) s.1)
    | inr moved ↦
        let at : consume_step r (loaded n cur) ≡ (r, ready n) = ground arith in
        subst Next (sym at) (omega arith, refl, s.1)
  ]
]
  where
    Next : ℕ × Phase → Type 0
    Next q = Steps r (loaded n cur ∷ ps) q.0 (q.1 ∷ ps)

Sound-rest : (r : ℕ) (p : Phase) (ps : List Phase) → Sound r (p ∷ ps) → Sound r ps
Sound-rest r (ready n) ps s = s
Sound-rest r (spent n) ps s = s
Sound-rest r (loaded n cur) ps s = s.1
Sound-rest r (refused n) ps s = s.1

rest-Steps :
    (r r' : ℕ) (p : Phase) (ps ps' : List Phase)
    → Sound r (p ∷ ps)
    → Steps r ps r' ps'
    → Steps r (p ∷ ps) r' (p ∷ ps')
unfolding total_spent
rest-Steps r r' (ready n) ps ps' s (down, kept, sound) = (down, kept, sound)
rest-Steps r r' (spent n) ps ps' s (down, kept, sound) = (down, omega (arith, kept), sound)
rest-Steps r r' (loaded n cur) ps ps' s (down, kept, sound) =
    (down, kept, (omega (arith, down, s.0), sound))
rest-Steps r r' (refused n) ps ps' s (down, kept, sound) =
    (down, kept, (omega (arith, down, s.0), sound))

step_at-Steps :
    (i r : ℕ) (ps : List Phase) → Sound r ps → Steps r ps (step_at i r ps).0 (step_at i r ps).1
unfolding step_at
step_at-Steps i r [] s = (omega arith, refl, s)
step_at-Steps zero r (p ∷ ps) s = head-Steps r p ps s
step_at-Steps (suc i) r (p ∷ ps) s =
    rest-Steps r _ p ps _ s (step_at-Steps i r ps (Sound-rest r p ps s))

run_schedule-Steps :
    (is : List ℕ) (r : ℕ) (ps : List Phase)
    → Sound r ps
    → Steps r ps (run_schedule is (r, ps)).0 (run_schedule is (r, ps)).1
unfolding run_schedule
run_schedule-Steps [] r ps s = (omega arith, refl, s)
run_schedule-Steps (i ∷ is) r ps s =
    let (down, kept, sound) = step_at-Steps i r ps s in
    let (down', kept', sound') =
      run_schedule-Steps is (step_at i r ps).0 (step_at i r ps).1 sound in
    (omega (arith, down, down'), kept' ∙ kept, sound')

-- Calls of `Consume` for the counts `ns` run at the same time, in any order of their atomic
-- operations: what remains and what the calls that succeeded have spent is the budget at the start,
-- no value that a call has loaded is below what remains, and every call that was refused asked for
-- more than remains.
pub consume-Sound :
    (schedule : List ℕ) (budget : ℕ) (ns : List ℕ)
    → ((run_schedule schedule (budget, all_ready ns)).0
          + total_spent (run_schedule schedule (budget, all_ready ns)).1
        ≡ budget)
      × Sound
          (run_schedule schedule (budget, all_ready ns)).0
          (run_schedule schedule (budget, all_ready ns)).1
consume-Sound schedule budget ns =
    let (start, none_spent) = all_ready-Sound budget ns in
    let (_, kept, sound) = run_schedule-Steps schedule budget (all_ready ns) start in
    (omega (arith, kept, none_spent), sound)
