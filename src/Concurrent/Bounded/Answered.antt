-- ===== src/Concurrent/Bounded/Answered.antt =====
-- A request is answered after a number of its own calls, whatever the others do.
use playback_service.Prelude.{
  ℕ, ◌+◌, ◌-◌, ◌≤◌, ◌≡◌, ◌∙◌, refl, ap, arith, eqb, Bool-cases, Option-cases, inl, inr, some, List,
  get_elem?, get_elem?-append, get_elem?-set, get_elem?-set_other, if◌then◌else◌,
}
use playback_service.External.{External}
use playback_service.World.{World}
use playback_service.Validator.{Field, Verdict}
use playback_service.Session.Handler.{Ctx}
use playback_service.Concurrent.{Prog, ret, call}
use playback_service.Concurrent.System.{
  Endpoint, calls, Thread, request, System, move, move_thread, moved, Step, asks, fetches, moves,
  turns, Reach, here, next,
}
use playback_service.Concurrent.Bounded.{Within, Within-more, move-Within}
use playback_service.Concurrent.Bounded.Handler.{most, calls-Within}

module _ {x : External} {A : Type 0} where
  Within-zero : (p : Prog x A) → Within 0 p → (after : A) × (p ≡ ret after)
  unfolding Within
  Within-zero (ret after) few = (after, refl)
  Within-zero (call m k) few = absurd few

module _ {x : External} (struct : List Field → Verdict) (i : ℕ) where
  -- How many of the steps are calls of the thread.
  abbrev pub own_move : {s t : System x struct} → Step x struct s t → ℕ
  own_move (moves j s) = if eqb j i then 1 else 0
  own_move (asks e ctx s) = 0
  own_move (fetches msg s) = 0
  own_move (turns j s) = 0

  unfoldable pub own_moves : {s t : System x struct} → Reach x struct s t → ℕ
  own_moves here = 0
  own_moves (next r step) = own_move step + own_moves r

  moved-own :
      (s : System x struct) (t : Thread x struct)
      → get_elem? s.threads i ≡ some t
      → get_elem? (moved x struct i s).threads i ≡ some (move_thread x struct t s.world).0
  unfolding moved
  moved-own s t e = rw (e, moved) (get_elem?-set s.threads i _ t e)

  moved-other :
      (j : ℕ) (s : System x struct)
      → (j ≡ i → ⊥)
      → get_elem? (moved x struct j s).threads i ≡ get_elem? s.threads i
  unfolding moved
  moved-other j s other = elim (Option-cases (get_elem? s.threads j)) [
    | inl missing ↦ rw (missing, moved) refl
    | inr (t, found) ↦ rw (found, moved) (get_elem?-set_other s.threads i j _ other)
  ]

  -- A kind of thread that goes on as its run does, and the calls that the run makes at most.
  module _ {A : Type 0} (kind : Prog x A → Thread x struct)
      (goes_on : (p : Prog x A) (w : World x)
        → (move_thread x struct (kind p) w).0 ≡ kind (move p w).0)
      (bound : ℕ) where
    -- What is left of the run, after so many of its calls.
    pub record Left (t : System x struct) (count : ℕ) : Type 1 where
      pub rest : Prog x A
      pub few : ℕ
      pub there : get_elem? t.threads i ≡ some (kind rest)
      pub within : Within few rest
      pub enough : few ≤ bound - count

    Step-Left :
        (n : ℕ) {s t : System x struct} (step : Step x struct s t)
        → Left s n
        → Left t (own_move step + n)
    Step-Left n (asks e c s) l = record {
      rest = l.rest;
      few = l.few;
      within = l.within;
      enough = let a = l.enough in omega arith;
      there = get_elem?-append s.threads _ i _ l.there;
    }
    Step-Left n (fetches msg s) l = record {
      rest = l.rest;
      few = l.few;
      within = l.within;
      enough = let a = l.enough in omega arith;
      there = get_elem?-append s.threads _ i _ l.there;
    }
    Step-Left n (turns j s) l = record {
      rest = l.rest;
      few = l.few;
      within = l.within;
      enough = let a = l.enough in omega arith;
      there = l.there;
    }
    Step-Left n (moves j s) l = elim (Bool-cases (eqb j i)) [
      | inl own ↦
          let same : j ≡ i = ground (arith, own) in
          record {
            rest = (move l.rest s.world).0;
            few = l.few - 1;
            within = move-Within l.few l.rest s.world l.within;
            enough = let a = l.enough in rw own (omega arith);
            there = rw same (moved-own s (kind l.rest) l.there ∙ ap some (goes_on l.rest s.world));
          }
      | inr not_own ↦
          let other : j ≡ i → ⊥ = λ same. ground (arith, not_own, same) in
          record {
            rest = l.rest;
            few = l.few;
            within = l.within;
            enough = let a = l.enough in rw not_own (omega arith);
            there = moved-other j s other ∙ l.there;
          }
    ]

    Reach-Left : {s t : System x struct} (r : Reach x struct s t) → Left s 0 → Left t (own_moves r)
    unfolding own_moves
    Reach-Left here l = l
    Reach-Left (next r step) l = Step-Left (own_moves r) step (Reach-Left r l)

    -- After as many calls of its own the run has ended.
    ended :
        {s t : System x struct} (r : Reach x struct s t) (p : Prog x A)
        → get_elem? s.threads i ≡ some (kind p)
        → Within bound p
        → bound ≤ own_moves r
        → (a : A) × (get_elem? t.threads i ≡ some (kind (ret a)))
    ended r p asked within many =
        let l = Reach-Left r (record {
          rest = p;
          few = bound;
          there = asked;
          within = within;
          enough = omega arith;
        }) in
        let none_left : l.few ≤ 0 = let a = l.enough in omega (arith, many) in
        let (a, same) = Within-zero l.rest (Within-more l.few 0 l.rest none_left l.within) in
        (a, l.there ∙ ap (λ p. some (kind p)) same)

-- A request that has just come in has a response after at most 15 calls of its own, as the model
-- counts them, where each call is answered at some time: whatever the calls answer, however many
-- others run, and in whatever order all of them make their calls.
pub answered_within :
    {x : External} (struct : List Field → Verdict) (e : Endpoint) (ctx : Ctx x struct) (i : ℕ)
    (s t : System x struct) (reached : Reach x struct s t)
    → get_elem? s.threads i ≡ some (request ctx (calls x struct e ctx))
    → most ≤ own_moves struct i reached
    → (after : Ctx x struct) × (get_elem? t.threads i ≡ some (request ctx (ret after)))
unfolding move_thread
answered_within {x} struct e ctx i s t reached asked many =
    ended struct i (request ctx) (λ p w. refl) most reached (calls x struct e ctx) asked
      (calls-Within x struct ctx e) many
