-- ===== src/Service/Stream/Delivered.antt =====
-- What a wait on an event stream finds.
use mathlib.Core.List.{Memᴰ}
use cri_containerd.Base.{
  ◌≡◌, ◌↔◌, refl, inl, inr, Bool, true, false, List, [], ◌∷◌, ◌++◌, Error, ok, arith, Bool-cases,
}
use cri_containerd.Base.Keep.{head_or_tail}
use cri_containerd.Service.Outside.{TaskExit, StreamEvent, exited, other, undecodable}
use cri_containerd.Service.Stream.{wait_for}

-- The events that a wait passes over: all can be decoded, and no exit among them passes the test.
pub record Passed (test : TaskExit → Bool) (events : List StreamEvent) : Type 0 where
  pub not_mine : (e : TaskExit) → Memᴰ (exited e) events → test e ≡ false
  pub decodable : (f : Error) → ¬ Memᴰ (undecodable f) events

-- `e` is the first exit that passes the test, and nothing before it is undecodable.
pub record Delivered (test : TaskExit → Bool) (events : List StreamEvent) (e : TaskExit)
    : Type 0 where
  pub before : List StreamEvent
  pub after : List StreamEvent
  pub at_exit : events ≡ before ++ exited e ∷ after
  pub is_mine : test e ≡ true
  pub passed : Passed test before

module _ (test : TaskExit → Bool) where
  Passed-nil : Passed test []
  Passed-nil = record { not_mine = λ e m. elim m [ ]; decodable = λ f m. elim m [ ] }

  Passed-tail : (x : StreamEvent) (xs : List StreamEvent) → Passed test (x ∷ xs) → Passed test xs
  Passed-tail x xs p = record {
    not_mine = λ e m. p.not_mine e (Memᴰ.tail m);
    decodable = λ f m. p.decodable f (Memᴰ.tail m);
  }

  Passed-exited :
      (d : TaskExit) (xs : List StreamEvent)
      → test d ≡ false
      → Passed test xs
      → Passed test (exited d ∷ xs)
  Passed-exited d xs h p = record {
    not_mine = λ e m. elim (head_or_tail m) [ inl eq ↦ cc | inr later ↦ p.not_mine e later ];
    decodable = λ f m. elim (head_or_tail m) [ inl eq ↦ cc | inr later ↦ p.decodable f later ];
  }

  Passed-other : (xs : List StreamEvent) → Passed test xs → Passed test (other ∷ xs)
  Passed-other xs p = record {
    not_mine = λ e m. elim (head_or_tail m) [ inl eq ↦ cc | inr later ↦ p.not_mine e later ];
    decodable = λ f m. elim (head_or_tail m) [ inl eq ↦ cc | inr later ↦ p.decodable f later ];
  }

  later :
      (x : StreamEvent) (xs : List StreamEvent) (e : TaskExit)
      → ((ys : List StreamEvent) → Passed test ys → Passed test (x ∷ ys))
      → Delivered test xs e
      → Delivered test (x ∷ xs) e
  later x xs e more d = record {
    before = x ∷ d.before;
    after = d.after;
    at_exit = rw d.at_exit refl;
    is_mine = d.is_mine;
    passed = more d.before d.passed;
  }

  wait_for-Delivered :
      (events : List StreamEvent) (last : Error) (e : TaskExit)
      → wait_for test events last ≡ ok e
      → Delivered test events e
  unfolding wait_for
  wait_for-Delivered [] last e h = cc
  wait_for-Delivered (exited d ∷ events) last e h = elim (Bool-cases (test d)) [
    | inl mine ↦ record {
      before = [];
      after = events;
      at_exit = ground (arith, mine);
      is_mine = ground (arith, mine);
      passed = Passed-nil;
    }
    | inr no_match ↦
        later (exited d) events e (λ ys. Passed-exited d ys no_match)
          (wait_for-Delivered events last e (rw (no_match, wait_for) at h))
  ]
  wait_for-Delivered (other ∷ events) last e h =
      later other events e Passed-other (wait_for-Delivered events last e h)
  wait_for-Delivered (undecodable f ∷ events) last e h = cc

  skips_others :
      (before after : List StreamEvent) (last : Error) (e : TaskExit)
      → test e ≡ true
      → Passed test before
      → wait_for test (before ++ exited e ∷ after) last ≡ ok e
  unfolding wait_for
  skips_others [] after last e mine p = ground (arith, mine)
  skips_others (exited d ∷ before) after last e mine p =
      rw (p.not_mine d (Memᴰ.head refl), wait_for)
        (skips_others before after last e mine (Passed-tail _ _ p))
  skips_others (other ∷ before) after last e mine p =
      skips_others before after last e mine (Passed-tail _ _ p)
  skips_others (undecodable f ∷ before) after last e mine p =
      absurd (p.decodable f (Memᴰ.head refl))

  -- A wait returns exactly the first exit that it looks for, if it comes before an event that cannot
  -- be decoded and before the stream ends.
  pub wait_for_lem :
      (events : List StreamEvent) (last : Error) (e : TaskExit)
      → (wait_for test events last ≡ ok e) ↔ Delivered test events e
  wait_for_lem events last e = (
    wait_for-Delivered events last e,
    λ d. rw d.at_exit (skips_others d.before d.after last e d.is_mine d.passed),
  )
