-- ===== src/Turns/Exclusion.antt =====
-- The lane: one turn is begun or active at a time.
use mathlib.Core.Path.{◌≡◌, refl, sym, ap, ◌∙◌}
use personal_computing_space.Shared.{
  String, Bool, true, false, not, ◌||◌, arith, Option, none, some, List, [], ◌∷◌, ◌==◌, ==_iff,
  if◌then◌else◌, string_eq, option_eq,
}
use personal_computing_space.Turns.Coordinator.{
  Pending, Phase, waits, begins, active, ends, left, leave, is_waiting, Worker, Conversation,
  Coordinator, Claim, granted, over, elsewhere, Step, submit, take, enter, activate, abort,
  interrupt, finish, change, claimed, on_submit, taken, take_next, entered, activated, aborted,
  finished, interrupt_waiting, interrupt_queued, on_interrupt, step, steps, new_coordinator, idle,
  drop_turn, release_lane, queued, remember, forget, start_turn, unqueue, complete_if,
  cancel_worker, in_phase,
}

-- the worker has the lane
abbrev pub has_lane : Option Worker → Bool
has_lane none = false
has_lane (some w) = elim w.phase [ waits ↦ false | begins ↦ true | active ↦ true | ends ↦ true ]

abbrev pub is_lane : Option String → String → Bool
is_lane none c = false
is_lane (some d) c = d == c

-- The lane names the conversation whose worker has it, and no other worker has it.
pub record IsExclusive (s : Coordinator) : Type 0 where
  pub named : (c : String) → has_lane (s.conversations c).worker ≡ is_lane s.lane c

-- a change of one conversation that leaves the lane
change-IsExclusive :
    (c : String) (f : Conversation → Conversation) (s t : Coordinator)
    → t.conversations ≡ s.conversations
    → t.lane ≡ s.lane
    → has_lane (f (s.conversations c)).worker ≡ has_lane (s.conversations c).worker
    → IsExclusive s
    → IsExclusive (change c f t)
change-IsExclusive c f s t k l h i = record { named = λ d. rw k (rw l (by_name d (c == d) refl)) }
  where
    by_name :
        (d : String) (b : Bool)
        → (c == d) ≡ b
        → has_lane (if b then f (s.conversations d) else s.conversations d).worker
          ≡ is_lane s.lane d
    by_name d true e =
        ap (λ x. has_lane (f (s.conversations x)).worker) (sym ((==_iff c d).0 e))
        ∙ h
        ∙ i.named c
        ∙ ap (is_lane s.lane) ((==_iff c d).0 e)
    by_name d false e = i.named d

-- the lane is given to a conversation, where it was free
given-IsExclusive :
    (c : String) (f : Conversation → Conversation) (s : Coordinator)
    → s.lane ≡ none
    → has_lane (f (s.conversations c)).worker ≡ true
    → IsExclusive s
    → IsExclusive (record (change c f s) { lane = some c })
given-IsExclusive c f s l h i = record { named = λ d. by_name d (c == d) refl }
  where
    by_name :
        (d : String) (b : Bool)
        → (c == d) ≡ b
        → has_lane (if b then f (s.conversations d) else s.conversations d).worker ≡ (c == d)
    by_name d true e =
        ap (λ x. has_lane (f (s.conversations x)).worker) (sym ((==_iff c d).0 e)) ∙ h ∙ sym e
    by_name d false e = i.named d ∙ ap (λ x. is_lane x d) l ∙ sym e

-- and taken back from the one that had it
freed-IsExclusive :
    (c : String) (s t : Coordinator)
    → t.conversations ≡ s.conversations
    → has_lane (s.conversations c).worker ≡ true
    → IsExclusive s
    → IsExclusive (record (change c idle t) { lane = none })
freed-IsExclusive c s t k h i = record { named = λ d. rw k (by_name d (c == d) refl) }
  where
    by_name :
        (d : String) (b : Bool)
        → (c == d) ≡ b
        → has_lane (if b then idle (s.conversations d) else s.conversations d).worker ≡ false
    by_name d true e = refl
    by_name d false e = i.named d ∙ by_lane s.lane (sym h ∙ i.named c)
      where
        by_lane : (l : Option String) → true ≡ is_lane l c → is_lane l d ≡ false
        by_lane none q = refl
        by_lane (some x) q = ground (arith, ==_iff x c, ==_iff x d, ==_iff c d)

-- whether a worker has the lane, by its phase
abbrev lane_of : Phase → Bool
lane_of waits = false
lane_of begins = true
lane_of active = true
lane_of ends = true

worker_lane :
    (v : Conversation) (w : Worker) (p : Phase)
    → v.worker ≡ some w
    → w.phase ≡ p
    → has_lane v.worker ≡ lane_of p
worker_lane v w waits e q = ap has_lane e ∙ ap lane_of q
worker_lane v w begins e q = ap has_lane e ∙ ap lane_of q
worker_lane v w active e q = ap has_lane e ∙ ap lane_of q
worker_lane v w ends e q = ap has_lane e ∙ ap lane_of q

if-IsExclusive :
    (b : Bool) (s t : Coordinator)
    → IsExclusive s
    → IsExclusive t
    → IsExclusive (if b then s else t)
if-IsExclusive true s t i j = i
if-IsExclusive false s t i j = j

claimed-IsExclusive :
    (p : Pending) (claim : Claim) (s : Coordinator)
    → IsExclusive s
    → IsExclusive (claimed p claim s)
claimed-IsExclusive p granted s i =
    change-IsExclusive p.conversation_ref (queued p) s (remember p.request_id s) refl refl refl i
claimed-IsExclusive p over s i = record { named = i.named }
claimed-IsExclusive p elsewhere s i = i

take_next-lane :
    (w : Option Worker) (q : List Pending) (v : Conversation)
    → v.worker ≡ w
    → has_lane (taken w q v).worker ≡ has_lane v.worker
take_next-lane none [] v e = refl
take_next-lane none (p ∷ rest) v e = sym (ap has_lane e)
take_next-lane (some w) [] v e = refl
take_next-lane (some w) (p ∷ rest) v e = refl

module _ (c : String) (s : Coordinator) (i : IsExclusive s) where
  drop_turn-IsExclusive :
      (w : Worker) → has_lane (s.conversations c).worker ≡ false → IsExclusive (drop_turn c w s)
  drop_turn-IsExclusive w h =
      change-IsExclusive c idle s (forget w.pending.request_id s) refl refl (sym h) i

  entered-IsExclusive :
      (l : Option String) (w : Option Worker)
      → s.lane ≡ l
      → (s.conversations c).worker ≡ w
      → IsExclusive (entered c l w s)
  entered-IsExclusive none none m e = i
  entered-IsExclusive (some d) none m e = i
  entered-IsExclusive (some d) (some w) m e = i
  entered-IsExclusive none (some w) m e = by_phase w.phase refl
    where
      by_phase :
          (p : Phase)
          → w.phase ≡ p
          → IsExclusive (elim p [
            | waits ↦
                if w.cancelled
                then drop_turn c w s
                else record (change c (in_phase w begins) s) { lane = some c }
            | begins ↦ s
            | active ↦ s
            | ends ↦ s
          ])
      by_phase waits q =
          if-IsExclusive w.cancelled _ _
            (drop_turn-IsExclusive w (worker_lane (s.conversations c) w waits e q))
            (given-IsExclusive c (in_phase w begins) s m refl i)
      by_phase begins q = i
      by_phase active q = i
      by_phase ends q = i

  release_lane-IsExclusive :
      (w : Worker) (t : Coordinator)
      → t.conversations ≡ s.conversations
      → has_lane (s.conversations c).worker ≡ true
      → IsExclusive (release_lane c w t)
  release_lane-IsExclusive w t k h = freed-IsExclusive c s (forget w.pending.request_id t) k h i

  activated-IsExclusive :
      (w : Option Worker) → (s.conversations c).worker ≡ w → IsExclusive (activated c w s)
  activated-IsExclusive none e = i
  activated-IsExclusive (some w) e = by_phase w.phase refl
    where
      by_phase :
          (p : Phase)
          → w.phase ≡ p
          → IsExclusive
              (elim p [ waits ↦ s | begins ↦ change c (start_turn w) s | active ↦ s | ends ↦ s ])
      by_phase waits q = i
      by_phase begins q =
          change-IsExclusive c (start_turn w) s s refl refl
            (sym (worker_lane (s.conversations c) w begins e q)) i
      by_phase active q = i
      by_phase ends q = i

  aborted-IsExclusive :
      (w : Option Worker) → (s.conversations c).worker ≡ w → IsExclusive (aborted c w s)
  aborted-IsExclusive none e = i
  aborted-IsExclusive (some w) e = by_phase w.phase refl
    where
      by_phase :
          (p : Phase)
          → w.phase ≡ p
          → IsExclusive (elim p [ waits ↦ s | begins ↦ release_lane c w s | active ↦ s | ends ↦ s ])
      by_phase waits q = i
      by_phase begins q =
          release_lane-IsExclusive w s refl (worker_lane (s.conversations c) w begins e q)
      by_phase active q = i
      by_phase ends q = i

  finished-IsExclusive :
      (returned : Bool) (w : Option Worker)
      → (s.conversations c).worker ≡ w
      → IsExclusive (finished c returned w s)
  finished-IsExclusive returned none e = i
  finished-IsExclusive returned (some w) e = by_phase w.phase refl
    where
      by_phase :
          (p : Phase)
          → w.phase ≡ p
          → IsExclusive (elim p [
            | waits ↦ s
            | begins ↦ s
            | active ↦ change c (in_phase w ends) (complete_if returned w.pending.request_id s)
            | ends ↦ s
          ])
      by_phase waits q = i
      by_phase begins q = i
      by_phase active q =
          change-IsExclusive c (in_phase w ends) s (complete_if returned w.pending.request_id s)
            refl refl (sym (worker_lane (s.conversations c) w active e q)) i
      by_phase ends q = i

  left-IsExclusive : (w : Option Worker) → (s.conversations c).worker ≡ w → IsExclusive (left c w s)
  left-IsExclusive none e = i
  left-IsExclusive (some w) e = by_phase w.phase refl
    where
      by_phase :
          (p : Phase)
          → w.phase ≡ p
          → IsExclusive (elim p [ waits ↦ s | begins ↦ s | active ↦ s | ends ↦ release_lane c w s ])
      by_phase waits q = i
      by_phase begins q = i
      by_phase active q = i
      by_phase ends q =
          release_lane-IsExclusive w s refl (worker_lane (s.conversations c) w ends e q)

  interrupt_waiting-IsExclusive :
      (w : Option Worker) → (s.conversations c).worker ≡ w → IsExclusive (interrupt_waiting c w s)
  interrupt_waiting-IsExclusive none e = i
  interrupt_waiting-IsExclusive (some w) e =
      if-IsExclusive (w.cancelled || not (is_waiting w.phase)) _ _ i (
        change-IsExclusive c (cancel_worker w) s (forget w.pending.request_id s) refl refl
          (ap has_lane (sym e)) i)

  interrupt_queued-IsExclusive : (q : List Pending) → IsExclusive (interrupt_queued c s q)
  interrupt_queued-IsExclusive [] = interrupt_waiting-IsExclusive (s.conversations c).worker refl
  interrupt_queued-IsExclusive (p ∷ rest) =
      change-IsExclusive c (unqueue rest) s (forget p.request_id s) refl refl refl i

step-IsExclusive : (x : Step) (s : Coordinator) → IsExclusive s → IsExclusive (step x s)
unfolding step on_submit on_interrupt
step-IsExclusive (submit p claim) s i = if-IsExclusive _ _ _ i (claimed-IsExclusive p claim s i)
step-IsExclusive (take c) s i =
    change-IsExclusive c take_next s s refl refl
      (take_next-lane (s.conversations c).worker (s.conversations c).queue (s.conversations c) refl)
      i
step-IsExclusive (enter c) s i =
    entered-IsExclusive c s i s.lane (s.conversations c).worker refl refl
step-IsExclusive (activate c) s i = activated-IsExclusive c s i (s.conversations c).worker refl
step-IsExclusive (abort c) s i = aborted-IsExclusive c s i (s.conversations c).worker refl
step-IsExclusive (finish c returned) s i =
    finished-IsExclusive c s i returned (s.conversations c).worker refl
step-IsExclusive (leave c) s i = left-IsExclusive c s i (s.conversations c).worker refl
step-IsExclusive (interrupt c) s i =
    if-IsExclusive _ _ _ i (interrupt_queued-IsExclusive c s i (s.conversations c).queue)

steps-IsExclusive : (xs : List Step) (s : Coordinator) → IsExclusive s → IsExclusive (steps xs s)
unfolding steps
steps-IsExclusive [] s i = i
steps-IsExclusive (x ∷ xs) s i = steps-IsExclusive xs (step x s) (step-IsExclusive x s i)

-- Whatever steps a new coordinator takes, in whatever order: two conversations whose turns have begun or are
-- active at the same time are the same conversation.
pub one_turn_at_a_time :
    (xs : List Step) (c d : String)
    → has_lane ((steps xs new_coordinator).conversations c).worker ≡ true
    → has_lane ((steps xs new_coordinator).conversations d).worker ≡ true
    → c ≡ d
one_turn_at_a_time xs c d p q =
    same (steps xs new_coordinator).lane (sym p ∙ exclusive.named c) (sym q ∙ exclusive.named d)
  where
    exclusive : IsExclusive (steps xs new_coordinator)
    exclusive = steps-IsExclusive xs new_coordinator (record { named = λ c. refl })

    same : (l : Option String) → true ≡ is_lane l c → true ≡ is_lane l d → c ≡ d
    same none p q = ground arith
    same (some x) p q = sym ((==_iff x c).0 (sym p)) ∙ (==_iff x d).0 (sym q)
