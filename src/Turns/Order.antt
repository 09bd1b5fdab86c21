-- ===== src/Turns/Order.antt =====
-- The turns of a conversation become active in the order in which they were submitted.
use mathlib.Core.Path.{◌≡◌, refl, sym, ap, ◌∙◌}
use personal_computing_space.Shared.{
  String, Bool, true, false, not, ◌||◌, Option, none, some, List, [], ◌∷◌, if◌then◌else◌, string_eq,
  option_eq,
}
use personal_computing_space.Turns.Coordinator.{
  Pending, Phase, waits, begins, active, ends, left, leave, is_waiting, Worker, Coordinator, Claim,
  granted, over, elsewhere, Step, submit, take, enter, activate, abort, interrupt, finish, change,
  claimed, on_submit, take_next, entered, activated, aborted, finished, interrupt_waiting,
  interrupt_queued, on_interrupt, step, steps, new_coordinator, idle, drop_turn, release_lane,
  queued, remember, forget, start_turn, unqueue, complete_if, cancel_worker, in_phase,
}
use personal_computing_space.Turns.Within.{Within, nothing, Within-trans, prefix-Within}
use personal_computing_space.Turns.Lines.{
  held, held_in, IsInOrder, change-IsInOrder, queued-IsInLine, take-IsInLine, idle-IsInLine,
  unqueue-IsInLine, start-IsInLine, same_held-IsInLine,
}

if-IsInOrder :
    (b : Bool) (s t : Coordinator) → IsInOrder s → IsInOrder t → IsInOrder (if b then s else t)
if-IsInOrder true s t i j = i
if-IsInOrder false s t i j = j

claimed-IsInOrder :
    (p : Pending) (claim : Claim) (s : Coordinator) → IsInOrder s → IsInOrder (claimed p claim s)
claimed-IsInOrder p granted s i =
    change-IsInOrder p.conversation_ref (queued p) s (remember p.request_id s) refl
      (queued-IsInLine p (s.conversations p.conversation_ref)) i
claimed-IsInOrder p over s i = record { in_line = i.in_line }
claimed-IsInOrder p elsewhere s i = i

module _ (c : String) (s : Coordinator) (i : IsInOrder s) where
  dropped-IsInOrder :
      (w : Worker) (p : Phase) (t : Coordinator)
      → t.conversations ≡ s.conversations
      → (s.conversations c).worker ≡ some w
      → w.phase ≡ p
      → IsInOrder (change c idle t)
  dropped-IsInOrder w p t k e q =
      change-IsInOrder c idle s t k (idle-IsInLine w p (s.conversations c) e q) i

  freed-IsInOrder :
      (w : Worker) (p : Phase) (t : Coordinator)
      → t.conversations ≡ s.conversations
      → (s.conversations c).worker ≡ some w
      → w.phase ≡ p
      → IsInOrder (release_lane c w t)
  freed-IsInOrder w p t k e q = record {
    in_line = (dropped-IsInOrder w p (forget w.pending.request_id t) k e q).in_line;
  }

  begun-IsInOrder :
      (w : Worker)
      → (s.conversations c).worker ≡ some w
      → w.phase ≡ waits
      → IsInOrder (record (change c (in_phase w begins) s) { lane = some c })
  begun-IsInOrder w e q = record {
    in_line =
        (change-IsInOrder c (in_phase w begins) s s refl
          (same_held-IsInLine (some (record w { phase = begins })) (s.conversations c)
            (sym (ap held e ∙ ap (λ x. held_in x w.pending) q)))
          i).in_line;
  }

  entered-IsInOrder :
      (l : Option String) (w : Option Worker)
      → (s.conversations c).worker ≡ w
      → IsInOrder (entered c l w s)
  entered-IsInOrder none none e = i
  entered-IsInOrder (some d) none e = i
  entered-IsInOrder (some d) (some w) e = i
  entered-IsInOrder none (some w) e = by_phase w.phase refl
    where
      by_phase :
          (p : Phase)
          → w.phase ≡ p
          → IsInOrder (elim p [
            | waits ↦
                if w.cancelled
                then drop_turn c w s
                else record (change c (in_phase w begins) s) { lane = some c }
            | begins ↦ s
            | active ↦ s
            | ends ↦ s
          ])
      by_phase waits q =
          if-IsInOrder w.cancelled _ _
            (dropped-IsInOrder w waits (forget w.pending.request_id s) refl e q)
            (begun-IsInOrder w e q)
      by_phase begins q = i
      by_phase active q = i
      by_phase ends q = i

  activated-IsInOrder :
      (w : Option Worker) → (s.conversations c).worker ≡ w → IsInOrder (activated c w s)
  activated-IsInOrder none e = i
  activated-IsInOrder (some w) e = by_phase w.phase refl
    where
      by_phase :
          (p : Phase)
          → w.phase ≡ p
          → IsInOrder
              (elim p [ waits ↦ s | begins ↦ change c (start_turn w) s | active ↦ s | ends ↦ s ])
      by_phase waits q = i
      by_phase begins q =
          change-IsInOrder c (start_turn w) s s refl (start-IsInLine w (s.conversations c) e q) i
      by_phase active q = i
      by_phase ends q = i

  aborted-IsInOrder :
      (w : Option Worker) → (s.conversations c).worker ≡ w → IsInOrder (aborted c w s)
  aborted-IsInOrder none e = i
  aborted-IsInOrder (some w) e = by_phase w.phase refl
    where
      by_phase :
          (p : Phase)
          → w.phase ≡ p
          → IsInOrder (elim p [ waits ↦ s | begins ↦ release_lane c w s | active ↦ s | ends ↦ s ])
      by_phase waits q = i
      by_phase begins q = freed-IsInOrder w begins s refl e q
      by_phase active q = i
      by_phase ends q = i

  finished-IsInOrder :
      (returned : Bool) (w : Option Worker)
      → (s.conversations c).worker ≡ w
      → IsInOrder (finished c returned w s)
  finished-IsInOrder returned none e = i
  finished-IsInOrder returned (some w) e = by_phase w.phase refl
    where
      by_phase :
          (p : Phase)
          → w.phase ≡ p
          → IsInOrder (elim p [
            | waits ↦ s
            | begins ↦ s
            | active ↦ change c (in_phase w ends) (complete_if returned w.pending.request_id s)
            | ends ↦ s
          ])
      by_phase waits q = i
      by_phase begins q = i
      by_phase active q =
          change-IsInOrder c (in_phase w ends) s (complete_if returned w.pending.request_id s) refl
            (same_held-IsInLine (some (record w { phase = ends })) (s.conversations c)
              (sym (ap held e ∙ ap (λ x. held_in x w.pending) q)))
            i
      by_phase ends q = i

  left-IsInOrder : (w : Option Worker) → (s.conversations c).worker ≡ w → IsInOrder (left c w s)
  left-IsInOrder none e = i
  left-IsInOrder (some w) e = by_phase w.phase refl
    where
      by_phase :
          (p : Phase)
          → w.phase ≡ p
          → IsInOrder (elim p [ waits ↦ s | begins ↦ s | active ↦ s | ends ↦ release_lane c w s ])
      by_phase waits q = i
      by_phase begins q = i
      by_phase active q = i
      by_phase ends q = freed-IsInOrder w ends s refl e q

  interrupt_waiting-IsInOrder :
      (w : Option Worker) → (s.conversations c).worker ≡ w → IsInOrder (interrupt_waiting c w s)
  interrupt_waiting-IsInOrder none e = i
  interrupt_waiting-IsInOrder (some w) e =
      if-IsInOrder (w.cancelled || not (is_waiting w.phase)) _ _ i (
        change-IsInOrder c (cancel_worker w) s (forget w.pending.request_id s) refl
          (same_held-IsInLine (some (record w { cancelled = true })) (s.conversations c)
            (sym (ap held e)))
          i)

  interrupt_queued-IsInOrder :
      (q : List Pending) → (s.conversations c).queue ≡ q → IsInOrder (interrupt_queued c s q)
  interrupt_queued-IsInOrder [] e = interrupt_waiting-IsInOrder (s.conversations c).worker refl
  interrupt_queued-IsInOrder (p ∷ rest) e =
      change-IsInOrder c (unqueue rest) s (forget p.request_id s) refl
        (unqueue-IsInLine p rest (s.conversations c) e) i

step-IsInOrder : (x : Step) (s : Coordinator) → IsInOrder s → IsInOrder (step x s)
unfolding step on_submit on_interrupt
step-IsInOrder (submit p claim) s i = if-IsInOrder _ _ _ i (claimed-IsInOrder p claim s i)
step-IsInOrder (take c) s i =
    change-IsInOrder c take_next s s refl
      (take-IsInLine (s.conversations c).worker (s.conversations c).queue (s.conversations c) refl
        refl)
      i
step-IsInOrder (enter c) s i = entered-IsInOrder c s i s.lane (s.conversations c).worker refl
step-IsInOrder (activate c) s i = activated-IsInOrder c s i (s.conversations c).worker refl
step-IsInOrder (abort c) s i = aborted-IsInOrder c s i (s.conversations c).worker refl
step-IsInOrder (finish c returned) s i =
    finished-IsInOrder c s i returned (s.conversations c).worker refl
step-IsInOrder (leave c) s i = left-IsInOrder c s i (s.conversations c).worker refl
step-IsInOrder (interrupt c) s i =
    if-IsInOrder _ _ _ i (interrupt_queued-IsInOrder c s i (s.conversations c).queue refl)

steps-IsInOrder : (xs : List Step) (s : Coordinator) → IsInOrder s → IsInOrder (steps xs s)
unfolding steps
steps-IsInOrder [] s i = i
steps-IsInOrder (x ∷ xs) s i = steps-IsInOrder xs (step x s) (step-IsInOrder x s i)

-- Whatever steps a new coordinator takes, in whatever order: the turns of a conversation that became active
-- are turns that were queued for it, each at most as often and all in the order in which they were
-- queued; turns that were interrupted or failed to begin are left out.
pub turns_in_order :
    (xs : List Step) (c : String)
    → Within
        ((steps xs new_coordinator).conversations c).started
        ((steps xs new_coordinator).conversations c).submitted
turns_in_order xs c =
    Within-trans
      ((steps-IsInOrder xs new_coordinator (record { in_line = λ d. nothing })).in_line c)
      (prefix-Within _ _)
